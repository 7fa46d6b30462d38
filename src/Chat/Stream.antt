-- ===== src/Chat/Stream.antt =====
-- A reply that is streamed in deltas (web/src/core/state/ChatContext.tsx).
use mobilecoding.Base.{
  ℕ, ◌≤◌, ◌<◌, ◌≡◌, refl, sym, ap, ◌∙◌, String, Bool, false, Option, none, some, List, [], ◌∷◌,
  ◌++◌, arith, length, length-append, last?, last?-snoc, init-snoc, concat, ◌&&◌, truthy, any, All,
  All-mono,
}
use mobilecoding.Event.{
  AppEvent, BaseEvent, text, text_delta, DisplayMessage, event, is_permission, has_id,
}
use mobilecoding.Chat.State.{ChatState, Action, event_received}
use mobilecoding.Chat.Storage.{Storage, Env}
use mobilecoding.Chat.Merge.{
  max_messages, is_duplicate, delta?, join_thinking, merge_delta, merge_by, merge_event,
  cap_messages,
}
use mobilecoding.Chat.Receive.{is_for_stopped, is_ignored, receive, track_seq}
use mobilecoding.Chat.Frame.{next_state-Keeps}
use mobilecoding.Chat.Reducer.{reducer, run}

-- A piece of a reply.
pub record Chunk : Type 0 where
  pub base : BaseEvent
  pub body : String
  pub thinking : Option String

abbrev pub chunk_event : ℕ → Chunk → AppEvent
chunk_event block c = record { base = c.base; payload = text_delta c.body c.thinking block }

abbrev pub text_event : Chunk → AppEvent
text_event c = record { base = c.base; payload = text c.body c.thinking }

abbrev pub joined_text : String → List (Env × Chunk) → String
joined_text t [] = t
joined_text t ((env, c) ∷ h) = joined_text (concat t c.body) h

abbrev pub joined_thinking : Option String → List (Env × Chunk) → Option String
joined_thinking t [] = t
joined_thinking t ((env, c) ∷ h) = joined_thinking (join_thinking t c.thinking) h

-- The message of the first chunk, with the texts and the thinking of the others joined on.
abbrev pub streamed : ℕ → Chunk → List (Env × Chunk) → DisplayMessage
streamed block c h = event (record {
  base = c.base;
  payload = text_delta (joined_text c.body h) (joined_thinking c.thinking h) block;
})

abbrev pub stream : ℕ → Option String → List (Env × Chunk) → List (Env × Action)
stream block sid [] = []
stream block sid ((env, c) ∷ h) =
    (env, event_received (chunk_event block c) sid) ∷ stream block sid h

pub cap_messages_small :
    (msgs : List DisplayMessage) → length msgs ≤ max_messages → cap_messages msgs ≡ msgs
unfolding cap_messages
cap_messages_small msgs h = ground arith

-- An event with the id is on display.
abbrev pub seen : Option String → List DisplayMessage → Bool
seen none msgs = false
seen (some id) msgs = truthy (some id) && any (has_id id) msgs

-- A delta of the block with this base, text and thinking.
abbrev pub delta_message : BaseEvent → String → Option String → ℕ → DisplayMessage
delta_message b t th block = event (record { base = b; payload = text_delta t th block })

-- The id of a message is that of its base: merging does not change it.
any-has_id :
    (id : String) (msgs : List DisplayMessage) (b : BaseEvent) (t u : String)
    (th uh : Option String) (block : ℕ)
    → any (has_id id) (msgs ++ delta_message b t th block ∷ [])
      ≡ any (has_id id) (msgs ++ delta_message b u uh block ∷ [])
any-has_id id [] b t u th uh block = refl
any-has_id id (m ∷ msgs) b t u th uh block = cc (any-has_id id msgs b t u th uh block)

pub seen-delta :
    (i : Option String) (msgs : List DisplayMessage) (b : BaseEvent) (t u : String)
    (th uh : Option String) (block : ℕ)
    → seen i (msgs ++ delta_message b t th block ∷ [])
      ≡ seen i (msgs ++ delta_message b u uh block ∷ [])
seen-delta none msgs b t u th uh block = refl
seen-delta (some id) msgs b t u th uh block = cc (any-has_id id msgs b t u th uh block)

is_duplicate-eq-seen :
    (msgs : List DisplayMessage) (ev : AppEvent)
    → is_permission ev.payload ≡ false
    → is_duplicate msgs ev ≡ seen ev.message_id msgs
unfolding is_duplicate
is_duplicate-eq-seen msgs ev h = ground arith

-- An event that is not for a stopped session and not on display is merged.
pub receive-messages :
    (env : Env) (ev : AppEvent) (sid : Option String) (s : ChatState) (st : Storage)
    → is_for_stopped sid s.stopped_session_id ≡ false
    → is_permission ev.payload ≡ false
    → seen ev.message_id s.messages ≡ false
    → ((receive env ev sid s st).0.messages ≡ cap_messages (merge_event s.messages ev))
      × ((receive env ev sid s st).0.stopped_session_id ≡ s.stopped_session_id)
unfolding receive is_ignored track_seq
receive-messages env ev sid s st h p k =
    ground (arith, next_state-Keeps env s ev sid, is_duplicate-eq-seen s.messages ev)

merge_delta_grows :
    (block : ℕ) (c : Chunk) (msgs : List DisplayMessage) (b : BaseEvent) (t : String)
    (th : Option String)
    → merge_event (msgs ++ delta_message b t th block ∷ []) (chunk_event block c)
      ≡ msgs ++ delta_message b (concat t c.body) (join_thinking th c.thinking) block ∷ []
unfolding merge_event merge_by merge_delta
merge_delta_grows block c msgs b t th =
    rw (last?-snoc msgs (delta_message b t th block), merge_delta)
      (ground (arith, init-snoc msgs (delta_message b t th block)))

append-not-delta :
    (block : ℕ) (c : Chunk) (l : List DisplayMessage)
    → delta? (last? l) ≡ none
    → merge_event l (chunk_event block c) ≡ l ++ event (chunk_event block c) ∷ []
unfolding merge_event merge_by merge_delta
append-not-delta block c l h = rw (h, merge_delta) refl

module _ (sid : Option String) (block : ℕ) (msgs : List DisplayMessage) (b : BaseEvent) where
  pub stream-grows :
      (h : List (Env × Chunk)) (s : ChatState) (st : Storage) (t : String) (th : Option String)
      → is_for_stopped sid s.stopped_session_id ≡ false
      → length msgs < max_messages
      → All (λ p. seen p.1.base.message_id (msgs ++ delta_message b t th block ∷ []) ≡ false) h
      → s.messages ≡ msgs ++ delta_message b t th block ∷ []
      → ((run (stream block sid h) (s, st)).0.messages
          ≡ msgs ++ delta_message b (joined_text t h) (joined_thinking th h) block ∷ [])
        × ((run (stream block sid h) (s, st)).0.stopped_session_id ≡ s.stopped_session_id)
  unfolding run reducer
  stream-grows [] s st t th live small fresh e = (e, refl)
  stream-grows ((env, c) ∷ h) s st t th live small fresh e =
      let (grown, kept) =
        stream-grows h _ _ (concat t c.body) (join_thinking th c.thinking) (rw step.1 live) small
          (All-mono _ _ h
            (λ p q. sym (seen-delta p.1.base.message_id msgs b t (concat t c.body) th _ block) ∙ q)
            fresh.1)
          (step.0
            ∙ ap (λ l. cap_messages (merge_event l (chunk_event block c))) e
            ∙ ap cap_messages (merge_delta_grows block c msgs b t th)
            ∙ cap_messages_small _ (
                omega
                  (arith, length-append msgs (delta_message b (concat t c.body) _ block ∷ [])))) in
      (grown, kept ∙ step.1)
    where
      step :
          ((receive env (chunk_event block c) sid s st).0.messages
            ≡ cap_messages (merge_event s.messages (chunk_event block c)))
          × ((receive env (chunk_event block c) sid s st).0.stopped_session_id
              ≡ s.stopped_session_id)
      step = receive-messages env (chunk_event block c) sid s st live refl (rw e fresh.0)

-- Deltas of one block that come one after another, each with an id that is not on display, show as one
-- message at the end of the list: it has the first one's id, time and number, the texts of all in
-- order and their thinking. This holds where the session was not stopped, the list has room and its
-- last message is not a delta. The stopped session stays as it is.
pub run-stream :
    (sid : Option String) (block : ℕ) (env : Env) (c : Chunk) (h : List (Env × Chunk))
    (s : ChatState) (st : Storage)
    → is_for_stopped sid s.stopped_session_id ≡ false
    → length s.messages < max_messages
    → delta? (last? s.messages) ≡ none
    → seen c.base.message_id s.messages ≡ false
    → All (λ p. seen p.1.base.message_id (s.messages ++ event (chunk_event block c) ∷ []) ≡ false) h
    → ((run (stream block sid ((env, c) ∷ h)) (s, st)).0.messages
        ≡ s.messages ++ streamed block c h ∷ [])
      × ((run (stream block sid ((env, c) ∷ h)) (s, st)).0.stopped_session_id
          ≡ s.stopped_session_id)
unfolding run reducer
run-stream sid block env c h s st live small other new fresh =
    let (grown, kept) =
      stream-grows sid block s.messages c.base h _ _ c.body c.thinking (rw step.1 live) small fresh
        (step.0
          ∙ ap cap_messages (append-not-delta block c s.messages other)
          ∙ cap_messages_small _
              (omega (arith, length-append s.messages (event (chunk_event block c) ∷ [])))) in
    (grown, kept ∙ step.1)
  where
    step :
        ((receive env (chunk_event block c) sid s st).0.messages
          ≡ cap_messages (merge_event s.messages (chunk_event block c)))
        × ((receive env (chunk_event block c) sid s st).0.stopped_session_id ≡ s.stopped_session_id)
    step = receive-messages env (chunk_event block c) sid s st live refl new
