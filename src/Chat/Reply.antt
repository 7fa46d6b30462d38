-- ===== src/Chat/Reply.antt =====
-- A streamed reply that ends in its complete text (web/src/core/state/ChatContext.tsx).
use mobilecoding.Base.{
  ℕ, ◌<◌, ◌≡◌, refl, ap, ◌∙◌, String, false, Option, none, List, [], ◌∷◌, ◌++◌, arith, length,
  length-append, last?, last?-snoc, init-snoc, if◌then◌else◌, truthy, All,
}
use mobilecoding.Event.{BaseEvent, text, DisplayMessage, event}
use mobilecoding.Chat.State.{ChatState, Action, event_received}
use mobilecoding.Chat.Storage.{Storage, Env}
use mobilecoding.Chat.Merge.{max_messages, delta?, merge_text, merge_by, merge_event, cap_messages}
use mobilecoding.Chat.Receive.{is_for_stopped, receive}
use mobilecoding.Chat.Reducer.{reducer, run}
use mobilecoding.Chat.Stream.{
  Chunk, cap_messages_small, chunk_event, delta_message, joined_text, joined_thinking,
  receive-messages, run-stream, seen, seen-delta, stream, text_event,
}

run-append :
    (h k : List (Env × Action)) (w : ChatState × Storage) → run (h ++ k) w ≡ run k (run h w)
unfolding run
run-append [] k w = refl
run-append ((env, a) ∷ h) k (s, st) = run-append h k (reducer env a s st)

-- The message that a complete text leaves: its own, with the thinking streamed so far where it has none.
abbrev pub final_message : Chunk → Option String → DisplayMessage
final_message f th = event (record {
  base = f.base;
  payload =
      text f.body (if truthy f.thinking then f.thinking else if truthy th then th else f.thinking);
})

merge_text_replaces :
    (f : Chunk) (msgs : List DisplayMessage) (b : BaseEvent) (t : String) (th : Option String)
    (block : ℕ)
    → merge_event (msgs ++ delta_message b t th block ∷ []) (text_event f)
      ≡ msgs ++ final_message f th ∷ []
unfolding merge_event merge_by merge_text
merge_text_replaces f msgs b t th block =
    rw (last?-snoc msgs (delta_message b t th block), merge_text)
      (ground (arith, init-snoc msgs (delta_message b t th block)))

receive-final :
    (sid : Option String) (env : Env) (f : Chunk) (msgs : List DisplayMessage) (b : BaseEvent)
    (t : String) (th : Option String) (block : ℕ) (s : ChatState) (st : Storage)
    → is_for_stopped sid s.stopped_session_id ≡ false
    → length msgs < max_messages
    → seen f.base.message_id (msgs ++ delta_message b t th block ∷ []) ≡ false
    → s.messages ≡ msgs ++ delta_message b t th block ∷ []
    → (receive env (text_event f) sid s st).0.messages ≡ msgs ++ final_message f th ∷ []
receive-final sid env f msgs b t th block s st live small new e =
    (receive-messages env (text_event f) sid s st live refl (rw e new)).0
    ∙ ap (λ l. cap_messages (merge_event l (text_event f))) e
    ∙ ap cap_messages (merge_text_replaces f msgs b t th block)
    ∙ cap_messages_small _ (omega (arith, length-append msgs (final_message f th ∷ [])))

-- Deltas of one block that come one after another and then the complete text show as that text alone
-- at the end of the list, with the thinking of the deltas where the text brings none. This holds where
-- the session was not stopped, the list has room, its last message is not a delta, and the ids of the
-- deltas and of the text are not on display.
pub run-reply :
    (sid : Option String) (block : ℕ) (env env' : Env) (c f : Chunk) (h : List (Env × Chunk))
    (s : ChatState) (st : Storage)
    → is_for_stopped sid s.stopped_session_id ≡ false
    → length s.messages < max_messages
    → delta? (last? s.messages) ≡ none
    → seen c.base.message_id s.messages ≡ false
    → All (λ p. seen p.1.base.message_id (s.messages ++ event (chunk_event block c) ∷ []) ≡ false) h
    → seen f.base.message_id (s.messages ++ event (chunk_event block c) ∷ []) ≡ false
    → (run
        (stream block sid ((env, c) ∷ h) ++ (env', event_received (text_event f) sid) ∷ [])
        (s, st)).0.messages
      ≡ s.messages ++ final_message f (joined_thinking c.thinking h) ∷ []
unfolding run reducer
run-reply sid block env env' c f h s st live small other new fresh last =
    let (shown, kept) = run-stream sid block env c h s st live small other new fresh in
    ap (λ (v : ChatState × Storage). v.0.messages)
      (run-append (stream block sid ((env, c) ∷ h)) ((env', event_received (text_event f) sid) ∷ [])
        (s, st))
    ∙ receive-final sid env' f s.messages c.base (joined_text c.body h)
        (joined_thinking c.thinking h) block _ _ (rw kept live) small
        (seen-delta f.base.message_id s.messages c.base _ c.body _ c.thinking block ∙ last) shown
