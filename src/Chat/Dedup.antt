-- ===== src/Chat/Dedup.antt =====
-- Deduplication by `messageId`: what a replay of events does to the chat
-- (web/src/core/state/ChatContext.tsx).
use mobilecoding.Base.{
  ℕ, ◌-◌, ◌<◌, ◌≡◌, refl, ap, ◌∙◌, inl, inr, String, Bool, true, false, Option, some, List, [], ◌∷◌,
  ◌++◌, arith, length, length-append, init, drop, drop-snoc, any, any-snoc, last?, ltb, truthy,
  Bool-cases, Option-cases, eq_refl, concat,
}
use mobilecoding.Event.{
  AppEvent, BaseEvent, Payload, text, text_delta, permission_request, permission_ask,
  DisplayMessage, event, is_permission, has_id,
}
use mobilecoding.Chat.State.{ChatState}
use mobilecoding.Chat.Storage.{Storage, Env}
use mobilecoding.Chat.Merge.{
  max_messages, is_duplicate, cap_messages, merge_text, join_thinking, merge_by, merge_event,
  delta?,
}
use mobilecoding.Chat.Receive.{is_for_stopped, is_ignored, receive, next_state, track_seq}
use mobilecoding.Chat.Reducer.{reducer, run}
use mobilecoding.Chat.Stream.{Chunk, chunk_event, seen, delta_message, stream-grows}
use mobilecoding.Chat.Frame.{next_state-Keeps}

abbrev pub is_delta : Payload → Bool
is_delta (text_delta t th b) = true
is_delta _ = false

-- The event that shows: what the list ends in after an event was merged.
record EndsWith (ev : AppEvent) (msgs : List DisplayMessage) : Type 0 where
  front : List DisplayMessage
  shown : AppEvent
  ends : msgs ≡ front ++ event shown ∷ []
  same_id : shown.message_id ≡ ev.message_id

-- An event that is neither a delta nor a permission request keeps its id on display.
merge_by-EndsWith :
    (p : Payload) (msgs : List DisplayMessage) (ev : AppEvent)
    → is_delta p ≡ false
    → is_permission p ≡ false
    → EndsWith ev (merge_by p msgs ev)
unfolding merge_by merge_text
merge_by-EndsWith (text t th) msgs ev h k = elim (Option-cases (delta? (last? msgs))) [
  | inl e ↦ rw (e, merge_text) (record { front = msgs; shown = ev; ends = refl; same_id = refl })
  | inr (d, e) ↦
      rw (e, merge_text)
        (record {
          front = init msgs;
          shown = record ev { payload = _ };
          ends = refl;
          same_id = refl;
        })
]
merge_by-EndsWith (text_delta t th b) msgs ev h k = cc
merge_by-EndsWith (permission_request p) msgs ev h k = cc
merge_by-EndsWith (permission_ask p) msgs ev h k = cc
merge_by-EndsWith _ msgs ev h k = record { front = msgs; shown = ev; ends = refl; same_id = refl }

-- The cut takes from the front.
cap-EndsWith :
    (ev : AppEvent) (msgs : List DisplayMessage)
    → EndsWith ev msgs
    → EndsWith ev (cap_messages msgs)
unfolding cap_messages
cap-EndsWith ev msgs w = elim (Bool-cases (ltb max_messages (length msgs))) [
  | inl long ↦ rw long (record {
    front = drop (length msgs - max_messages) w.front;
    shown = w.shown;
    ends =
        ap (drop (length msgs - max_messages)) w.ends
        ∙ drop-snoc (length msgs - max_messages) w.front (event w.shown)
            (omega (arith, ap length w.ends, length-append w.front (event w.shown ∷ [])));
    same_id = w.same_id;
  })
  | inr short ↦ rw short w
]

EndsWith-is_duplicate :
    (ev : AppEvent) (msgs : List DisplayMessage) (id : String)
    → EndsWith ev msgs
    → ev.message_id ≡ some id
    → truthy (some id) ≡ true
    → is_permission ev.payload ≡ false
    → is_duplicate msgs ev ≡ true
unfolding is_duplicate
EndsWith-is_duplicate ev msgs id w e t p =
    let at : has_id id (event w.shown) ≡ true = rw (w.same_id ∙ e) (eq_refl id) in
    let found : any (has_id id) msgs ≡ true = rw w.ends (any-snoc (has_id id) w.front _ at) in
    ground (arith, found)

receive_duplicate :
    (env : Env) (ev : AppEvent) (sid : Option String) (s : ChatState) (st : Storage)
    → is_duplicate s.messages ev ≡ true
    → receive env ev sid s st ≡ (s, st)
unfolding receive is_ignored
receive_duplicate env ev sid s st h = elim (Bool-cases (is_for_stopped sid s.stopped_session_id)) [
  | inl stopped ↦ rw stopped
  | inr live ↦ rw (live, h)
]

next-is_duplicate :
    (env : Env) (ev : AppEvent) (sid : Option String) (s : ChatState) (id : String)
    → ev.message_id ≡ some id
    → truthy (some id) ≡ true
    → is_delta ev.payload ≡ false
    → is_permission ev.payload ≡ false
    → is_duplicate (next_state env s ev sid).messages ev ≡ true
unfolding track_seq merge_event
next-is_duplicate env ev sid s id e t d p =
    let shown = cap-EndsWith ev _ (merge_by-EndsWith ev.payload s.messages ev d p) in
    let kept : (next_state env s ev sid).messages ≡ cap_messages (merge_event s.messages ev) =
      ground (arith, next_state-Keeps env s ev sid) in
    rw kept (EndsWith-is_duplicate ev _ id shown e t p)

receive-is_duplicate :
    (env : Env) (ev : AppEvent) (sid : Option String) (s : ChatState) (st : Storage) (id : String)
    → ev.message_id ≡ some id
    → truthy (some id) ≡ true
    → is_delta ev.payload ≡ false
    → is_permission ev.payload ≡ false
    → is_for_stopped sid s.stopped_session_id ≡ false
    → is_duplicate (receive env ev sid s st).0.messages ev ≡ true
unfolding receive is_ignored
receive-is_duplicate env ev sid s st id e t d p live =
    elim (Bool-cases (is_duplicate s.messages ev)) [
      | inl old ↦ rw (live, old) old
      | inr new ↦ rw (live, new) (next-is_duplicate env ev sid s id e t d p)
    ]

-- An event with an id that is neither a delta nor a permission request: received again, for whatever
-- session it comes then, it changes neither the state nor the storage. The first time it must not
-- have come for the stopped session.
pub receive_twice :
    (env env' : Env) (ev : AppEvent) (sid sid' : Option String) (s : ChatState) (st : Storage)
    (id : String)
    → ev.message_id ≡ some id
    → truthy (some id) ≡ true
    → is_delta ev.payload ≡ false
    → is_permission ev.payload ≡ false
    → is_for_stopped sid s.stopped_session_id ≡ false
    → let w = receive env ev sid s st in receive env' ev sid' w.0 w.1 ≡ w
receive_twice env env' ev sid sid' s st id e t d p live =
    receive_duplicate env' ev sid' _ _ (receive-is_duplicate env ev sid s st id e t d p live)

-- A delta that joined the message before it leaves no id: received again it is joined again, so its
-- text shows twice. This is so for each delta with an id that is not on display, where the list has
-- room and ends in a delta of the same block.
replayed_delta :
    (env env' : Env) (sid : Option String) (block : ℕ) (c : Chunk) (msgs : List DisplayMessage)
    (b : BaseEvent) (t : String) (th : Option String) (s : ChatState) (st : Storage)
    → is_for_stopped sid s.stopped_session_id ≡ false
    → length msgs < max_messages
    → seen c.base.message_id s.messages ≡ false
    → s.messages ≡ msgs ++ delta_message b t th block ∷ []
    → let w = receive env (chunk_event block c) sid s st in
      (receive env' (chunk_event block c) sid w.0 w.1).0.messages
      ≡ msgs
        ++ delta_message b
            (concat (concat t c.body) c.body)
            (join_thinking (join_thinking th c.thinking) c.thinking)
            block
          ∷ []
unfolding run reducer
replayed_delta env env' sid block c msgs b t th s st live small new e =
    let fresh = rw e at new in
    (stream-grows sid block msgs b ((env, c) ∷ (env', c) ∷ []) s st t th live small
      (fresh, (fresh, tt)) e).0
