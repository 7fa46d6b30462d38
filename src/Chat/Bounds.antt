-- ===== src/Chat/Bounds.antt =====
-- The number of messages in the chat (web/src/core/state/ChatContext.tsx).
use mathlib.Core.List.{reverse, reverse-cons}
use mobilecoding.Base.{
  ℕ, ◌-◌, ◌≤◌, ◌≡◌, refl, String, Option, List, [], ◌∷◌, arith, ap, length, length-append,
  length-drop, length-take_last,
}
use mobilecoding.Event.{AppEvent, Resolution, DisplayMessage}
use mobilecoding.Chat.State.{
  ChatState, Action, status_changed, runtime_loaded, session_started, active_session_detected,
  session_stopped, event_received, user_message_sent, permission_answered, perm_allow_tool,
  perm_clear_allowlist,
}
use mobilecoding.Chat.Storage.{Storage, Env, load_messages, max_stored_messages}
use mobilecoding.Chat.Merge.{max_messages, cap_messages, merge_event}
use mobilecoding.Chat.Receive.{receive, track_seq}
use mobilecoding.Chat.Frame.{next_state-Keeps}
use mobilecoding.Chat.Reducer.{
  mark_first, mark_latest, send_user_message, change_status, start_session, detect_session,
  stop_session, load_runtime, answer_permission, allow_tool, clear_allowlist, reducer,
  initial_state, run,
}

abbrev pub IsBounded : ChatState → Type 0
IsBounded s = length s.messages ≤ max_messages

pub cap_messages-le : (msgs : List DisplayMessage) → length (cap_messages msgs) ≤ max_messages
unfolding cap_messages
cap_messages-le msgs = ground (arith, length-drop (length msgs - max_messages) msgs)

length-reverse {ℓ} : {A : Type ℓ} (xs : List A) → length (reverse xs) ≡ length xs
length-reverse [] = refl
length-reverse (x ∷ xs) =
    omega
      (arith, ap length (reverse-cons x xs), length-append (reverse xs) (x ∷ []), length-reverse xs)

length-mark_first :
    (r : Resolution) (ms : List DisplayMessage) → length (mark_first r ms) ≡ length ms
unfolding mark_first
length-mark_first r [] = refl
length-mark_first r (m ∷ ms) = ground (arith, length-mark_first r ms)

length-mark_latest :
    (r : Resolution) (ms : List DisplayMessage) → length (mark_latest r ms) ≡ length ms
unfolding mark_latest
length-mark_latest r ms = omega (
  arith,
  length-reverse (mark_first r (reverse ms)),
  length-mark_first r (reverse ms),
  length-reverse ms,
)

receive-IsBounded :
    (env : Env) (ev : AppEvent) (sid : Option String) (s : ChatState) (st : Storage)
    → IsBounded s
    → IsBounded (receive env ev sid s st).0
unfolding receive track_seq
receive-IsBounded env ev sid s st h =
    ground (arith, next_state-Keeps env s ev sid, cap_messages-le (merge_event s.messages ev))

-- Each action keeps the bound.
reducer-IsBounded :
    (env : Env) (a : Action) (s : ChatState) (st : Storage)
    → IsBounded s
    → IsBounded (reducer env a s st).0
unfolding reducer
reducer-IsBounded env (event_received ev sid) s st h = receive-IsBounded env ev sid s st h
reducer-IsBounded env (status_changed c) s st h = unfold change_status in ground arith
reducer-IsBounded env (active_session_detected id) s st h = unfold detect_session in ground arith
reducer-IsBounded env (session_started id) s st h = unfold start_session in omega arith
reducer-IsBounded env (user_message_sent txt id) s st h =
    unfold send_user_message in cap_messages-le _
reducer-IsBounded env (permission_answered b) s st h =
    unfold answer_permission in omega (arith, length-mark_latest _ s.messages)
reducer-IsBounded env (perm_allow_tool t) s st h = unfold allow_tool in ground arith
reducer-IsBounded env perm_clear_allowlist s st h = unfold clear_allowlist in ground arith
reducer-IsBounded env session_stopped s st h = unfold stop_session in h
reducer-IsBounded env (runtime_loaded r) s st h = unfold load_runtime in h
reducer-IsBounded env _ s st h = h

pub length-load_messages : (st : Storage) → length (load_messages st) ≤ max_stored_messages
unfolding load_messages
length-load_messages st = rw length-take_last (omega arith)

initial_state-IsBounded : (now : ℕ) (st : Storage) → IsBounded (initial_state now st)
unfolding initial_state
initial_state-IsBounded now st = omega (arith, length-load_messages st)

run-IsBounded :
    (h : List (Env × Action)) (s : ChatState) (st : Storage)
    → IsBounded s
    → IsBounded (run h (s, st)).0
unfolding run
run-IsBounded [] s st b = b
run-IsBounded ((env, a) ∷ h) s st b = run-IsBounded h _ _ (reducer-IsBounded env a s st b)

-- Whatever the storage holds when the page loads and whatever actions follow, the state never
-- holds more than 500 messages.
pub run-initial_state-IsBounded :
    (now : ℕ) (st : Storage) (h : List (Env × Action))
    → IsBounded (run h (initial_state now st, st)).0
run-initial_state-IsBounded now st h = run-IsBounded h _ st (initial_state-IsBounded now st)
