-- ===== src/Chat/Permission.antt =====
-- Permission requests: the prompt and its id, and the mark of an answer
-- (web/src/core/state/ChatContext.tsx).
use mathlib.Core.List.{reverse, reverse-append, reverse-reverse, append_assoc, reverse-cons}
use mobilecoding.Base.{
  ℕ, ◌≡◌, refl, ap, ◌∙◌, String, Bool, false, Option, none, some, List, [], ◌∷◌, ◌++◌, arith, All,
  All-append, if◌then◌else◌, or_null, is_some, Bool-cases, inl, inr,
}
use mobilecoding.Event.{
  AppEvent, Payload, permission_request, permission_ask, tool_result, turn_end, lifecycle,
  context_window, Resolution, allowed, denied, DisplayMessage,
}
use mobilecoding.Chat.State.{
  ChatState, Action, status_changed, runtime_loaded, session_started, active_session_detected,
  session_stopped, event_received, user_message_sent, permission_answered, perm_allow_tool,
  perm_clear_allowlist,
}
use mobilecoding.Chat.Storage.{Storage, Env}
use mobilecoding.Chat.Receive.{
  track_seq, track_permission, detect_permission, track_turn, track_context, track_agent,
  next_state, receive, is_ignored, show_denied, denied_prompt,
}
use mobilecoding.Chat.Reducer.{
  change_status, start_session, detect_session, stop_session, load_runtime, send_user_message,
  answer_permission, allow_tool, clear_allowlist, mark_first, mark_latest, resolve_message, reducer,
  initial_state, run,
}

-- An id to answer by belongs to the prompt on display.
abbrev pub Answers : Option AppEvent → Option String → Type 0
Answers prompt none = Unit {0}
Answers none (some id) = ⊥
Answers (some ev) (some id) = ev.message_id ≡ some id

abbrev pub IsPaired : ChatState → Type 0
IsPaired s = Answers s.permission_prompt s.permission_request_id

Answers-or_null :
    (ev : AppEvent) (o : Option String) → ev.message_id ≡ o → Answers (some ev) (or_null o)
Answers-or_null ev none e = tt
Answers-or_null ev (some String.[]) e = tt
Answers-or_null ev (some (String.◌∷◌ c s)) e = e

Answers-none : (prompt : Option AppEvent) (id : Option String) → Answers none id → Answers prompt id
Answers-none prompt none h = tt
Answers-none prompt (some id) h = elim h [ ]

track_permission-IsPaired :
    (ev : AppEvent) (p : Payload) (s : ChatState) → IsPaired s → IsPaired (track_permission ev p s)
unfolding track_permission
track_permission-IsPaired ev (permission_ask p) s h = Answers-or_null ev ev.message_id refl
track_permission-IsPaired ev (permission_request p) s h = tt
track_permission-IsPaired ev _ s h = h

show_denied-IsPaired :
    (sid : Option String) (ev : AppEvent) (s : ChatState) (d : Option (String × String))
    → Answers none s.permission_request_id
    → IsPaired s
    → IsPaired (show_denied sid ev s d)
show_denied-IsPaired sid ev s none h k = k
show_denied-IsPaired sid ev s (some r) h k =
    Answers-none (some (denied_prompt ev sid r)) s.permission_request_id h

detect_permission-IsPaired :
    (sid : Option String) (ev : AppEvent) (p : Payload) (s : ChatState)
    → IsPaired s
    → IsPaired (detect_permission sid ev p s)
unfolding detect_permission
detect_permission-IsPaired sid ev (tool_result name result) s h =
    elim (Bool-cases (is_some s.permission_prompt)) [
      | inl e ↦ rw e h
      | inr e ↦ rw e (show_denied-IsPaired sid ev s _ (no_prompt s.permission_prompt e h) h)
    ]
  where
    no_prompt :
        (q : Option AppEvent)
        → is_some q ≡ false
        → Answers q s.permission_request_id
        → Answers none s.permission_request_id
    no_prompt none e h = h
    no_prompt (some q) e h = cc
detect_permission-IsPaired sid ev _ s h = h

later-IsPaired :
    (env : Env) (p : Payload) (s : ChatState)
    → IsPaired s
    → IsPaired (track_agent env.now p (track_context p (track_turn p s)))
unfolding track_agent track_context track_turn
later-IsPaired env (turn_end t m) s h = h
later-IsPaired env (lifecycle m) s h = ground arith
later-IsPaired env (context_window i) s h = ground arith
later-IsPaired env _ s h = h

track_seq-IsPaired : (ev : AppEvent) (s : ChatState) → IsPaired s → IsPaired (track_seq ev s)
unfolding track_seq
track_seq-IsPaired ev s h = ground arith

receive-IsPaired :
    (env : Env) (ev : AppEvent) (sid : Option String) (s : ChatState) (st : Storage)
    → IsPaired s
    → IsPaired (receive env ev sid s st).0
unfolding receive next_state
receive-IsPaired env ev sid s st h = elim (Bool-cases (is_ignored s ev sid)) [
  | inl e ↦ rw e h
  | inr e ↦ rw e (
      later-IsPaired env ev.payload _ (
        detect_permission-IsPaired s.session_id ev ev.payload _
          (track_permission-IsPaired ev ev.payload _ (track_seq-IsPaired ev _ h))))
]

reducer-IsPaired :
    (env : Env) (a : Action) (s : ChatState) (st : Storage)
    → IsPaired s
    → IsPaired (reducer env a s st).0
unfolding reducer
reducer-IsPaired env (event_received ev sid) s st h = receive-IsPaired env ev sid s st h
reducer-IsPaired env (status_changed c) s st h = unfold change_status in ground arith
reducer-IsPaired env (active_session_detected id) s st h = unfold detect_session in ground arith
reducer-IsPaired env (session_started id) s st h = unfold start_session in tt
reducer-IsPaired env (user_message_sent txt id) s st h = unfold send_user_message in h
reducer-IsPaired env (permission_answered b) s st h = unfold answer_permission in tt
reducer-IsPaired env (perm_allow_tool t) s st h = unfold allow_tool in ground arith
reducer-IsPaired env perm_clear_allowlist s st h = unfold clear_allowlist in ground arith
reducer-IsPaired env session_stopped s st h = unfold stop_session in tt
reducer-IsPaired env (runtime_loaded r) s st h = unfold load_runtime in h
reducer-IsPaired env _ s st h = h

run-IsPaired :
    (h : List (Env × Action)) (s : ChatState) (st : Storage)
    → IsPaired s
    → IsPaired (run h (s, st)).0
unfolding run
run-IsPaired [] s st p = p
run-IsPaired ((env, a) ∷ h) s st p = run-IsPaired h _ _ (reducer-IsPaired env a s st p)

-- After any history from the start of a page, an id to answer by is there only with a prompt, and it
-- is that prompt's `messageId`: an answer never goes to another request than the one on display.
pub run-initial_state-IsPaired :
    (now : ℕ) (st : Storage) (h : List (Env × Action))
    → IsPaired (run h (initial_state now st, st)).0
unfolding initial_state
run-initial_state-IsPaired now st h = run-IsPaired h _ st tt

abbrev pub IsUnmarked : Resolution → DisplayMessage → Type 0
IsUnmarked r m = resolve_message r m ≡ none

mark_first_lem :
    (r : Resolution) (xs ys : List DisplayMessage) (m m' : DisplayMessage)
    → All (IsUnmarked r) xs
    → resolve_message r m ≡ some m'
    → mark_first r (xs ++ m ∷ ys) ≡ xs ++ m' ∷ ys
unfolding mark_first
mark_first_lem r [] ys m m' h e = rw (e, mark_first)
mark_first_lem r (x ∷ xs) ys m m' (p, h) e =
    rw (p, mark_first) (ap (◌∷◌ x) (mark_first_lem r xs ys m m' h e))

All-reverse {ℓ κ} : {A : Type ℓ} (P : A → Type κ) (xs : List A) → All P xs → All P (reverse xs)
All-reverse P [] h = tt
All-reverse P (x ∷ xs) (p, h) =
    rw (reverse-cons x xs) (All-append P (reverse xs) (x ∷ []) (All-reverse P xs h) (p, tt))

-- An answer marks the latest permission request and nothing else: the messages before and after it
-- stay as they are, and the prompt closes.
answer_permission_lem :
    (allow : Bool) (s : ChatState) (xs ys : List DisplayMessage) (m m' : DisplayMessage)
    → s.messages ≡ xs ++ m ∷ ys
    → All (IsUnmarked (if allow then allowed else denied)) ys
    → resolve_message (if allow then allowed else denied) m ≡ some m'
    → let t = answer_permission allow s in
      (t.messages ≡ xs ++ m' ∷ ys) × (t.permission_prompt ≡ none) × (t.permission_request_id ≡ none)
unfolding answer_permission mark_latest
answer_permission_lem allow s xs ys m m' e h k = (marked, refl, refl)
  where
    r : Resolution
    r = if allow then allowed else denied

    turned : reverse (xs ++ m ∷ ys) ≡ reverse ys ++ m ∷ reverse xs
    turned = simp (reverse-append, reverse-cons, append_assoc)

    back : reverse (reverse ys ++ m' ∷ reverse xs) ≡ xs ++ m' ∷ ys
    back = simp (reverse-append, reverse-cons, append_assoc, reverse-reverse)

    marked : mark_latest r s.messages ≡ xs ++ m' ∷ ys
    marked =
        ap (λ l. reverse (mark_first r (reverse l))) e
        ∙ ap (λ l. reverse (mark_first r l)) turned
        ∙ ap reverse (mark_first_lem r (reverse ys) (reverse xs) m m' (All-reverse _ ys h) k)
        ∙ back
