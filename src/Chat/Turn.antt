-- ===== src/Chat/Turn.antt =====
-- Turns and sessions: what ends a turn, and what a stopped session may still change
-- (web/src/core/state/ChatContext.tsx).
use mobilecoding.Base.{
  ◌≡◌, refl, ap, ◌∙◌, String, true, false, Option, none, some, List, [], ◌∷◌, arith, if◌then◌else◌,
  truthy, or_truthy, or_null, eq_refl, Bool-cases, inl, inr,
}
use mobilecoding.Event.{
  AppEvent, Payload, permission_request, permission_ask, tool_result, turn_end, lifecycle,
  context_window,
}
use mobilecoding.Chat.State.{ChatState, Action, session_stopped, session_started, event_received}
use mobilecoding.Chat.Storage.{Storage, Env}
use mobilecoding.Chat.Receive.{
  is_for_stopped, is_ignored, adopt_session, track_seq, track_permission, detect_permission,
  track_turn, track_context, track_agent, next_state, receive,
}
use mobilecoding.Chat.Frame.{next_state-Keeps}
use mobilecoding.Chat.Reducer.{start_session, stop_session, reducer, run}

-- Events that a session sends, as actions.
abbrev pub events_of : String → List (Env × AppEvent) → List (Env × Action)
events_of id [] = []
events_of id ((env, ev) ∷ h) = (env, event_received ev (some id)) ∷ events_of id h

receive-stopped :
    (env : Env) (ev : AppEvent) (sid : Option String) (s : ChatState) (st : Storage)
    → is_for_stopped sid s.stopped_session_id ≡ true
    → receive env ev sid s st ≡ (s, st)
unfolding receive is_ignored
receive-stopped env ev sid s st e = rw e

events-ignored :
    (id : String) (h : List (Env × AppEvent)) (s : ChatState) (st : Storage)
    → is_for_stopped (some id) s.stopped_session_id ≡ true
    → run (events_of id h) (s, st) ≡ (s, st)
unfolding run reducer
events-ignored id [] s st e = refl
events-ignored id ((env, ev) ∷ h) s st e =
    ap (run (events_of id h)) (receive-stopped env ev (some id) s st e) ∙ events-ignored id h s st e

-- Once a session is stopped, no run of its late events changes the state or the storage.
pub stop-events_of :
    (env : Env) (id : String) (h : List (Env × AppEvent)) (s : ChatState) (st : Storage)
    → s.session_id ≡ some id
    → truthy (some id) ≡ true
    → let w = reducer env session_stopped s st in run (events_of id h) w ≡ w
unfolding reducer stop_session is_for_stopped
stop-events_of env id h s st e t = events-ignored id h _ _ (rw (e, t) (eq_refl id))

abbrev IsQuiet : ChatState → Type 0
IsQuiet s = (s.stopping ≡ true) × (s.turn_active ≡ false)

track_permission-IsQuiet :
    (ev : AppEvent) (p : Payload) (s : ChatState) → IsQuiet s → IsQuiet (track_permission ev p s)
unfolding track_permission
track_permission-IsQuiet ev (permission_ask p) s h = ground arith
track_permission-IsQuiet ev (permission_request p) s h = ground arith
track_permission-IsQuiet ev _ s h = h

detect_permission-IsQuiet :
    (sid : Option String) (ev : AppEvent) (p : Payload) (s : ChatState)
    → IsQuiet s
    → IsQuiet (detect_permission sid ev p s)
unfolding detect_permission
detect_permission-IsQuiet sid ev (tool_result name result) s h = ground arith
detect_permission-IsQuiet sid ev _ s h = h

later-IsQuiet :
    (env : Env) (p : Payload) (s : ChatState)
    → IsQuiet s
    → IsQuiet (track_agent env.now p (track_context p (track_turn p s)))
unfolding track_agent track_context track_turn
later-IsQuiet env (turn_end t m) s h = (h.0, refl)
later-IsQuiet env (lifecycle m) s h = ground arith
later-IsQuiet env (context_window i) s h = ground arith
later-IsQuiet env _ s h = h

track_seq-IsQuiet : (ev : AppEvent) (s : ChatState) → IsQuiet s → IsQuiet (track_seq ev s)
unfolding track_seq
track_seq-IsQuiet ev s h = ground arith

next_state-IsQuiet :
    (env : Env) (s : ChatState) (ev : AppEvent) (sid : Option String)
    → IsQuiet s
    → IsQuiet (next_state env s ev sid)
unfolding next_state
next_state-IsQuiet env s ev sid h = later-IsQuiet env ev.payload _ (
    detect_permission-IsQuiet s.session_id ev ev.payload _ (
      track_permission-IsQuiet ev ev.payload _
        (track_seq-IsQuiet ev (record s { messages = _; session_id = _ }) h)))

next_state-session :
    (env : Env) (s : ChatState) (ev : AppEvent) (sid : Option String)
    → (next_state env s ev sid).session_id ≡ adopt_session s sid
unfolding track_seq
next_state-session env s ev sid = ground (arith, next_state-Keeps env s ev sid)

-- While a stop is under way an event neither ends that nor starts a turn, and brings in no session
-- (an empty id counts as none).
receive-stopping :
    (env : Env) (ev : AppEvent) (sid : Option String) (s : ChatState) (st : Storage)
    → s.stopping ≡ true
    → s.turn_active ≡ false
    → let t = (receive env ev sid s st).0 in
      (t.stopping ≡ true) × (t.turn_active ≡ false) × (or_null t.session_id ≡ or_null s.session_id)
unfolding receive adopt_session
receive-stopping env ev sid s st h k = elim (Bool-cases (is_ignored s ev sid)) [
  | inl e ↦ rw e (h, k, refl)
  | inr e ↦
      rw e (quiet.0, quiet.1, ap or_null (next_state-session env s ev sid) ∙ same s.session_id)
]
  where
    quiet : IsQuiet (next_state env s ev sid)
    quiet = next_state-IsQuiet env s ev sid (h, k)

    same :
        (o : Option String)
        → or_null (or_truthy o (if s.stopping then none else or_null sid)) ≡ or_null o
    same none = rw h refl
    same (some String.[]) = rw h refl
    same (some (String.◌∷◌ c t)) = refl

-- "Allow all this turn" outlives the turn that a stop ends: it holds in the session started next.
allow_all-outlives-stop :
    (env env' : Env) (id : String) (s : ChatState) (st : Storage)
    → s.perm_allow_all_turn ≡ true
    → let t = (run ((env, session_stopped) ∷ (env', session_started id) ∷ []) (s, st)).0 in
      (t.turn_active ≡ false) × (t.session_id ≡ some id) × (t.perm_allow_all_turn ≡ true)
unfolding run reducer stop_session start_session
allow_all-outlives-stop env env' id s st h = (refl, refl, h)

-- The fallback for a `lifecycle` event that reports a turn's end has no effect: it resets the turn
-- only where there is nothing to reset.
track_turn-lifecycle : (m : String) (s : ChatState) → track_turn (lifecycle m) s ≡ s
unfolding track_turn
track_turn-lifecycle m s = ground arith
