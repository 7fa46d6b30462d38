-- ===== src/Status/Agrees.antt =====
-- That the status bar and the input bar agree on whether a turn is under way
-- (web/src/features/terminal/AgentStatusBar.tsx, web/src/features/terminal/InputBar.tsx).
use mobilecoding.Base.{
  ℕ, not, ◌&&◌, ◌||◌, ◌≡◌, refl, String, Bool, true, false, Option, List, [], ◌∷◌, arith, if_intro,
}
use mobilecoding.Event.{
  AppEvent, Payload, permission_request, permission_ask, tool_result, turn_end, lifecycle,
  context_window,
}
use mobilecoding.Chat.State.{ChatState, Action, AgentStatus}
use mobilecoding.Chat.Storage.{Storage, Env}
use mobilecoding.Chat.Receive.{
  is_ignored, track_seq, track_permission, detect_permission, track_turn, track_context,
  track_agent, next_state, receive, is_idle,
}
use mobilecoding.Chat.Reducer.{
  start_session, stop_session, detect_session, change_status, load_runtime, send_user_message,
  answer_permission, allow_tool, clear_allowlist, reducer, initial_state, run,
}
use mobilecoding.Input.{InputBar}
use mobilecoding.Input.Keys.{is_active, is_disabled, on_key_down, button, is_abort, enter}
use mobilecoding.Status.{is_thinking, shows_active}

-- The user waits for a first answer only within a turn.
abbrev IsWaiting : ChatState → Type 0
IsWaiting s = s.thinking ≡ true → s.turn_active ≡ true

track_permission-IsWaiting :
    (ev : AppEvent) (p : Payload) (s : ChatState)
    → IsWaiting s
    → IsWaiting (track_permission ev p s)
unfolding track_permission
track_permission-IsWaiting ev (permission_ask p) s h = ground (arith, h)
track_permission-IsWaiting ev (permission_request p) s h = ground (arith, h)
track_permission-IsWaiting ev _ s h = h

detect_permission-IsWaiting :
    (sid : Option String) (ev : AppEvent) (p : Payload) (s : ChatState)
    → IsWaiting s
    → IsWaiting (detect_permission sid ev p s)
unfolding detect_permission
detect_permission-IsWaiting sid ev (tool_result name result) s h = ground (arith, h)
detect_permission-IsWaiting sid ev _ s h = h

later-IsWaiting :
    (env : Env) (p : Payload) (s : ChatState)
    → IsWaiting s
    → IsWaiting (track_agent env.now p (track_context p (track_turn p s)))
unfolding track_agent track_context track_turn
later-IsWaiting env (turn_end t m) s h = λ e. cc
later-IsWaiting env (lifecycle m) s h = ground (arith, h)
later-IsWaiting env (context_window i) s h = ground (arith, h)
later-IsWaiting env _ s h = h

track_seq-IsWaiting : (ev : AppEvent) (s : ChatState) → IsWaiting s → IsWaiting (track_seq ev s)
unfolding track_seq
track_seq-IsWaiting ev s h = ground (arith, h)

next_state-IsWaiting :
    (env : Env) (s : ChatState) (ev : AppEvent) (sid : Option String)
    → IsWaiting s
    → IsWaiting (next_state env s ev sid)
unfolding next_state
next_state-IsWaiting env s ev sid h = later-IsWaiting env ev.payload _ (
    detect_permission-IsWaiting s.session_id ev ev.payload _ (
      track_permission-IsWaiting ev ev.payload _
        (track_seq-IsWaiting ev (record s { messages = _; session_id = _ }) h)))

reducer-IsWaiting :
    (env : Env) (a : Action) (s : ChatState) (st : Storage)
    → IsWaiting s
    → IsWaiting (reducer env a s st).0
unfolding reducer receive change_status start_session detect_session stop_session load_runtime
    send_user_message answer_permission allow_tool clear_allowlist
reducer-IsWaiting env (Action.event_received ev sid) s st h =
    if_intro (λ (w : ChatState × Storage). IsWaiting w.0) (is_ignored s ev sid) _ _ (λ e. h)
      (λ e. next_state-IsWaiting env s ev sid h)
reducer-IsWaiting env _ s st h = ground (arith, h)

run-IsWaiting :
    (history : List (Env × Action)) (s : ChatState) (st : Storage)
    → IsWaiting s
    → IsWaiting (run history (s, st)).0
unfolding run
run-IsWaiting [] s st h = h
run-IsWaiting ((env, a) ∷ r) s st h =
    let w = reducer env a s st in run-IsWaiting r w.0 w.1 (reducer-IsWaiting env a s st h)

-- By the state of the agent, whether the turn is under way and whether the user waits.
active_lem :
    (a : AgentStatus) (turn waits : Bool)
    → (waits ≡ true → turn ≡ true)
    → (is_thinking a || ((turn && not (is_thinking a)) || not (is_idle a)))
      ≡ (turn || (waits || not (is_idle a)))
active_lem a true waits h = ground arith
active_lem a false false h = ground arith
active_lem a false true h = cc (h refl)

run-is_active :
    (history : List (Env × Action)) (now : ℕ) (st : Storage)
    → let s = (run history (initial_state now st, st)).0 in shows_active s ≡ is_active s
unfolding shows_active is_active initial_state
run-is_active history now st =
    let s = (run history (initial_state now st, st)).0 in
    active_lem s.agent_state.status s.turn_active s.thinking
      (run-IsWaiting history (initial_state now st) st (λ e. cc))

-- What the key and the button do, by whether the status bar shows the assistant as active.
offers_lem :
    (s : ChatState) (b : InputBar)
    → shows_active s ≡ is_active s
    → (is_abort (on_key_down s b.text (enter false)) ≡ shows_active s)
      × (is_abort (button s b) ≡ (not (is_disabled s) && (not s.stopping && shows_active s)))
unfolding on_key_down button
offers_lem s b e = rw e (ground arith)

-- After any history from the start of a page, the handler of the enter key stops the assistant exactly
-- if the status bar shows it as active, and the button of the input bar does so exactly if the status
-- bar shows it as active, the assistant of the remote side is ready and no stop is under way.
pub run-shows_active :
    (history : List (Env × Action)) (now : ℕ) (st : Storage) (b : InputBar)
    → let s = (run history (initial_state now st, st)).0 in
      (is_abort (on_key_down s b.text (enter false)) ≡ shows_active s)
      × (is_abort (button s b) ≡ (not (is_disabled s) && (not s.stopping && shows_active s)))
run-shows_active history now st b =
    offers_lem (run history (initial_state now st, st)).0 b (run-is_active history now st)
