-- ===== src/Chat/Provider/Stop.antt =====
-- `sendStop` and `abortTurn` (web/src/core/state/ChatContext.tsx), with the states that the reducer
-- goes through.
use mobilecoding.Base.{
  ◌≡◌, Bool-cases, inl, inr, arith, Bool, false, none, List, [], ◌∷◌, ◌&&◌, or_truthy,
  if◌then◌else◌,
}
use mobilecoding.Chat.State.{ChatState, Action, stopping, session_stopped, error}
use mobilecoding.Chat.Storage.{Storage, Env}
use mobilecoding.Chat.Reducer.{reducer, stop_session}
use mobilecoding.Chat.Io.{
  Effect, dispatches, stops_session, aborts_turn, relays_abort, Result, ok, thrown, Io, ◌>>◌, ◌>>=◌,
  bind_result, dispatch, call, emit,
}
use mobilecoding.Chat.Provider.{nothing, is_relay, relay_send, disconnect_relay}

-- The `try` block around `client.stopSession`.
unfoldable pub request_stop : Result (Unit {0}) → Io (Unit {0})
request_stop (ok u) = emit stops_session
request_stop (thrown msg) = emit stops_session >> dispatch (error msg)

unfoldable pub send_stop : ChatState → Bool → Result (Unit {0}) → Io (Unit {0})
send_stop s relaying answer =
    if s.stopping
    then nothing
    else if is_relay s.connection_mode
    then dispatch stopping >> disconnect_relay relaying
    else dispatch stopping >> (dispatch session_stopped >> request_stop answer)

unfoldable pub abort_turn : ChatState → Bool → Result (Unit {0}) → Io (Unit {0})
abort_turn s relaying answer =
    if is_relay s.connection_mode && relaying
    then dispatch Action.abort_turn >> relay_send relays_abort answer
    else dispatch Action.abort_turn >> call aborts_turn answer

-- The reducer run over what is dispatched.
unfoldable pub apply : Env → List Effect → ChatState × Storage → ChatState × Storage
apply env [] w = w
apply env (dispatches a ∷ es) (s, st) = apply env es (reducer env a s st)
apply env (_ ∷ es) w = apply env es w

-- What is done before the request to stop.
unfoldable pub before_request : List Effect → List Effect
before_request [] = []
before_request (stops_session ∷ es) = []
before_request (e ∷ es) = e ∷ before_request es

-- No session, no turn and no question is left, and the session that ended is remembered.
abbrev pub IsOver : ChatState → ChatState → Type 0
IsOver s t =
    (t.session_id ≡ none)
    × (t.stopped_session_id ≡ or_truthy s.session_id s.stopped_session_id)
    × (t.turn_active ≡ false)
    × (t.thinking ≡ false)
    × (t.permission_prompt ≡ none)
    × (t.permission_request_id ≡ none)
    × (t.stopping ≡ false)

-- A stop that is not under way yet returns and ends the session, whatever the server answers: no
-- session, turn or question is left and the id is remembered as the stopped one. All this, the flag
-- of a stop under way included, is so already when the request goes out.
pub send_stop-IsOver :
    (env : Env) (s : ChatState) (st : Storage) (relaying : Bool) (answer : Result (Unit {0}))
    → s.stopping ≡ false
    → let m = send_stop s relaying answer in
      (m.result ≡ ok tt)
      × IsOver s (apply env (before_request m.effects) (s, st)).0
      × IsOver s (apply env m.effects (s, st)).0
unfolding send_stop disconnect_relay request_stop ◌>>=◌ bind_result apply before_request reducer
    stop_session
send_stop-IsOver env s st relaying answer h = rw h (elim (Bool-cases (is_relay s.connection_mode)) [
  | inl e ↦ rw e (ground (arith))
  | inr e ↦ rw e (ground (arith))
])
