-- ===== src/Chat/Provider/Input.antt =====
-- `sendInput` (web/src/core/state/ChatContext.tsx), and what becomes of an input.
use mobilecoding.Base.{
  String, Bool, true, false, not, ◌&&◌, ◌||◌, Option, none, some, List, [], ◌∷◌, is_empty, text_of,
  or_truthy, if◌then◌else◌, includes,
}
use mobilecoding.Chat.State.{ChatState, Action, RuntimeConfig, LaunchMode, managed, remote_control}
use mobilecoding.Chat.Io.{
  Effect, dispatches, sends_input, relays_text, Result, ok, thrown, Io, ◌>>=◌, ◌>>◌, give, throw,
  dispatch, call, before,
}
use mobilecoding.Chat.Provider.{
  Reply, is_connected, is_relay, nothing, refresh_active_session_id, refresh_runtime_config,
  launch_mode_of, relay_send,
}
use mobilecoding.Controls.{
  Checked, require_runtime_ready, session_id_for_direct_send, should_refresh_remote_control_session,
  should_append_user_message_after_send,
}

-- What the calls that an input needs answer, and how its send ends.
pub record Replies : Type 0 where
  pub version : Reply (Option RuntimeConfig)
  pub session : Reply (Option String)
  pub can_set : Bool
  pub sent : Result (Unit {0})

-- A check that throws is reported, after what else its `catch` block dispatches.
abbrev pub checked_or : List Effect → Checked → Io String
checked_or reports (Checked.ok s) = give s
checked_or reports (Checked.failed e) = before reports (dispatch (Action.error e) >> throw e)

abbrev pub report_stop : LaunchMode → List Effect
report_stop remote_control = dispatches Action.session_stopped ∷ []
report_stop managed = []

-- The errors of a session that is gone.
unfoldable pub is_gone : String → Bool
is_gone msg =
    includes "no active runner" msg
    || includes "engine_failure" msg
    || includes "context canceled" msg

abbrev pub report_gone : String → Io (Unit {0})
report_gone msg =
    if is_gone msg
    then dispatch Action.session_stopped >> dispatch (Action.error "会话已断开，请重新启动")
    else nothing

-- The `try` block around `client.sendInput`, with what follows the send in it.
unfoldable pub deliver : String → Result (Unit {0}) → Io (Unit {0}) → Io (Unit {0})
deliver txt (ok u) later = call (sends_input txt) (ok u) >> later
deliver txt (thrown msg) later = do call (sends_input txt) (ok tt); report_gone msg; throw msg

unfoldable pub show_and_deliver : Bool → String → String → Result (Unit {0}) → Io (Unit {0})
show_and_deliver true txt sid sent = deliver txt sent (dispatch (Action.user_message_sent txt sid))
show_and_deliver false txt sid sent =
    dispatch (Action.user_message_sent txt sid) >> deliver txt sent nothing

-- `sendInput` where the client is connected directly, or has no relay.
unfoldable pub send_directly : String → ChatState → RuntimeConfig → Replies → Io (Unit {0})
send_directly txt s current a = do
  runtime ←
      if is_empty current.default_command
      then refresh_runtime_config current a.version
      else give current
  command ← checked_or [] (require_runtime_ready (some runtime.default_command))
  refreshed ←
      if should_refresh_remote_control_session s.connection_mode (launch_mode_of runtime)
      then refresh_active_session_id true a.session a.can_set
      else give none
  sid ←
      checked_or (report_stop (launch_mode_of runtime))
        (session_id_for_direct_send (launch_mode_of runtime) s.session_id refreshed)
  show_and_deliver
      (should_append_user_message_after_send s.connection_mode (launch_mode_of runtime)) txt sid
      a.sent

abbrev pub relay_session_of : Option String → String
relay_session_of id = text_of (or_truthy id (some "relay_session"))

unfoldable pub send_input : String → ChatState → Bool → RuntimeConfig → Replies → Io (Unit {0})
send_input txt s relaying current a =
    if not (is_relay s.connection_mode) && not (is_connected s.status)
    then dispatch (Action.queue_input txt)
    else if is_relay s.connection_mode && relaying
    then (do
      dispatch (Action.user_message_sent txt (relay_session_of s.session_id))
      relay_send (relays_text txt) a.sent)
    else send_directly txt s current a
