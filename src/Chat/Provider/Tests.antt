-- ===== src/Chat/Provider/Tests.antt =====
-- The chat's provider at concrete inputs (web/src/core/state/ChatContext.tsx).
use mobilecoding.Base.{
  ◌≡◌, refl, String, true, false, Option, none, some, List, [], ◌∷◌, ◌==◌, if◌then◌else◌, arith,
  All, includes,
}
use mobilecoding.Base.Sort.{Reorder, sort_by, insert_by}
use mobilecoding.Event.{ConnectionStatus, AppEvent}
use mobilecoding.Chat.State.{ChatState, Action, RuntimeConfig, LaunchMode}
use mobilecoding.Chat.Storage.{Env}
use mobilecoding.Chat.Reducer.{run, initial_state}
use mobilecoding.Chat.Io.{Effect, dispatches, sends_input, ok, thrown, bind_result, ◌>>=◌}
use mobilecoding.Chat.Provider.{
  body, refresh_runtime_config, refresh_active_session_id, detect_active,
}
use mobilecoding.Chat.Provider.Input.{
  Replies, send_input, send_directly, show_and_deliver, deliver, is_gone,
}
use mobilecoding.Chat.Provider.Account.{IsAccounted, send_input-IsAccounted}
use mobilecoding.Chat.Provider.Stop.{send_stop, apply, before_request, IsOver, send_stop-IsOver}
use mobilecoding.Chat.Provider.Answer.{auto_answer, IsCautious, auto_answer-IsCautious}
use mobilecoding.Chat.Provider.CatchUp.{
  Missed, fetch_missed, replay, apply-fetch_missed-Reorder, catch_up,
}
use mobilecoding.Controls.{
  require_runtime_ready, session_id_for_direct_send, require_active_session_id,
  should_append_user_message_after_send, should_refresh_remote_control_session,
}
use mobilecoding.Chat.Sample.{blank, here, fresh, request, hello}

abbrev remote_runtime : RuntimeConfig
remote_runtime = record {
  default_command = "claude";
  default_args = [];
  launch_mode = some LaunchMode.remote_control;
  cwd = none;
}

-- A page on a session "s", connected.
abbrev online : ChatState
online = record fresh { status = ConnectionStatus.connected; session_id = some "s"; last_seq = 1 }

-- The server knows the session "s2", and the program behind it has ended.
abbrev gone : Replies
gone = record {
  version = body (some remote_runtime);
  session = body (some "s2");
  can_set = true;
  sent = thrown "no active runner";
}

send_input_tests :
    ((send_input "hi" fresh false remote_runtime gone).effects
      ≡ dispatches (Action.queue_input "hi") ∷ [])
    × ((send_input "hi" online false fresh.runtime gone).effects
        ≡ Effect.sets_runtime remote_runtime
          ∷ dispatches (Action.runtime_loaded remote_runtime)
          ∷ Effect.stores_session_id "s2"
          ∷ dispatches (Action.active_session_detected "s2")
          ∷ sends_input "hi"
          ∷ dispatches Action.session_stopped
          ∷ dispatches (Action.error "会话已断开，请重新启动")
          ∷ [])
unfolding send_input send_directly show_and_deliver deliver is_gone includes ◌>>=◌ bind_result
    refresh_runtime_config refresh_active_session_id detect_active require_runtime_ready
    session_id_for_direct_send require_active_session_id should_append_user_message_after_send
    should_refresh_remote_control_session
send_input_tests = (refl, refl)

send_input-IsAccounted_example : IsAccounted "hi" (send_input "hi" online false fresh.runtime gone)
send_input-IsAccounted_example = send_input-IsAccounted "hi" online false fresh.runtime gone

send_stop-IsOver_example :
    let m = send_stop online false (thrown "engine_failure") in
    (m.result ≡ ok tt)
    × IsOver online (apply here (before_request m.effects) (online, blank)).0
    × IsOver online (apply here m.effects (online, blank)).0
send_stop-IsOver_example = send_stop-IsOver here online blank false (thrown "engine_failure") refl

abbrev asked : List (Env × Action)
asked =
    (here, Action.session_started "s")
    ∷ (here, Action.perm_allow_tool "Edit")
    ∷ (here, Action.event_received request (some "s"))
    ∷ []

auto_answer-IsCautious_example :
    let s = (run asked (initial_state 7 blank, blank)).0 in
    All (IsCautious s) (auto_answer s false (ok tt)).effects
auto_answer-IsCautious_example = auto_answer-IsCautious 7 blank asked false (ok tt)

-- A reader for two texts.
abbrev read : String → Option AppEvent
read t = if t == "hello" then some hello else if t == "request" then some request else none

abbrev later : Missed
later = record { seq = 4; content = "hello" }

abbrev earlier : Missed
earlier = record { seq = 3; content = "request" }

fetch_missed_test :
    fetch_missed read online (body (some (later ∷ earlier ∷ [])))
    ≡ dispatches (Action.event_received request (some "s"))
      ∷ dispatches (Action.event_received hello (some "s"))
      ∷ []
unfolding fetch_missed catch_up replay sort_by insert_by
fetch_missed_test = refl

apply-fetch_missed-Reorder_example :
    apply here (fetch_missed read online (body (some (later ∷ earlier ∷ [])))) (online, blank)
    ≡ apply here (fetch_missed read online (body (some (earlier ∷ later ∷ [])))) (online, blank)
apply-fetch_missed-Reorder_example =
    apply-fetch_missed-Reorder read here online blank (later ∷ earlier ∷ []) (earlier ∷ later ∷ [])
      Reorder.exchange (((λ e. absurd (omega (arith, e))), tt), (tt, tt))
