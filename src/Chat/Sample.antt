-- ===== src/Chat/Sample.antt =====
-- A chat to test with (web/src/core/state/ChatContext.tsx).
use mobilecoding.Base.{ℕ, String, true, false, none, some, List, [], ◌∷◌}
use mobilecoding.Event.{ConnectionStatus, BaseEvent, Payload, AppEvent}
use mobilecoding.Chat.State.{ChatState, Action, LaunchMode, ConnectionMode, AgentStatus}
use mobilecoding.Chat.Storage.{Env, Storage}

abbrev pub blank : Storage
blank = record { session_id = none; messages = none; last_seq = none; allowlist = none }

abbrev pub here : Env
here = record { now = 7; iso = "2024-01-01T00:00:00Z"; can_set = λ k. true; can_remove = true }

-- The state that a page starts in, with nothing stored.
abbrev pub fresh : ChatState
fresh = record {
  status = ConnectionStatus.idle;
  session_id = none;
  stopped_session_id = none;
  messages = [];
  last_seq = 0;
  permission_prompt = none;
  permission_request_id = none;
  last_error = none;
  runtime = record {
    default_command = "";
    default_args = [];
    launch_mode = some LaunchMode.managed;
    cwd = some "";
  };
  selected_command = "";
  connection_mode = ConnectionMode.direct;
  thinking = false;
  turn_active = false;
  stopping = false;
  agent_state = record { status = AgentStatus.idle; tool_name = none; since = 7 };
  context_window = none;
  pending_queue = [];
  perm_allowlist = [];
  perm_allow_all_turn = false;
}

abbrev pub base_of : ℕ → String → BaseEvent
base_of n id = record { session_id = "s"; time = "t"; seq = some n; message_id = some id }

abbrev pub request : AppEvent
request = record {
  base = base_of 3 "m3";
  payload = Payload.permission_ask (record {
    tool_name = "Edit";
    message = "Edit a.ts";
    tool_input = none;
    request_id = none;
    resolved = none;
  });
}

abbrev pub hello : AppEvent
hello = record { base = base_of 4 "m4"; payload = Payload.text "hello" none }

abbrev pub history : List (Env × Action)
history =
    (here, Action.session_started "s")
    ∷ (here, Action.user_message_sent "hi" "s")
    ∷ (here, Action.event_received request (some "s"))
    ∷ (here, Action.perm_allow_tool "Edit")
    ∷ (here, Action.event_received hello (some "s"))
    ∷ []
