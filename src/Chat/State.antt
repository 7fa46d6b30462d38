-- ===== src/Chat/State.antt =====
-- `ChatState`, its parts and the actions of the reducer (web/src/core/state/ChatContext.tsx), and
-- `RuntimeConfig` (web/src/core/ws/types.ts).
use mobilecoding.Base.{ℕ, String, Bool, Option, List}
use mobilecoding.Json.{ℤ}
use mobilecoding.Event.{ConnectionStatus, AppEvent, DisplayMessage}

pub data LaunchMode : Type 0 where
  managed remote_control : LaunchMode

pub data ConnectionMode : Type 0 where
  direct relay : ConnectionMode

pub record RuntimeConfig : Type 0 where
  pub default_command : String
  pub default_args : List String
  pub launch_mode : Option LaunchMode
  pub cwd : Option String

pub data AgentStatus : Type 0 where
  idle thinking reading_files editing_files running_command : AgentStatus

pub record AgentStateInfo : Type 0 where
  pub status : AgentStatus
  pub tool_name : Option String
  pub since : ℕ

pub record ContextUsage : Type 0 where
  pub used : ℤ
  pub max : ℤ

pub record ChatState : Type 0 where
  pub status : ConnectionStatus
  pub session_id : Option String
  pub stopped_session_id : Option String
  pub messages : List DisplayMessage
  pub last_seq : ℕ
  pub permission_prompt : Option AppEvent
  pub permission_request_id : Option String
  pub last_error : Option String
  pub runtime : RuntimeConfig
  pub selected_command : String
  pub connection_mode : ConnectionMode
  pub thinking : Bool
  pub turn_active : Bool
  pub stopping : Bool
  pub agent_state : AgentStateInfo
  pub context_window : Option ContextUsage
  pub pending_queue : List String
  pub perm_allowlist : List String
  pub perm_allow_all_turn : Bool

pub data Action : Type 0 where
  status_changed : ConnectionStatus → Action
  runtime_loaded : RuntimeConfig → Action
  session_started : String → Action
  active_session_detected : String → Action
  session_stopped : Action
  event_received : AppEvent → Option String → Action
  user_message_sent : String → String → Action
  permission_answered : Bool → Action
  abort_turn : Action
  stopping : Action
  error : String → Action
  set_selected_command : String → Action
  set_connection_mode : ConnectionMode → Action
  queue_input : String → Action
  clear_pending : Action
  perm_allow_tool : String → Action
  perm_allow_all_turn : Action
  perm_clear_allowlist : Action
