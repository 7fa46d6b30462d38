-- ===== src/Event.antt =====
-- Events of a session and the messages on display: web/src/core/ws/types.ts.
-- The `type` tag of an interface is its constructor here; a field marked `?` is an `Option`, and a
-- mandatory text that the wire leaves out is the empty text.
use mobilecoding.Base.{ℕ, String, Bool, true, false, Option, none, some, ◌==◌}
use mobilecoding.Json.{Json}

pub data ConnectionStatus : Type 0 where
  idle connecting connected reconnecting closed : ConnectionStatus

pub record BaseEvent : Type 0 where
  pub session_id : String
  pub time : String
  pub seq : Option ℕ
  pub message_id : Option String

pub data Resolution : Type 0 where
  allowed denied : Resolution

-- The fields that `permission_request` and `permission_ask` share; `resolved` is the mark that the
-- reducer adds when the user has answered.
pub record Permission : Type 0 where
  pub tool_name : String
  pub message : String
  pub tool_input : Option Json
  pub request_id : Option String
  pub resolved : Option Resolution

pub data Payload : Type 0 where
  text : String → Option String → Payload
  text_delta : String → Option String → ℕ → Payload
  lifecycle : String → Payload
  tool_use : String → Json → Payload
  tool_result : String → Json → Payload
  permission_request : Permission → Payload
  permission_ask : Permission → Payload
  plan_mode : Json → Payload
  context_window : Json → Payload
  session : Json → Payload
  thinking_start thinking_end : Payload
  tool_start : String → String → Json → Payload
  tool_output : String → String → Payload
  tool_end : String → String → Payload
  bash_start : String → String → String → Payload
  bash_output : String → String → Payload
  bash_end : String → String → Payload
  agent_state : String → Payload
  turn_end : String → String → Payload

pub record AppEvent : Type 0 where
  pub base : BaseEvent
  pub open base use *
  pub payload : Payload

pub record UserMessage : Type 0 where
  pub session_id : String
  pub time : String
  pub text : String

pub data DisplayMessage : Type 0 where
  event : AppEvent → DisplayMessage
  user : UserMessage → DisplayMessage

abbrev pub is_permission : Payload → Bool
is_permission (permission_request p) = true
is_permission (permission_ask p) = true
is_permission _ = false

-- The payload of a permission event.
abbrev pub permission? : Payload → Option Permission
permission? (permission_request p) = some p
permission? (permission_ask p) = some p
permission? _ = none

abbrev pub is_permission_message : DisplayMessage → Bool
is_permission_message (event e) = is_permission e.payload
is_permission_message (user u) = false

-- `m.messageId === id`, for an id that is there.
abbrev pub has_id : String → DisplayMessage → Bool
has_id id (user u) = false
has_id id (event e) = elim e.message_id [ none ↦ false | some i ↦ i == id ]
