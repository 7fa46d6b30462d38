-- ===== src/Status.antt =====
-- The status bar of the agent: web/src/features/terminal/AgentStatusBar.tsx.
pub mod Agrees
mod Tests
use mobilecoding.Base.{
  String, Bool, true, false, not, ◌&&◌, ◌||◌, Option, none, some, ◌==◌, concat, is_empty, or_text,
  truthy, text_of, if◌then◌else◌,
}
use mobilecoding.Event.{ConnectionStatus, connected}
use mobilecoding.Chat.State.{
  ChatState, AgentStatus, idle, thinking, reading_files, editing_files, running_command,
}
use mobilecoding.Chat.Receive.{is_idle}

-- The avatar and the name of a command-line assistant.
pub record CliInfo : Type 0 where
  pub avatar : String
  pub name : String

unfoldable pub cli_info : String → CliInfo
cli_info command =
    if command == "claude"
    then record { avatar = "C"; name = "Claude Code" }
    else if command == "codex"
    then record { avatar = "X"; name = "Codex" }
    else if command == "opencode"
    then record { avatar = "O"; name = "OpenCode" }
    else if command == "qwen"
    then record { avatar = "Q"; name = "Qwen Code" }
    else if command == "aichat"
    then record { avatar = "A"; name = "Aichat" }
    else record { avatar = "◆"; name = "AI Agent" }

unfoldable pub command_of : ChatState → String
command_of s = or_text s.selected_command (or_text s.runtime.default_command "claude")

abbrev pub is_thinking : AgentStatus → Bool
is_thinking thinking = true
is_thinking _ = false

unfoldable pub is_streaming : ChatState → Bool
is_streaming s = s.turn_active && not (is_thinking s.agent_state.status)

-- `active`
unfoldable pub shows_active : ChatState → Bool
unfolding is_streaming
shows_active s =
    is_thinking s.agent_state.status || (is_streaming s || not (is_idle s.agent_state.status))

pub data StateClass : Type 0 where
  thinking_class streaming_class idle_class : StateClass

unfoldable pub state_class : ChatState → StateClass
unfolding shows_active
state_class s =
    if is_thinking s.agent_state.status
    then thinking_class
    else if shows_active s
    then streaming_class
    else idle_class

-- `STATE_LABELS`
abbrev pub state_labels : AgentStatus → String
state_labels idle = "idle"
state_labels thinking = "Thinking…"
state_labels reading_files = "读取文件"
state_labels editing_files = "编辑文件"
state_labels running_command = "执行命令"

unfoldable pub state_label : ChatState → String
unfolding is_streaming
state_label s =
    if is_thinking s.agent_state.status
    then "Thinking…"
    else if not (is_idle s.agent_state.status)
    then (if truthy s.agent_state.tool_name
        then concat (state_labels s.agent_state.status)
            (concat " · " (text_of s.agent_state.tool_name))
        else state_labels s.agent_state.status)
    else if is_streaming s
    then "输出中…"
    else "空闲"
