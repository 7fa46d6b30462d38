-- ===== src/Controls.antt =====
-- The controls of a session: web/src/features/terminal/sessionControls.ts.
pub mod Arguments
pub mod Ready
pub mod Bar
pub mod Started
mod Tests
use mobilecoding.Base.{
  ◌≡◌, refl, String, Bool, true, false, not, ◌&&◌, Option, none, some, List, [], ◌∷◌, ◌++◌,
  if◌then◌else◌, ◌==◌, is_empty, strip_prefix, truthy,
}
use mobilecoding.Chat.State.{LaunchMode, managed, remote_control, ConnectionMode, direct, relay}

-- The argument after the first `--model`.
unfoldable pub model_from_args : List String → String
model_from_args [] = ""
model_from_args (a ∷ []) = ""
model_from_args (a ∷ b ∷ r) = if a == "--model" then b else model_from_args (b ∷ r)

-- `--settings X` and `--settings=X`.
unfoldable pub settings_from_args : List String → String
unfolding strip_prefix
settings_from_args [] = ""
settings_from_args (a ∷ []) = elim (strip_prefix "--settings=" a) [ some p ↦ p | none ↦ "" ]
settings_from_args (a ∷ b ∷ r) =
    let rest = settings_from_args (b ∷ r) in
    if a == "--settings"
    then b
    else elim (strip_prefix "--settings=" a) [ some p ↦ p | none ↦ rest ]

-- The loop of `argsWithModel`; the flag is set where the next argument is skipped.
unfoldable pub without_model : Bool → List String → List String
without_model skip [] = []
without_model true (a ∷ r) = without_model false r
without_model false (a ∷ r) =
    let rest = without_model (a == "--model") r in if a == "--model" then rest else a ∷ rest

unfoldable pub args_with_model : List String → String → List String
args_with_model args model =
    let next = without_model false args in
    if is_empty model then next else next ++ "--model" ∷ model ∷ []

-- What a check returns, or the message of the error it throws.
pub data Checked : Type 0 where
  ok : String → Checked
  failed : String → Checked

unfoldable pub require_active_session_id : Option String → Checked
require_active_session_id none = failed "桌面 CLI 未就绪，请确认 mc claude 会话仍在运行"
require_active_session_id (some id) =
    if is_empty id then failed "桌面 CLI 未就绪，请确认 mc claude 会话仍在运行" else ok id

abbrev pub is_direct : ConnectionMode → Bool
is_direct direct = true
is_direct relay = false

abbrev pub is_remote_control : LaunchMode → Bool
is_remote_control remote_control = true
is_remote_control managed = false

unfoldable pub should_refresh_remote_control_session : ConnectionMode → LaunchMode → Bool
should_refresh_remote_control_session c l = is_direct c && is_remote_control l

unfoldable pub should_append_user_message_after_send : ConnectionMode → LaunchMode → Bool
should_append_user_message_after_send c l = is_direct c && is_remote_control l

unfoldable pub is_remote_cli_not_ready : ConnectionMode → Option LaunchMode → Option String → Bool
is_remote_cli_not_ready c none id = false
is_remote_cli_not_ready c (some l) id = is_direct c && is_remote_control l && not (truthy id)

-- What is read of the runtime is its default command.
unfoldable pub require_runtime_ready : Option String → Checked
require_runtime_ready none = failed "运行时未就绪，请稍后重试"
require_runtime_ready (some command) =
    if is_empty command then failed "运行时未就绪，请稍后重试" else ok command

unfoldable pub session_id_for_direct_send : LaunchMode → Option String → Option String → Checked
session_id_for_direct_send remote_control current refreshed = require_active_session_id refreshed
session_id_for_direct_send managed none refreshed = failed "请先启动会话"
session_id_for_direct_send managed (some id) refreshed =
    if is_empty id then failed "请先启动会话" else ok id

args_tests :
    (args_with_model ("--model" ∷ "opus" ∷ "-v" ∷ []) "haiku" ≡ "-v" ∷ "--model" ∷ "haiku" ∷ [])
    × (args_with_model ("-v" ∷ "--model" ∷ []) "" ≡ "-v" ∷ [])
    × (model_from_args ("-v" ∷ "--model" ∷ "opus" ∷ []) ≡ "opus")
    × (settings_from_args ("-v" ∷ "--settings=a.json" ∷ []) ≡ "a.json")
    × (settings_from_args ("--settings" ∷ "b.json" ∷ []) ≡ "b.json")
unfolding args_with_model without_model model_from_args settings_from_args strip_prefix
args_tests = (refl, refl, refl, refl, refl)
