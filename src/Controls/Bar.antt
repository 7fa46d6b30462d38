-- ===== src/Controls/Bar.antt =====
-- The session bar: web/src/features/terminal/SessionBar.tsx. Its state and its handlers; what is drawn
-- and the timer's clean-up on unmounting are left out.
use mobilecoding.Base.{
  ℕ, ◌+◌, String, Bool, true, false, not, ◌&&◌, ◌||◌, Option, none, some, List, [], ◌∷◌, ◌++◌, ◌==◌,
  any, eqb, is_empty, or_text, if◌then◌else◌,
}
use mobilecoding.Chat.State.{RuntimeConfig}
use mobilecoding.Chat.Io.{StartParams}
use mobilecoding.Controls.{args_with_model, model_from_args, settings_from_args}

-- `{ value, label }`
pub record ModelOption : Type 0 where
  pub value : String
  pub label : String

pub record ClaudeSetting : Type 0 where
  pub name : String
  pub path : String

pub record SessionBar : Type 0 where
  pub command : String
  pub model : Option String
  pub loading : Bool
  pub error : Option String
  pub confirm_stop : Bool
  pub confirm_timeout : Option ℕ
  pub timeouts_made : ℕ
  pub models : List ModelOption
  pub claude_settings : List ClaudeSetting
  pub selected_setting : String

unfoldable pub new_session_bar : SessionBar
new_session_bar = record {
  command = "claude";
  model = none;
  loading = false;
  error = none;
  confirm_stop = false;
  confirm_timeout = none;
  timeouts_made = 0;
  models = record { value = ""; label = "默认模型" } ∷ [];
  claude_settings = [];
  selected_setting = "";
}

-- The effect that follows the selected or the default command.
unfoldable pub follow_command : String → RuntimeConfig → SessionBar → SessionBar
follow_command selected r b =
    let next = or_text selected r.default_command in
    if is_empty next then b else record b { command = next }

-- `model ?? modelFromArgs(…)`
unfoldable pub selected_model : RuntimeConfig → SessionBar → String
selected_model r b = elim b.model [ none ↦ model_from_args r.default_args | some m ↦ m ]

-- `fetchModels`, with the models if the server answers with them.
unfoldable pub fetch_models : Option (List ModelOption) → SessionBar → SessionBar
fetch_models none b = b
fetch_models (some ms) b = record b { models = ms }

-- The settings with the active ones, which are put first where they are missing.
unfoldable pub with_active : String → List ClaudeSetting → List ClaudeSetting
with_active active data_read =
    if any (λ s. s.path == active) data_read
    then data_read
    else record { name = "项目级"; path = active } ∷ data_read

abbrev pub first_path : List ClaudeSetting → String → String
first_path [] old = old
first_path (s ∷ ss) old = s.path

-- `fetchClaudeSettings`, with what the server answers; an error code gives the empty list.
unfoldable pub fetch_claude_settings : RuntimeConfig → List ClaudeSetting → SessionBar → SessionBar
fetch_claude_settings r settings b =
    let active = settings_from_args r.default_args in
    if is_empty active
    then record b {
      claude_settings = settings;
      selected_setting = first_path settings b.selected_setting;
    }
    else record b { claude_settings = with_active active settings; selected_setting = active }

-- The arguments that `handleStart` starts with.
unfoldable pub start_args : RuntimeConfig → SessionBar → List String
start_args r b =
    let args = args_with_model [] (selected_model r b) in
    if (b.command == "claude") && not (is_empty b.selected_setting)
    then args ++ "--settings" ∷ b.selected_setting ∷ []
    else if b.command == r.default_command
    then args ++ r.default_args
    else args

-- The end of an asynchronous handler, with the message of its error if it failed.
abbrev pub finish : Option String → SessionBar → SessionBar
finish e b = record b { loading = false; error = elim e [ none ↦ b.error | some msg ↦ some msg ] }

unfoldable pub handle_start : RuntimeConfig → SessionBar → SessionBar × StartParams
handle_start r b = (
  record b { loading = true; error = none },
  record {
    command = b.command;
    args = some (start_args r b);
    cwd = none;
    restart = false;
    resume_session_id = none;
  },
)

-- `handleApplyRemoteModel`, with whether the user confirms; nothing is sent while something is under
-- way.
unfoldable pub handle_apply_remote_model :
    Bool → Bool → RuntimeConfig → SessionBar → SessionBar × Option StartParams
handle_apply_remote_model confirms stopping r b =
    if b.loading || stopping
    then (b, none)
    else if confirms
    then (
      record b { loading = true; error = none },
      some (record {
        command = or_text r.default_command b.command;
        args = some (args_with_model r.default_args (selected_model r b));
        cwd = r.cwd;
        restart = true;
        resume_session_id = none;
      }),
    )
    else (b, none)

-- `handleStop`, with whether `sendStop` is called: the first click asks, for five seconds.
unfoldable pub handle_stop : Bool → SessionBar → SessionBar × Bool
handle_stop stopping b =
    if stopping
    then (b, false)
    else if b.confirm_stop
    then (record b { confirm_stop = false; confirm_timeout = none; error = none }, true)
    else (
      record b {
        confirm_stop = true;
        confirm_timeout = some b.timeouts_made;
        timeouts_made = b.timeouts_made + 1;
      },
      false,
    )

-- The timer runs out, if it has not been cleared.
unfoldable pub confirm_expires : ℕ → SessionBar → SessionBar
confirm_expires h b = elim b.confirm_timeout [
  | none ↦ b
  | some t ↦ if eqb t h then record b { confirm_stop = false } else b
]

unfoldable pub handle_command_change : String → SessionBar → SessionBar
handle_command_change next b =
    if next == "claude"
    then record b { command = next }
    else record b { command = next; model = some "" }
