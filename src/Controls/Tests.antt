-- ===== src/Controls/Tests.antt =====
-- The theorems on the controls at concrete inputs (web/src/features/terminal/sessionControls.ts).
use mobilecoding.Base.{◌≡◌, refl, String, true, false, none, List, [], ◌∷◌, strip_prefix}
use mobilecoding.Chat.State.{RuntimeConfig}
use mobilecoding.Controls.{model_from_args, args_with_model, settings_from_args, without_model}
use mobilecoding.Controls.Bar.{
  SessionBar, new_session_bar, selected_model, start_args, handle_stop, confirm_expires,
  fetch_claude_settings, with_active,
}

abbrev args : List String
args = "-v" ∷ "--model" ∷ "opus" ∷ "--resume" ∷ []

abbrev runtime : RuntimeConfig
runtime = record {
  default_command = "codex";
  default_args = "--model" ∷ "opus" ∷ [];
  launch_mode = none;
  cwd = none;
}

-- The bar with a settings file selected.
abbrev chosen : SessionBar
chosen = record new_session_bar { selected_setting = "a.json" }

-- The default command with a model among its arguments is started with that model twice.
start_args_test :
    start_args runtime (record chosen { command = "codex" })
    ≡ "--model" ∷ "opus" ∷ "--model" ∷ "opus" ∷ []
unfolding new_session_bar selected_model model_from_args start_args args_with_model without_model
start_args_test = refl

-- Stopping takes two clicks.
handle_stop_test :
    ((handle_stop false chosen).1 ≡ false)
    × ((handle_stop false (handle_stop false chosen).0).1 ≡ true)
    × ((handle_stop false (confirm_expires 0 (handle_stop false chosen).0)).1 ≡ false)
unfolding new_session_bar handle_stop confirm_expires
handle_stop_test = (refl, refl, refl)

fetch_claude_settings_test :
    (fetch_claude_settings
      (record runtime { default_args = "--settings" ∷ "p.json" ∷ [] })
      (record { name = "global"; path = "g.json" } ∷ [])
      chosen).claude_settings
    ≡ record { name = "项目级"; path = "p.json" } ∷ record { name = "global"; path = "g.json" } ∷ []
unfolding fetch_claude_settings with_active settings_from_args strip_prefix new_session_bar
fetch_claude_settings_test = refl
