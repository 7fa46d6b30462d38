-- ===== src/Controls/Started.antt =====
-- What a session is started with from the session bar (web/src/features/terminal/SessionBar.tsx).
use mobilecoding.Base.{
  ◌≡◌, refl, ap, String, true, false, none, [], ◌∷◌, ◌++◌, ◌==◌, is_empty, strip_prefix,
}
use mobilecoding.Chat.State.{RuntimeConfig}
use mobilecoding.Controls.{args_with_model, without_model, model_from_args, settings_from_args}
use mobilecoding.Controls.Bar.{SessionBar, selected_model, start_args}

-- A model that has not the form of a settings argument.
abbrev pub IsModel : String → Type 0
IsModel m = ((m == "--settings") ≡ false) × (strip_prefix "--settings=" m ≡ none)

read_back :
    (m s : String)
    → IsModel m
    → let args = args_with_model [] m ++ "--settings" ∷ s ∷ [] in
      (model_from_args args ≡ m) × (settings_from_args args ≡ s)
unfolding args_with_model without_model model_from_args settings_from_args strip_prefix
read_back String.[] s h = (refl, refl)
read_back (String.◌∷◌ c m) s (e, p) = (refl, rw (e, p, settings_from_args) refl)

-- Starting Claude with a settings file that is selected: the model and the settings path that are read
-- from its arguments are the selected ones, where the model has not the form of a settings argument.
start_args-read :
    (r : RuntimeConfig) (b : SessionBar)
    → b.command ≡ "claude"
    → is_empty b.selected_setting ≡ false
    → IsModel (selected_model r b)
    → (model_from_args (start_args r b) ≡ selected_model r b)
      × (settings_from_args (start_args r b) ≡ b.selected_setting)
unfolding start_args
start_args-read r b c s m =
    let claude : (b.command == "claude") ≡ true = ap (λ x. x == "claude") c in
    rw (claude, s) (read_back (selected_model r b) b.selected_setting m)
