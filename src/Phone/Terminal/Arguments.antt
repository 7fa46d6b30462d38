-- ===== src/Phone/Terminal/Arguments.antt =====
-- The arguments that the phone starts the program with (mobile/src/screens/TerminalScreen.tsx), and
-- those of the web client (web/src/features/terminal/sessionControls.ts).
use mobilecoding.Base.{
  ◌≡◌, refl, ap, String, Bool, true, false, none, List, [], ◌∷◌, ◌==◌, All, text_of, strip_prefix,
  Bool-cases, inl, inr, arith,
}
use mobilecoding.Phone.Terminal.{Screen, starts, kept_args, apply_model_switch, settings_argument}
use mobilecoding.Controls.{without_model, args_with_model, settings_from_args}

kept_args-without_model : (args : List String) → kept_args args ≡ without_model false args
unfolding kept_args without_model
kept_args-without_model [] = refl
kept_args-without_model (a ∷ []) = ground arith
kept_args-without_model (a ∷ b ∷ r) = elim (Bool-cases (a == "--model")) [
  | inl e ↦ rw (e, kept_args) (kept_args-without_model r)
  | inr e ↦ rw (e, kept_args) (ap (◌∷◌ a) (kept_args-without_model (b ∷ r)))
]

-- A switch of the model on the phone asks to restart with exactly the arguments that the web client
-- makes of the same arguments and model.
apply_model_switch-args_with_model :
    (succeeds : Bool) (s : Screen)
    → s.has_client ≡ true
    → (apply_model_switch succeeds s).1
      ≡ starts (args_with_model s.runtime_args s.selected_model) true ∷ []
unfolding apply_model_switch args_with_model
apply_model_switch-args_with_model succeeds s h =
    rw (h, kept_args-without_model s.runtime_args) refl

-- An argument that is no `--settings=X`.
abbrev pub IsSpaced : String → Type 0
IsSpaced a = strip_prefix "--settings=" a ≡ none

-- Where no argument has the form `--settings=X`, the phone and the web client read the same settings
-- path from the arguments, and both read none from the same ones.
settings_argument-settings_from_args :
    (args : List String)
    → All IsSpaced args
    → text_of (settings_argument args) ≡ settings_from_args args
unfolding settings_argument settings_from_args
settings_argument-settings_from_args [] h = refl
settings_argument-settings_from_args (a ∷ []) (p, h) = rw (p, settings_from_args) refl
settings_argument-settings_from_args (a ∷ b ∷ r) (p, h) = elim (Bool-cases (a == "--settings")) [
  | inl e ↦ rw (e, settings_from_args) refl
  | inr e ↦ rw (e, p, settings_from_args) (settings_argument-settings_from_args (b ∷ r) h)
]
