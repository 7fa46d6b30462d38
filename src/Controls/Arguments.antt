-- ===== src/Controls/Arguments.antt =====
-- The model among the arguments of the assistant's command
-- (web/src/features/terminal/sessionControls.ts).
use mobilecoding.Base.{
  ◌≡◌, refl, sym, ap, ◌∙◌, String, Bool, true, false, List, [], ◌∷◌, ◌++◌, if◌then◌else◌, ◌==◌, All,
  is_empty, Bool-cases, inl, inr, strip_prefix, strip_prefix-concat, concat, none, some, eq_iff,
}
use mobilecoding.Controls.{model_from_args, args_with_model, without_model, settings_from_args}

abbrev pub Plain : List String → Type 0
Plain = All (λ a. (a == "--model") ≡ false)

without_model-Plain : (skip : Bool) (args : List String) → Plain (without_model skip args)
unfolding without_model
without_model-Plain skip [] = tt
without_model-Plain true (a ∷ r) = without_model-Plain false r
without_model-Plain false (a ∷ r) = elim (Bool-cases (a == "--model")) [
  | inl e ↦ rw e (without_model-Plain true r)
  | inr e ↦ rw e (e, without_model-Plain false r)
]

Plain-without_model : (args : List String) → Plain args → without_model false args ≡ args
unfolding without_model
Plain-without_model [] h = refl
Plain-without_model (a ∷ r) (e, h) = rw e (ap (λ l. a ∷ l) (Plain-without_model r h))

Plain-without_model-append :
    (args : List String) (m : String)
    → Plain args
    → without_model false (args ++ "--model" ∷ m ∷ []) ≡ args
unfolding without_model
Plain-without_model-append [] m h = refl
Plain-without_model-append (a ∷ r) m (e, h) =
    rw e (ap (λ l. a ∷ l) (Plain-without_model-append r m h))

Plain-model_from_args : (args : List String) → Plain args → model_from_args args ≡ ""
unfolding model_from_args
Plain-model_from_args [] h = refl
Plain-model_from_args (a ∷ []) h = refl
Plain-model_from_args (a ∷ b ∷ r) (e, h) = rw e (Plain-model_from_args (b ∷ r) h)

model_from_args-append :
    (args : List String) (m : String)
    → Plain args
    → model_from_args (args ++ "--model" ∷ m ∷ []) ≡ m
unfolding model_from_args
model_from_args-append [] m h = refl
model_from_args-append (a ∷ []) m (e, h) = rw e refl
model_from_args-append (a ∷ b ∷ r) m (e, h) = rw e (model_from_args-append (b ∷ r) m h)

-- A model that is put into any arguments is the one read from them; with the empty text none is.
model_from_args-args_with_model :
    (args : List String) (m : String) → model_from_args (args_with_model args m) ≡ m
unfolding args_with_model
model_from_args-args_with_model args String.[] =
    Plain-model_from_args _ (without_model-Plain false args)
model_from_args-args_with_model args (String.◌∷◌ c m) =
    model_from_args-append _ (String.◌∷◌ c m) (without_model-Plain false args)

-- Of two models put in one after the other only the second one stays, and the other arguments are
-- those that the second one alone would have kept.
args_with_model-args_with_model :
    (args : List String) (m n : String)
    → args_with_model (args_with_model args m) n ≡ args_with_model args n
unfolding args_with_model
args_with_model-args_with_model args m n =
    ap (λ next. if is_empty n then next else next ++ "--model" ∷ n ∷ []) (kept m)
  where
    kept : (m : String) → without_model false (args_with_model args m) ≡ without_model false args
    kept String.[] = Plain-without_model _ (without_model-Plain false args)
    kept (String.◌∷◌ c m) =
        Plain-without_model-append _ (String.◌∷◌ c m) (without_model-Plain false args)

-- Arguments that are not a form of `--settings`.
abbrev pub NoSettings : List String → Type 0
NoSettings = All (λ a. ((a == "--settings") ≡ false) × (strip_prefix "--settings=" a ≡ none))

settings_skip :
    (a : String) (r : List String)
    → ((a == "--settings") ≡ false) × (strip_prefix "--settings=" a ≡ none)
    → settings_from_args (a ∷ r) ≡ settings_from_args r
unfolding settings_from_args
settings_skip a [] (e, f) = rw (f, settings_from_args) refl
settings_skip a (b ∷ r) (e, f) = rw (e, f) refl

settings_next :
    (after : List String) (path : String) → settings_from_args ("--settings" ∷ path ∷ after) ≡ path
unfolding settings_from_args
settings_next after path = refl

joined-other : (path : String) → (concat "--settings=" path == "--settings") ≡ false
unfolding strip_prefix
joined-other path = elim (Bool-cases (concat "--settings=" path == "--settings")) [
  | inl e ↦
      let k : none ≡ some path =
        ap (strip_prefix "--settings=") (sym ((eq_iff _ _).0 e))
        ∙ strip_prefix-concat "--settings=" path in
      cc k
  | inr e ↦ e
]

settings_joined :
    (after : List String) (path : String)
    → settings_from_args (concat "--settings=" path ∷ after) ≡ path
unfolding settings_from_args
settings_joined [] path = rw (strip_prefix-concat "--settings=" path, settings_from_args) refl
settings_joined (b ∷ r) path = rw (joined-other path, strip_prefix-concat "--settings=" path) refl

-- Behind arguments that are no form of it, a settings path is found in both of its forms, whatever
-- follows it.
settings_from_args_lem :
    (before after : List String) (path : String)
    → NoSettings before
    → (settings_from_args (before ++ "--settings" ∷ path ∷ after) ≡ path)
      × (settings_from_args (before ++ concat "--settings=" path ∷ after) ≡ path)
settings_from_args_lem [] after path h = (settings_next after path, settings_joined after path)
settings_from_args_lem (a ∷ before) after path (h, hs) =
    let (l, r) = settings_from_args_lem before after path hs in
    (settings_skip a _ h ∙ l, settings_skip a _ h ∙ r)
