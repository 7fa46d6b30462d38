-- ===== src/Cards/Use/Pictures.antt =====
-- The picture of a tool's call (web/src/features/terminal/cards/ToolUseCard.tsx).
use text.Mathlib.TextLemmas.{nil-append, cons-append, append_assoc}
use mobilecoding.Base.{
  ◌≡◌, ◌≢◌, refl, ap, sym, subst, ◌∙◌, String, true, false, List, ◌∷◌, concat, includes, has_prefix,
  strip_prefix, strip_prefix_sound, strip_prefix-concat, is_some, if_intro, [], ◌++◌, All, take,
  drop, Bool-cases, Option-cases, inl, inr, arith,
}
use mobilecoding.Cards.Use.{Icon, pencil, note, wrench, tool_icons, icon_in, tool_icon}

prefix-includes : (q s : String) → has_prefix q s ≡ true → includes q s ≡ true
unfolding includes
prefix-includes q String.[] e = e
prefix-includes q (String.◌∷◌ c s) e = rw e refl

-- A text is part of what starts with it.
includes_self : (q r : String) → includes q (concat q r) ≡ true
includes_self q r = prefix-includes q (concat q r) (ap is_some (strip_prefix-concat q r))

includes-concat : (q p x : String) → includes q x ≡ true → includes q (concat p x) ≡ true
unfolding includes
includes-concat q String.[] x e = rw (nil-append x) e
includes-concat q (String.◌∷◌ c p) x e =
    rw (cons-append c p x) (ground (arith, includes-concat q p x e))

prefix_lem : (p q s : String) → has_prefix (concat p q) s ≡ true → includes q s ≡ true
prefix_lem p q s e = elim (Option-cases (strip_prefix (concat p q) s)) [
  | inl n ↦ absurd (ground (arith, e, n))
  | inr (r, k) ↦
      let f : s ≡ concat (concat p q) r = strip_prefix_sound (concat p q) s r k in
      let g : s ≡ concat p (concat q r) = f ∙ append_assoc p q r in
      subst (λ t. includes q t ≡ true) (sym g)
        (includes-concat q p (concat q r) (includes_self q r))
]

includes-part : (p q s : String) → includes (concat p q) s ≡ true → includes q s ≡ true
unfolding includes
includes-part p q String.[] e = prefix_lem p q "" e
includes-part p q (String.◌∷◌ c s) e =
    elim (Bool-cases (has_prefix (concat p q) (String.◌∷◌ c s))) [
      | inl k ↦ prefix_lem p q (String.◌∷◌ c s) k
      | inr k ↦ ground (arith, k, e, includes-part p q s)
    ]

module _ (lower : String → String) where
  -- Entries with other pictures lead to another one, if what follows them does.
  icon_in-append :
      (xs ys : List (String × Icon)) (name : String)
      → All (λ (e : String × Icon). e.1 ≢ note) xs
      → icon_in lower ys name ≢ note
      → icon_in lower (xs ++ ys) name ≢ note
  unfolding icon_in
  icon_in-append [] ys name a h = h
  icon_in-append ((k, i) ∷ xs) ys name (n, a) h =
      if_intro (λ (j : Icon). j ≢ note) (includes (lower k) (lower name)) _ _ (λ e. n)
        (λ e. icon_in-append xs ys name a h)

  -- The entry of `TodoWrite`, for a name without the word of before.
  last_lem :
      (name : String)
      → includes "write" (lower name) ≡ false
      → lower "TodoWrite" ≡ "todowrite"
      → icon_in lower (drop 11 tool_icons) name ≢ note
  unfolding icon_in
  last_lem name e t =
      if_intro (λ (j : Icon). j ≢ note) (includes (lower "TodoWrite") (lower name)) note wrench
        (λ k. absurd (ground (arith, e, includes-part "todo" "write" (lower name) (rw t at k))))
        (λ k. cc)

  -- The entries from `Write` on.
  write_lem :
      (name : String)
      → lower "Write" ≡ "write"
      → lower "TodoWrite" ≡ "todowrite"
      → icon_in lower (drop 5 tool_icons) name ≢ note
  unfolding icon_in
  write_lem name w t =
      if_intro (λ (j : Icon). j ≢ note) (includes (lower "Write") (lower name)) pencil _ (λ k. cc)
        (λ k.
          icon_in-append (take 5 (drop 6 tool_icons)) (drop 11 tool_icons) name
            (cc, (cc, (cc, (cc, (cc, tt))))) (last_lem name (rw w at k) t))

  -- The picture that the table has for `TodoWrite` is never shown: a name with that word has `write` in
  -- it, which stands earlier. Needed is what the lower case of the two words is.
  pub tool_icon-never :
      (name : String)
      → lower "Write" ≡ "write"
      → lower "TodoWrite" ≡ "todowrite"
      → tool_icon lower name ≢ note
  unfolding tool_icon
  tool_icon-never name w t =
      icon_in-append (take 5 tool_icons) (drop 5 tool_icons) name (cc, (cc, (cc, (cc, (cc, tt)))))
        (write_lem name w t)
