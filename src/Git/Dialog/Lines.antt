-- ===== src/Git/Dialog/Lines.antt =====
-- The colours of a diff's lines in the dialog (mobile/src/components/terminal/GitDiffModal.tsx).
use mathlib.Core.List.{append-nil}
use text.Mathlib.TextLemmas.{cons-append}
use Prim.Native.Char.{code, Char}
use mobilecoding.Base.{
  ◌≡◌, ◌⊎◌, concat, refl, sym, ℕ, if_intro, String, true, false, not, ◌&&◌, ◌||◌, List, [], ◌∷◌,
  ◌++◌, has_prefix, is_empty, if◌then◌else◌, strip_prefix, All, arith, eqb, Bool-cases, inl, inr,
}
use mobilecoding.Diff.{
  LineType, add, del, context, hunk, meta, DiffLine, Reading, split_lines, read_line, is_meta,
  read_hunk_line,
}

pub data LineStyle : Type 0 where
  added removed marks heads plain : LineStyle

unfoldable pub diff_lines : String → List String
diff_lines content = if is_empty content then [] else split_lines content

unfoldable pub line_style : String → LineStyle
unfolding strip_prefix
line_style item =
    if has_prefix "+" item && not (has_prefix "+++" item)
    then added
    else if has_prefix "-" item && not (has_prefix "---" item)
    then removed
    else if has_prefix "@@" item
    then marks
    else if has_prefix "diff " item
        || has_prefix "index " item
        || has_prefix "---" item
        || has_prefix "+++" item
    then heads
    else plain

-- The colour that the browser's type of a line goes with.
abbrev pub style_of : LineType → LineStyle
style_of add = added
style_of del = removed
style_of context = plain
style_of hunk = marks
style_of meta = heads

module _ (c : Char) (s : String) where
  plus_style :
      code c ≡ b'+'
      → has_prefix "+++" (String.◌∷◌ c s) ≡ false
      → line_style (String.◌∷◌ c s) ≡ added
  unfolding line_style
  plus_style e p = ground arith

  minus_style :
      code c ≡ b'-'
      → has_prefix "---" (String.◌∷◌ c s) ≡ false
      → line_style (String.◌∷◌ c s) ≡ removed
  unfolding line_style strip_prefix
  minus_style e p = ground arith

  space_style : code c ≡ b' ' → line_style (String.◌∷◌ c s) ≡ plain
  unfolding line_style strip_prefix
  space_style e = ground arith

  mark_style : has_prefix "@@" (String.◌∷◌ c s) ≡ true → line_style (String.◌∷◌ c s) ≡ marks
  unfolding line_style strip_prefix
  mark_style e = ground arith

  diff_style : has_prefix "diff " (String.◌∷◌ c s) ≡ true → line_style (String.◌∷◌ c s) ≡ heads
  unfolding line_style strip_prefix
  diff_style e = ground arith

  index_style : has_prefix "index " (String.◌∷◌ c s) ≡ true → line_style (String.◌∷◌ c s) ≡ heads
  unfolding line_style strip_prefix
  index_style e = ground arith

empty_style : line_style "" ≡ plain
unfolding line_style strip_prefix
empty_style = refl

hunk_style : (raw : String) → has_prefix "@@" raw ≡ true → line_style raw ≡ marks
unfolding strip_prefix
hunk_style String.[] h = cc
hunk_style (String.◌∷◌ c s) h = mark_style c s h

eqb→eq : (a b : ℕ) → eqb a b ≡ true → a ≡ b
eqb→eq a b h = ground arith

-- A text that starts with a prefix starts with what the prefix starts with.
has_prefix-concat : (p q s : String) → has_prefix (concat p q) s ≡ true → has_prefix p s ≡ true
unfolding strip_prefix
has_prefix-concat String.[] q s h = refl
has_prefix-concat (String.◌∷◌ c p) q String.[] h = rw (cons-append c p q) at h
has_prefix-concat (String.◌∷◌ c p) q (String.◌∷◌ d s) h =
    let k : has_prefix (String.◌∷◌ c (concat p q)) (String.◌∷◌ d s) ≡ true =
      rw (cons-append c p q) at h in
    ground (arith, has_prefix-concat p q s)

-- Which kind of head a line is.
is_meta-cases :
    (raw : String)
    → is_meta raw ≡ true
    → (has_prefix "diff " raw ≡ true)
      ⊎ ((has_prefix "index " raw ≡ true)
          ⊎ ((has_prefix "---" raw ≡ true) ⊎ (has_prefix "+++" raw ≡ true)))
unfolding is_meta
is_meta-cases raw h = elim (Bool-cases (has_prefix "diff --git" raw)) [
  | inl e ↦ inl (has_prefix-concat "diff " "--git" raw e)
  | inr e ↦ elim (Bool-cases (has_prefix "index " raw)) [
    | inl e1 ↦ inr (inl e1)
    | inr e1 ↦ elim (Bool-cases (has_prefix "--- " raw)) [
      | inl e2 ↦ inr (inr (inl (has_prefix-concat "---" " " raw e2)))
      | inr e2 ↦ inr (inr (inr (has_prefix-concat "+++" " " raw (ground (arith, h, e, e1, e2)))))
    ]
  ]
]

meta_style :
    (raw : String)
    → has_prefix "+++" raw ≡ false
    → has_prefix "---" raw ≡ false
    → is_meta raw ≡ true
    → line_style raw ≡ heads
unfolding is_meta strip_prefix
meta_style String.[] p q m = cc
meta_style (String.◌∷◌ c s) p q m = elim (is_meta-cases (String.◌∷◌ c s) m) [
  | inl e ↦ diff_style c s e
  | inr (inl e) ↦ index_style c s e
  | inr (inr (inl e)) ↦ cc
  | inr (inr (inr e)) ↦ cc
]

-- The lines that were added to what was read all have the colour of the raw line.
abbrev pub AddsLike : String → Reading → Reading → Type 0
AddsLike raw r t =
    (x : List DiffLine) × (t.result ≡ r.result ++ x)
    × All (λ (l : DiffLine). style_of l.line_type ≡ line_style raw) x

read_hunk_line-AddsLike :
    (raw : String) (r : Reading)
    → has_prefix "+++" raw ≡ false
    → has_prefix "---" raw ≡ false
    → AddsLike raw r (read_hunk_line raw r)
unfolding read_hunk_line
read_hunk_line-AddsLike String.[] r p q =
    (record { line_type = context; prefix = " "; text = "" } ∷ [], refl, (sym empty_style, tt))
read_hunk_line-AddsLike (String.◌∷◌ c s) r p q =
    let P : Reading → Type 0 = AddsLike (String.◌∷◌ c s) r in
    if_intro P (eqb (code c) b'+') _ _ (λ e. (_, refl, (sym (plus_style c s (eqb→eq _ _ e) p), tt)))
      (λ e.
        if_intro P (eqb (code c) b'-') _ _
          (λ e1. (_, refl, (sym (minus_style c s (eqb→eq _ _ e1) q), tt)))
          (λ e1.
            if_intro P (eqb (code c) b' ') _ _
              (λ e2. (_, refl, (sym (space_style c s (eqb→eq _ _ e2)), tt)))
              (λ e2. ([], sym (append-nil r.result), tt))))

-- In a hunk, what the browser adds for a line has the type that goes with the colour that the phone
-- gives the line, unless the line starts with three plus or minus signs. Lines that the browser
-- leaves out add nothing.
read_line-line_style :
    (raw : String) (r : Reading)
    → r.in_hunk ≡ true
    → has_prefix "+++" raw ≡ false
    → has_prefix "---" raw ≡ false
    → AddsLike raw r (read_line raw r)
unfolding read_line
read_line-line_style raw r i p q =
    if_intro (AddsLike raw r) (is_meta raw) _ _ (λ m. (_, refl, (sym (meta_style raw p q m), tt)))
      (λ m.
        if_intro (AddsLike raw r) (has_prefix "@@" raw) _ _
          (λ h. (_, refl, (sym (hunk_style raw h), tt)))
          (λ h.
            if_intro (AddsLike raw r) r.in_hunk _ _ (λ e. read_hunk_line-AddsLike raw r p q)
              (λ e. cc)))
