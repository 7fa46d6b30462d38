-- ===== src/Diff/Count.antt =====
-- What a parsed diff counts, and how much of it shows
-- (web/src/features/terminal/cards/DiffView.tsx).
use Prim.Native.Char.{code}
use mobilecoding.Base.{
  ℕ, suc, ◌+◌, ◌≤◌, ◌≡◌, refl, ap, ◌∙◌, String, Bool, true, false, List, [], ◌∷◌, ◌++◌, eqb, ltb,
  length, length-append, length-take, take, if◌then◌else◌, has_prefix, is_empty, arith, Bool-cases,
  inl, inr, filter, filter-append, zero,
}
use mobilecoding.Diff.{
  LineType, add, del, context, hunk, meta, DiffLine, Reading, split_lines, is_meta, keep,
  read_hunk_line, read_line, read_lines, nothing_read, parse_unified_diff,
}

-- The lines of a diff that are not part of a file header.
abbrev pub is_counted : DiffLine → Bool
is_counted l = elim l.line_type [ meta ↦ false | _ ↦ true ]

abbrev pub counted : List DiffLine → ℕ
counted ls = length (filter is_counted ls)

abbrev IsCounted : Reading → Type 0
IsCounted r = counted r.result ≡ r.total

counted-append :
    (ls : List DiffLine) (l : DiffLine) → counted (ls ++ l ∷ []) ≡ counted ls + counted (l ∷ [])
counted-append ls l =
    ap length (filter-append is_counted ls (l ∷ [])) ∙ length-append (filter is_counted ls) _

keep-IsCounted :
    (t : LineType) (p x : String) (r : Reading)
    → is_counted (record { line_type = t; prefix = p; text = x }) ≡ true
    → IsCounted r
    → IsCounted (keep t p x r)
keep-IsCounted t p x r k h =
    let l : DiffLine = record { line_type = t; prefix = p; text = x } in
    let one : counted (l ∷ []) ≡ 1 = rw k refl in omega (arith, counted-append r.result l, one, h)

read_hunk_line-IsCounted :
    (raw : String) (r : Reading) → IsCounted r → IsCounted (read_hunk_line raw r)
unfolding read_hunk_line
read_hunk_line-IsCounted String.[] r h = keep-IsCounted context " " "" r refl h
read_hunk_line-IsCounted (String.◌∷◌ c s) r h = elim (Bool-cases (eqb (code c) b'+')) [
  | inl e ↦ rw e (keep-IsCounted add "+" s r refl h)
  | inr e ↦ rw e (elim (Bool-cases (eqb (code c) b'-')) [
    | inl f ↦ rw f (keep-IsCounted del "-" s r refl h)
    | inr f ↦ rw f (elim (Bool-cases (eqb (code c) b' ')) [
      | inl g ↦ rw g (keep-IsCounted context " " s r refl h)
      | inr g ↦ rw g h
    ])
  ])
]

read_line-IsCounted : (raw : String) (r : Reading) → IsCounted r → IsCounted (read_line raw r)
unfolding read_line
read_line-IsCounted raw r h = elim (Bool-cases (is_meta raw)) [
  | inl e ↦ rw e (
      let l : DiffLine = record { line_type = meta; prefix = " "; text = raw } in
      omega (arith, counted-append r.result l, h))
  | inr e ↦ rw e (elim (Bool-cases (has_prefix "@@" raw)) [
    | inl f ↦ rw f (keep-IsCounted hunk "@" raw (record r { in_hunk = true }) refl h)
    | inr f ↦ rw f (elim (Bool-cases r.in_hunk) [
      | inl g ↦ rw g (read_hunk_line-IsCounted raw _ h)
      | inr g ↦ rw g h
    ])
  ])
]

read_lines-IsCounted : (ls : List String) (r : Reading) → IsCounted r → IsCounted (read_lines ls r)
unfolding read_lines
read_lines-IsCounted [] r h = h
read_lines-IsCounted (l ∷ ls) r h = read_lines-IsCounted ls _ (read_line-IsCounted l r h)

counted-take : (n : ℕ) (ls : List DiffLine) → counted (take n ls) ≤ counted ls
counted-take zero ls = omega arith
counted-take (suc n) [] = omega arith
counted-take (suc n) (l ∷ ls) = elim (Bool-cases (is_counted l)) [
  | inl e ↦ rw e (omega (arith, counted-take n ls))
  | inr e ↦ rw e (counted-take n ls)
]

-- Of any text at most the given number of lines shows, and the total counts every line that shows
-- except the file headers; where nothing was cut off the two counts are equal.
parse_unified_diff-counted :
    (diff : String) (max_lines : ℕ)
    → let p = parse_unified_diff diff max_lines in
      (length p.lines ≤ max_lines)
      × (counted p.lines ≤ p.total)
      × ((if p.truncated then p.total else counted p.lines) ≡ p.total)
unfolding parse_unified_diff
parse_unified_diff-counted diff n = elim (Bool-cases (is_empty diff)) [
  | inl e ↦ rw e (omega arith, omega arith, refl)
  | inr e ↦ rw e (
      let r = read_lines (split_lines diff) nothing_read in
      let h : IsCounted r = read_lines-IsCounted (split_lines diff) nothing_read refl in
      elim (Bool-cases (ltb n (length r.result))) [
        | inl f ↦
            rw f (
              omega (arith, length-take n r.result),
              omega (arith, counted-take n r.result, h),
              refl,
            )
        | inr f ↦ rw f (ground (arith, f), omega (arith, h), h)
      ])
]
