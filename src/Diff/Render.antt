-- ===== src/Diff/Render.antt =====
-- Diffs printed and parsed, and what a parsed diff counts
-- (web/src/features/terminal/cards/DiffView.tsx).
use Prim.Native.Char.{code}
use mathlib.Core.List.{append-nil, append_assoc}
use text.Mathlib.TextLemmas.{nil-append, cons-append}
use mobilecoding.Base.{
  ℕ, suc, ◌+◌, ◌≤◌, ◌≡◌, refl, ap, ◌∙◌, String, Bool, true, false, List, [], ◌∷◌, ◌++◌, map, eqb,
  ltb, length, if◌then◌else◌, is_empty, strip_prefix, concat, All, arith, Bool-cases, inl, inr,
}
use mobilecoding.Diff.{
  add, del, context, hunk, DiffLine, Reading, split_lines, is_meta, read_hunk_line, read_line,
  read_lines, nothing_read, parse_unified_diff,
}

-- A line of a hunk.
pub data Edit : Type 0 where
  added removed kept : String → Edit

abbrev pub render : Edit → String
render (added t) = String.◌∷◌ "+" t
render (removed t) = String.◌∷◌ "-" t
render (kept t) = String.◌∷◌ " " t

abbrev pub line_of : Edit → DiffLine
line_of (added t) = record { line_type = add; prefix = "+"; text = t }
line_of (removed t) = record { line_type = del; prefix = "-"; text = t }
line_of (kept t) = record { line_type = context; prefix = " "; text = t }

-- Lines joined by line feeds.
abbrev pub join_lines : String → List String → String
join_lines l [] = l
join_lines l (m ∷ ls) = concat l (String.◌∷◌ "\n" (join_lines m ls))

-- No line feed.
abbrev pub one_line : String → Bool
one_line String.[] = true
one_line (String.◌∷◌ c s) = if eqb (code c) 10 then false else one_line s

split_lines-one : (l : String) → one_line l ≡ true → split_lines l ≡ l ∷ []
unfolding split_lines
split_lines-one String.[] h = refl
split_lines-one (String.◌∷◌ c s) h = elim (Bool-cases (eqb (code c) 10)) [
  | inl e ↦ absurd (ground (arith, e, h))
  | inr e ↦
      rw (e, split_lines-one s (rw e at h))
        (ap (λ l. l ∷ []) (cons-append c "" s ∙ ap (String.◌∷◌ c) (nil-append s)))
]

split_lines-cons :
    (l r : String)
    → one_line l ≡ true
    → split_lines (concat l (String.◌∷◌ "\n" r)) ≡ l ∷ split_lines r
unfolding split_lines
split_lines-cons String.[] r h = rw (nil-append (String.◌∷◌ "\n" r)) refl
split_lines-cons (String.◌∷◌ c s) r h = elim (Bool-cases (eqb (code c) 10)) [
  | inl e ↦ absurd (ground (arith, e, h))
  | inr e ↦
      rw (cons-append c s (String.◌∷◌ "\n" r), e, split_lines-cons s r (rw e at h))
        (ap (λ l. l ∷ split_lines r) (cons-append c "" s ∙ ap (String.◌∷◌ c) (nil-append s)))
]

pub split_lines-join_lines :
    (l : String) (ls : List String)
    → one_line l ≡ true
    → All (λ m. one_line m ≡ true) ls
    → split_lines (join_lines l ls) ≡ l ∷ ls
split_lines-join_lines l [] h hs = split_lines-one l h
split_lines-join_lines l (m ∷ ls) h (k, hs) =
    split_lines-cons l (join_lines m ls) h ∙ ap (λ r. l ∷ r) (split_lines-join_lines m ls k hs)

-- An edit on one line that is not taken for a file header.
abbrev pub IsPlain : Edit → Type 0
IsPlain e = (one_line (render e) ≡ true) × (is_meta (render e) ≡ false)

read_line-render :
    (e : Edit) (r : Reading)
    → is_meta (render e) ≡ false
    → r.in_hunk ≡ true
    → read_line (render e) r ≡ record r { result = r.result ++ line_of e ∷ []; total = suc r.total }
unfolding read_line read_hunk_line
read_line-render (added t) r h k = rw (h, k) refl
read_line-render (removed t) r h k = rw (h, k) refl
read_line-render (kept t) r h k = rw (h, k) refl

read_lines-render :
    (es : List Edit) (r : Reading)
    → All IsPlain es
    → r.in_hunk ≡ true
    → read_lines (map render es) r
      ≡ record r { result = r.result ++ map line_of es; total = r.total + length es }
unfolding read_lines
read_lines-render [] r h k =
    let t : r.total ≡ r.total + 0 = omega arith in
    rw (append-nil r.result) (ap (λ n. record r { total = n }) t)
read_lines-render (e ∷ es) r ((o, m), h) k =
    let t : suc r.total + length es ≡ r.total + suc (length es) = omega arith in
    ap (read_lines (map render es)) (read_line-render e r m k)
    ∙ read_lines-render es (record r { result = r.result ++ line_of e ∷ []; total = suc r.total }) h
        k
    ∙ rw (append_assoc r.result (line_of e ∷ []) (map line_of es))
        (ap (λ n. record r { result = r.result ++ line_of e ∷ map line_of es; total = n }) t)

pub All-one_line : (es : List Edit) → All IsPlain es → All (λ m. one_line m ≡ true) (map render es)
All-one_line [] h = tt
All-one_line (e ∷ es) ((o, m), h) = (o, All-one_line es h)

-- A hunk header: two at signs and a text.
abbrev pub header : String → String
header t = String.◌∷◌ "@" (String.◌∷◌ "@" t)

abbrev pub header_line : String → DiffLine
header_line t = record { line_type = hunk; prefix = "@"; text = header t }

not_empty : (t : String) (ls : List String) → is_empty (join_lines (header t) ls) ≡ false
not_empty t [] = refl
not_empty t (m ∷ ls) =
    rw (cons-append "@" (String.◌∷◌ "@" t) (String.◌∷◌ "\n" (join_lines m ls))) refl

-- What reading a header and edits gives.
abbrev whole : String → List Edit → Reading
whole t es = record {
  result = header_line t ∷ map line_of es;
  in_hunk = true;
  total = suc (length es);
}

read_lines-header :
    (t : String) (es : List Edit)
    → All IsPlain es
    → read_lines (header t ∷ map render es) nothing_read ≡ whole t es
unfolding read_lines read_line is_meta strip_prefix
read_lines-header t es h =
    let n : 1 + length es ≡ suc (length es) = omega arith in
    read_lines-render es (record { result = header_line t ∷ []; in_hunk = true; total = 1 }) h refl
    ∙ ap (λ k. record (whole t es) { total = k }) n

length-lines : (es : List Edit) → length (map line_of es) ≡ length es
length-lines [] = refl
length-lines (e ∷ es) = ap suc (length-lines es)

-- A diff that is a hunk header and edits, each on one line, none of which looks like a file header,
-- is parsed to that header and those edits, in order and with their kinds and texts, all counted, if
-- there is room for them.
pub parse_unified_diff-render :
    (t : String) (es : List Edit) (max_lines : ℕ)
    → one_line (header t) ≡ true
    → All IsPlain es
    → suc (length es) ≤ max_lines
    → parse_unified_diff (join_lines (header t) (map render es)) max_lines ≡ record {
      lines = header_line t ∷ map line_of es;
      truncated = false;
      total = suc (length es);
    }
unfolding parse_unified_diff
parse_unified_diff-render t es n o h room =
    let fits : ltb n (suc (length (map line_of es))) ≡ false = ground (arith, length-lines es) in
    rw
      (
        not_empty t (map render es),
        split_lines-join_lines _ _ o (All-one_line es h),
        read_lines-header t es h,
        fits,
      )
      refl
