-- ===== src/Diff.antt =====
-- The parser of unified diffs: web/src/features/terminal/cards/DiffView.tsx.
pub mod Render
pub mod Count
mod Tests
use Prim.Native.Char.{code}
use Prim.Native.String
use mobilecoding.Base.{
  ℕ, suc, ◌≡◌, refl, String, Bool, true, false, ◌||◌, List, [], ◌∷◌, ◌++◌, eqb, ltb, length, take,
  if◌then◌else◌, has_prefix, is_empty, strip_prefix,
}

pub data LineType : Type 0 where
  add del context hunk meta : LineType

pub record DiffLine : Type 0 where
  pub line_type : LineType
  pub prefix : String
  pub text : String

-- What the loop over the lines keeps.
pub record Reading : Type 0 where
  pub result : List DiffLine
  pub in_hunk : Bool
  pub total : ℕ

pub record Parsed : Type 0 where
  pub lines : List DiffLine
  pub truncated : Bool
  pub total : ℕ

abbrev pub on_first : String → List String → List String
on_first c [] = c ∷ []
on_first c (l ∷ ls) = String.◌++◌ c l ∷ ls

-- `diff.split('\n')`
unfoldable pub split_lines : String → List String
split_lines String.[] = "" ∷ []
split_lines (String.◌∷◌ c s) =
    let rest = split_lines s in
    if eqb (code c) 10 then "" ∷ rest else on_first (String.◌∷◌ c String.[]) rest

unfoldable pub is_meta : String → Bool
unfolding strip_prefix
is_meta raw =
    has_prefix "diff --git" raw
    || has_prefix "index " raw
    || has_prefix "--- " raw
    || has_prefix "+++ " raw

abbrev pub keep : LineType → String → String → Reading → Reading
keep t p x r = record r {
  result = r.result ++ record { line_type = t; prefix = p; text = x } ∷ [];
  total = suc r.total;
}

-- A line inside a hunk, by its first character; any other line is skipped.
unfoldable pub read_hunk_line : String → Reading → Reading
read_hunk_line String.[] r = keep context " " "" r
read_hunk_line (String.◌∷◌ c s) r =
    if eqb (code c) b'+'
    then keep add "+" s r
    else if eqb (code c) b'-'
    then keep del "-" s r
    else if eqb (code c) b' '
    then keep context " " s r
    else r

unfoldable pub read_line : String → Reading → Reading
unfolding strip_prefix
read_line raw r =
    if is_meta raw
    then record r {
      result = r.result ++ record { line_type = meta; prefix = " "; text = raw } ∷ [];
    }
    else if has_prefix "@@" raw
    then keep hunk "@" raw (record r { in_hunk = true })
    else if r.in_hunk
    then read_hunk_line raw r
    else r

unfoldable pub read_lines : List String → Reading → Reading
read_lines [] r = r
read_lines (l ∷ ls) r = read_lines ls (read_line l r)

abbrev pub nothing_read : Reading
nothing_read = record { result = []; in_hunk = false; total = 0 }

unfoldable pub parse_unified_diff : String → ℕ → Parsed
parse_unified_diff diff max_lines =
    if is_empty diff
    then record { lines = []; truncated = false; total = 0 }
    else let r = read_lines (split_lines diff) nothing_read in
      let truncated = ltb max_lines (length r.result) in
      record {
        lines = if truncated then take max_lines r.result else r.result;
        truncated = truncated;
        total = r.total;
      }
