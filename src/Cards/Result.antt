-- ===== src/Cards/Result.antt =====
-- The card of a tool's result: web/src/features/terminal/cards/ToolResultCard.tsx. `stringify` is
-- `JSON.stringify`, `pretty` the same with an indent; a text is counted in code points.
pub mod Found
use Prim.Native.Char.{code}
use Prim.Native.String
use mobilecoding.Base.{
  String, Bool, true, false, ◌||◌, Option, none, some, List, [], ◌∷◌, any, ltb, strip_prefix,
  has_prefix, is_empty, concat, join, text_length, text_take, if◌then◌else◌,
}
use mobilecoding.Json.{Json, str, is_digit}
use mobilecoding.Chat.Agent.{mentions}
use mobilecoding.Diff.{split_lines}

abbrev pub starts_with_digit : String → Bool
starts_with_digit String.[] = false
starts_with_digit (String.◌∷◌ c s) = is_digit (code c)

-- `/^@@ -\d+/.test(l)`
unfoldable pub is_hunk_start : String → Bool
unfolding strip_prefix
is_hunk_start l = elim (strip_prefix "@@ -" l) [ none ↦ false | some rest ↦ starts_with_digit rest ]

-- What may stand in a diff.
unfoldable pub is_diff_line : String → Bool
unfolding strip_prefix
is_diff_line l =
    is_hunk_start l
    || ((has_prefix "+" l || (has_prefix "-" l || has_prefix " " l))
        || (is_empty l || has_prefix "\\ No newline" l))

-- `lines.findIndex(…)`, as what starts there.
unfoldable pub from_hunk : List String → Option (List String)
from_hunk [] = none
from_hunk (l ∷ ls) = if is_hunk_start l then some (l ∷ ls) else from_hunk ls

-- The loop that ends at the first line that does not belong to the diff.
unfoldable pub diff_lines : List String → List String
diff_lines [] = []
diff_lines (l ∷ ls) = let rest = diff_lines ls in if is_diff_line l then l ∷ rest else []

unfoldable pub is_change : String → Bool
unfolding strip_prefix
is_change l = has_prefix "+" l || has_prefix "-" l

unfoldable pub changed : List String → Option String
changed ls = if any is_change ls then some (join "\n" ls) else none

abbrev pub diff_from : Option (List String) → Option String
diff_from none = none
diff_from (some ls) = changed (diff_lines ls)

unfoldable pub extract_diff : Json → Option String
extract_diff (str s) = diff_from (from_hunk (split_lines s))
extract_diff j = none

-- What the open card shows.
pub data Body : Type 0 where
  diff_body : String → Body
  text_body : String → Body

-- `/error|failed|rejected|denied/i.test(s)`
unfoldable pub reads_as_failure : String → Bool
reads_as_failure s =
    mentions "error" s || (mentions "failed" s || (mentions "rejected" s || mentions "denied" s))

module _ (stringify pretty : Json → String) where
  unfoldable pub format_result : Json → String
  format_result (str s) = s
  format_result j = pretty j

  unfoldable pub is_error_result : Json → Bool
  is_error_result (str s) = reads_as_failure s
  is_error_result j = reads_as_failure (stringify j)

  unfoldable pub short_result : Json → String
  short_result j =
      if ltb 80 (text_length (format_result j))
      then concat (text_take 80 (format_result j)) "…"
      else format_result j

  abbrev pub body_of : Option String → Json → Body
  body_of none j = text_body (format_result j)
  body_of (some d) j = if is_empty d then text_body (format_result j) else diff_body d

  unfoldable pub result_body : Json → Body
  result_body j = body_of (extract_diff j) j
