-- ===== src/Cards/Tests.antt =====
-- The cards of a tool at concrete results (web/src/features/terminal/cards/ToolResultCard.tsx and
-- ToolUseCard.tsx).
use mobilecoding.Base.{
  ◌≡◌, refl, arith, false, some, none, List, [], ◌∷◌, join, strip_prefix, includes,
}
use mobilecoding.Json.{str, obj, field, end, member}
use mobilecoding.Diff.{split_lines, is_meta, parse_unified_diff}
use mobilecoding.Diff.Render.{Edit, added, removed, header_line, line_of}
use mobilecoding.Cards.Result.{
  is_hunk_start, is_diff_line, is_change, from_hunk, diff_lines, changed, extract_diff,
}
use mobilecoding.Cards.Result.Found.{
  json_of, result_of, IsDiffOf, extract_diff-parse_unified_diff, extract_diff-IsDiffOf,
}
use mobilecoding.Cards.Use.{pencil, tool_icon, icon_in, format_tool_summary, summary_of}

abbrev edits : List Edit
edits = removed "a" ∷ added "b" ∷ []

extract_diff-parse_unified_diff_example :
    (extract_diff (json_of (result_of ("ok" ∷ []) " -1 +1 @@" edits ("done" ∷ [])))
      ≡ some "@@ -1 +1 @@\n-a\n+b")
    × (parse_unified_diff "@@ -1 +1 @@\n-a\n+b" 9 ≡ record {
      lines = header_line " -1 +1 @@" ∷ line_of (removed "a") ∷ line_of (added "b") ∷ [];
      truncated = false;
      total = 3;
    })
unfolding is_hunk_start is_diff_line is_change is_meta strip_prefix join
extract_diff-parse_unified_diff_example =
    extract_diff-parse_unified_diff ("ok" ∷ []) " -1 +1 @@" edits ("done" ∷ []) 9 (refl, tt)
      (refl, tt) refl refl ((refl, refl), ((refl, refl), tt)) refl (refl, tt) refl (omega arith)

extract_diff-IsDiffOf_example : IsDiffOf (split_lines "ok\n@@ -1\n+b") "@@ -1\n+b"
unfolding extract_diff split_lines from_hunk diff_lines changed is_hunk_start is_diff_line is_change
    strip_prefix join
extract_diff-IsDiffOf_example = extract_diff-IsDiffOf "ok\n@@ -1\n+b" "@@ -1\n+b" refl

-- A list is not taken for a diff.
list_test : extract_diff (str "- one\n- two") ≡ none
unfolding extract_diff split_lines from_hunk is_hunk_start strip_prefix
list_test = refl

-- Where letters keep their case.
icon_test : tool_icon (λ s. s) "MyWriteTool" ≡ pencil
unfolding tool_icon icon_in includes strip_prefix
icon_test = refl

summary_test :
    format_tool_summary (λ j. "a.ts") (some (obj (field "path" (str "a.ts") end))) ≡ "a.ts"
unfolding format_tool_summary summary_of member
summary_test = refl
