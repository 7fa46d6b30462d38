-- ===== src/Diff/Tests.antt =====
-- The theorems on diffs at concrete inputs (web/src/features/terminal/cards/DiffView.tsx).
use mobilecoding.Base.{◌≡◌, refl, List, [], ◌∷◌, map, false, arith, strip_prefix, String}
use mobilecoding.Diff.{parse_unified_diff, LineType, is_meta, read_line, read_lines, split_lines}
use mobilecoding.Diff.Render.{
  Edit, added, removed, kept, render, line_of, join_lines, header, header_line,
  parse_unified_diff-render,
}

abbrev edits : List Edit
edits = kept "a" ∷ removed "b" ∷ added "c" ∷ []

parse_unified_diff-render_example :
    parse_unified_diff (join_lines (header " -1 +1 @@") (map render edits)) 300
    ≡ record { lines = header_line " -1 +1 @@" ∷ map line_of edits; truncated = false; total = 4 }
unfolding is_meta strip_prefix
parse_unified_diff-render_example =
    parse_unified_diff-render " -1 +1 @@" edits 300 refl
      ((refl, refl), ((refl, refl), ((refl, refl), tt))) (omega arith)

abbrev diff : String
diff = "index 1\n@@\n+c\n c"

-- A removed line that starts with two dashes and a space is taken for a file header.
removed_comment_test : parse_unified_diff "@@\n--- note" 300 ≡ record {
  lines =
      record { line_type = LineType.hunk; prefix = "@"; text = "@@" }
      ∷ record { line_type = LineType.meta; prefix = " "; text = "--- note" }
      ∷ [];
  truncated = false;
  total = 1;
}
unfolding parse_unified_diff read_lines read_line is_meta strip_prefix split_lines
removed_comment_test = refl
