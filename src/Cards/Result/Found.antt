-- ===== src/Cards/Result/Found.antt =====
-- The diff that a tool's result holds (web/src/features/terminal/cards/ToolResultCard.tsx).
use text.Mathlib.TextLemmas.{nil-append, cons-append}
use mobilecoding.Base.{
  ℕ, ◌≡◌, refl, ap, ◌∙◌, suc, length, ◌≤◌, String, true, false, none, some, List, [], ◌∷◌, ◌++◌,
  map, any, strip_prefix, join, concat, All, All-append, Bool-cases, inl, inr,
}
use mobilecoding.Json.{Json, str}
use mobilecoding.Diff.{split_lines, parse_unified_diff}
use mobilecoding.Diff.Render.{
  Edit, added, removed, kept, render, line_of, header, header_line, join_lines, one_line, IsPlain,
  split_lines-join_lines, All-one_line, parse_unified_diff-render,
}
use mobilecoding.Cards.Result.{
  is_hunk_start, is_diff_line, from_hunk, diff_lines, is_change, changed, diff_from, extract_diff,
}

-- The two ways to write lines with line feeds between them.
join-join_lines : (l : String) (ls : List String) → join "\n" (l ∷ ls) ≡ join_lines l ls
unfolding join
join-join_lines l [] = refl
join-join_lines l (m ∷ ls) = ap (concat l) (
    cons-append "\n" "" (join "\n" (m ∷ ls))
    ∙ (ap (String.◌∷◌ "\n") (nil-append (join "\n" (m ∷ ls)))
        ∙ ap (String.◌∷◌ "\n") (join-join_lines m ls)))

split_lines-join :
    (l : String) (ls : List String)
    → one_line l ≡ true
    → All (λ m. one_line m ≡ true) ls
    → split_lines (join "\n" (l ∷ ls)) ≡ l ∷ ls
split_lines-join l ls o h = ap split_lines (join-join_lines l ls) ∙ split_lines-join_lines l ls o h

-- Text before the first hunk.
from_hunk-append :
    (ps : List String) (h : String) (ls : List String)
    → All (λ p. is_hunk_start p ≡ false) ps
    → is_hunk_start h ≡ true
    → from_hunk (ps ++ h ∷ ls) ≡ some (h ∷ ls)
unfolding from_hunk
from_hunk-append [] h ls a e = rw e refl
from_hunk-append (p ∷ ps) h ls (n, a) e = rw n (from_hunk-append ps h ls a e)

-- What ends a diff.
abbrev pub EndsDiff : List String → Type 0
EndsDiff [] = Unit {0}
EndsDiff (q ∷ qs) = is_diff_line q ≡ false

diff_lines-end : (qs : List String) → EndsDiff qs → diff_lines qs ≡ []
unfolding diff_lines
diff_lines-end [] e = refl
diff_lines-end (q ∷ qs) e = rw e refl

render-is_diff_line : (e : Edit) → is_diff_line (render e) ≡ true
unfolding is_diff_line is_hunk_start strip_prefix
render-is_diff_line (added t) = refl
render-is_diff_line (removed t) = refl
render-is_diff_line (kept t) = refl

diff_lines-render :
    (es : List Edit) (qs : List String)
    → EndsDiff qs
    → diff_lines (map render es ++ qs) ≡ map render es
unfolding diff_lines
diff_lines-render [] qs e = diff_lines-end qs e
diff_lines-render (x ∷ es) qs e =
    rw (render-is_diff_line x) (ap (λ ls. render x ∷ ls) (diff_lines-render es qs e))

hunk-is_diff_line : (h : String) → is_hunk_start h ≡ true → is_diff_line h ≡ true
unfolding is_diff_line
hunk-is_diff_line h e = rw e refl

changed-header :
    (h : String) (ls : List String)
    → any is_change ls ≡ true
    → changed (h ∷ ls) ≡ some (join "\n" (h ∷ ls))
unfolding changed
changed-header h ls e = elim (Bool-cases (is_change h)) [
  | inl k ↦ rw k refl
  | inr k ↦ rw (k, e) refl
]

-- A result that is some lines, a hunk with a change, and lines of which the first does not belong to a
-- diff.
abbrev pub result_of : List String → String → List Edit → List String → List String
result_of ps t es qs = ps ++ header t ∷ (map render es ++ qs)

abbrev pub json_of : List String → Json
json_of ls = str (join "\n" ls)

split-result :
    (ps : List String) (h : String) (ls : List String)
    → All (λ p. one_line p ≡ true) ps
    → one_line h ≡ true
    → All (λ p. one_line p ≡ true) ls
    → split_lines (join "\n" (ps ++ h ∷ ls)) ≡ ps ++ h ∷ ls
split-result [] h ls a o b = split_lines-join h ls o b
split-result (p ∷ ps) h ls (n, a) o b =
    split_lines-join p (ps ++ h ∷ ls) n
      (All-append (λ (m : String). one_line m ≡ true) ps (h ∷ ls) a (o, b))

-- A result that holds a hunk between other lines: the hunk is what is found, without the lines around
-- it, and the view parses it to its header and its edits. Needed are lines without line feeds, no
-- hunk header before the hunk, a change in it, no edit that looks like a file header (as a removed
-- line does that starts with `-- `), an end after it, and room.
pub extract_diff-parse_unified_diff :
    (ps : List String) (t : String) (es : List Edit) (qs : List String) (max_lines : ℕ)
    → All (λ p. one_line p ≡ true) ps
    → All (λ p. is_hunk_start p ≡ false) ps
    → is_hunk_start (header t) ≡ true
    → one_line (header t) ≡ true
    → All IsPlain es
    → any is_change (map render es) ≡ true
    → All (λ q. one_line q ≡ true) qs
    → EndsDiff qs
    → suc (length es) ≤ max_lines
    → (extract_diff (json_of (result_of ps t es qs)) ≡ some (join "\n" (header t ∷ map render es)))
      × (parse_unified_diff (join "\n" (header t ∷ map render es)) max_lines ≡ record {
        lines = header_line t ∷ map line_of es;
        truncated = false;
        total = suc (length es);
      })
unfolding extract_diff diff_lines
extract_diff-parse_unified_diff ps t es qs n a b h o p c d e room = (
  ap (λ ls. diff_from (from_hunk ls))
        (split-result ps (header t) (map render es ++ qs) a o
          (All-append (λ (m : String). one_line m ≡ true) (map render es) qs (All-one_line es p) d))
      ∙ (ap diff_from (from_hunk-append ps (header t) (map render es ++ qs) b h)
          ∙ (rw (hunk-is_diff_line (header t) h)
                (ap (λ ls. changed (header t ∷ ls)) (diff_lines-render es qs e))
              ∙ changed-header (header t) (map render es) c)),
  ap (λ s. parse_unified_diff s n) (join-join_lines (header t) (map render es))
      ∙ parse_unified_diff-render t es n o p room,
)

-- The first line is the header of a hunk.
abbrev pub Starts : List String → Type 0
Starts [] = ⊥
Starts (l ∷ ls) = is_hunk_start l ≡ true

-- What a diff that is found is of the lines.
pub record IsDiffOf (ls : List String) (d : String) : Type 0 where
  pub before : List String
  pub kept_lines : List String
  pub after : List String
  pub placed : ls ≡ before ++ (kept_lines ++ after)
  pub joined : d ≡ join "\n" kept_lines
  pub unstarted : All (λ l. is_hunk_start l ≡ false) before
  pub started : Starts kept_lines
  pub marked : All (λ l. is_diff_line l ≡ true) kept_lines
  pub has_change : any is_change kept_lines ≡ true
  pub ended : EndsDiff after

-- The lines that belong to a diff, and the others.
diff_lines-split :
    (ls : List String)
    → (qs : List String) × (ls ≡ diff_lines ls ++ qs)
      × EndsDiff qs
      × All (λ l. is_diff_line l ≡ true) (diff_lines ls)
unfolding diff_lines
diff_lines-split [] = ([], refl, tt, tt)
diff_lines-split (l ∷ ls) = elim (Bool-cases (is_diff_line l)) [
  | inl e ↦ rw e (let (qs, p, q, a) = diff_lines-split ls in (qs, ap (λ r. l ∷ r) p, q, (e, a)))
  | inr e ↦ rw e (l ∷ ls, refl, e, tt)
]

changed-some :
    (ls : List String) (d : String)
    → changed ls ≡ some d
    → (any is_change ls ≡ true) × (d ≡ join "\n" ls)
unfolding changed
changed-some ls d e = elim (Bool-cases (any is_change ls)) [
  | inl k ↦ let f : some (join "\n" ls) ≡ some d = rw k at e in (k, cc)
  | inr k ↦ let f : none ≡ some d = rw k at e in absurd cc
]

diff_lines-Starts :
    (l : String) (ls : List String) → is_hunk_start l ≡ true → Starts (diff_lines (l ∷ ls))
unfolding diff_lines
diff_lines-Starts l ls k = rw (hunk-is_diff_line l k) k

found-IsDiffOf :
    (l : String) (ls : List String) (d : String)
    → is_hunk_start l ≡ true
    → changed (diff_lines (l ∷ ls)) ≡ some d
    → IsDiffOf (l ∷ ls) d
found-IsDiffOf l ls d k e =
    let (qs, p, q, a) = diff_lines-split (l ∷ ls) in
    let (c, j) = changed-some (diff_lines (l ∷ ls)) d e in
    record {
      before = [];
      kept_lines = diff_lines (l ∷ ls);
      after = qs;
      placed = p;
      joined = j;
      unstarted = tt;
      started = diff_lines-Starts l ls k;
      marked = a;
      has_change = c;
      ended = q;
    }

later-IsDiffOf :
    (l : String) (ls : List String) (d : String)
    → is_hunk_start l ≡ false
    → IsDiffOf ls d
    → IsDiffOf (l ∷ ls) d
later-IsDiffOf l ls d e x = record {
  before = l ∷ x.before;
  kept_lines = x.kept_lines;
  after = x.after;
  placed = ap (λ r. l ∷ r) x.placed;
  joined = x.joined;
  unstarted = (e, x.unstarted);
  started = x.started;
  marked = x.marked;
  has_change = x.has_change;
  ended = x.ended;
}

diff_from-IsDiffOf :
    (ls : List String) (d : String) → diff_from (from_hunk ls) ≡ some d → IsDiffOf ls d
unfolding from_hunk
diff_from-IsDiffOf [] d e = absurd cc
diff_from-IsDiffOf (l ∷ ls) d e = elim (Bool-cases (is_hunk_start l)) [
  | inl k ↦ found-IsDiffOf l ls d k (rw k at e)
  | inr k ↦ later-IsDiffOf l ls d k (diff_from-IsDiffOf ls d (rw k at e))
]

-- Whatever the result is: a diff that is found is a run of its lines that starts with the first hunk
-- header of the result, of which each may stand in a diff and one is a change, and that ends where a
-- line may not.
pub extract_diff-IsDiffOf :
    (s d : String) → extract_diff (str s) ≡ some d → IsDiffOf (split_lines s) d
unfolding extract_diff
extract_diff-IsDiffOf s d e = diff_from-IsDiffOf (split_lines s) d e
