-- ===== src/Banner/Details.antt =====
-- How long the details of the banner are (web/src/features/terminal/PermissionBanner.tsx).
use text.Mathlib.TextLemmas.{nil-append, cons-append}
use mobilecoding.Base.{
  ℕ, zero, suc, ◌+◌, ◌≤◌, ◌≡◌, String, Option, none, some, List, [], ◌∷◌, concat, take, ltb,
  is_empty, length, length-take, text_length, text_take, if_intro, arith,
}
use mobilecoding.Json.{Json, str, arr, obj, Fields, end, field}
use mobilecoding.Diff.{split_lines}
use mobilecoding.Banner.{
  shown_value, line_of, max_lines, max_value, value_text, field_lines, item_lines,
  format_tool_input,
}

text_length-concat : (s t : String) → text_length (concat s t) ≡ text_length s + text_length t
unfolding text_length
text_length-concat String.[] t = rw (nil-append t) (omega arith)
text_length-concat (String.◌∷◌ c s) t =
    rw (cons-append c s t) (omega (arith, text_length-concat s t))

text_length-text_take : (n : ℕ) (s : String) → text_length (text_take n s) ≤ n
unfolding text_length text_take
text_length-text_take zero s = omega arith
text_length-text_take (suc n) String.[] = omega arith
text_length-text_take (suc n) (String.◌∷◌ c s) = omega (arith, text_length-text_take n s)

shown_value-le : (val : String) → text_length (shown_value val) ≤ max_value + 1
unfolding shown_value text_length
shown_value-le val =
    if_intro (λ (t : String). text_length t ≤ max_value + 1) (ltb max_value (text_length val)) _ _
      (λ e. omega (
        arith,
        text_length-concat (text_take max_value val) "…",
        text_length-text_take max_value val,
      ))
      (λ e. ground (arith, e))

-- The line of a key is no longer than the key and what a value may show.
abbrev pub IsShortFor : List String → List String → Type 0
IsShortFor [] [] = Unit {0}
IsShortFor (k ∷ ks) (l ∷ ls) = (text_length l ≤ text_length k + (max_value + 3)) × IsShortFor ks ls
IsShortFor [] (l ∷ ls) = ⊥
IsShortFor (k ∷ ks) [] = Unit {0}

line_of-le : (k val : String) → text_length (line_of k val) ≤ text_length k + (max_value + 3)
unfolding text_length
line_of-le k val = omega (
  arith,
  text_length-concat k (concat ": " (shown_value val)),
  text_length-concat ": " (shown_value val),
  shown_value-le val,
)

abbrev pub keys_of : Fields → List String
keys_of end = []
keys_of (field k v fs) = k ∷ keys_of fs

module _ (stringify : Json → String) (show : ℕ → String) where
  take-field_lines :
      (n : ℕ) (fs : Fields) → IsShortFor (keys_of fs) (take n (field_lines stringify show fs))
  unfolding field_lines
  take-field_lines zero end = tt
  take-field_lines zero (field k v fs) = tt
  take-field_lines (suc n) end = tt
  take-field_lines (suc n) (field k v fs) =
      (line_of-le k (value_text stringify show v), take-field_lines n fs)

  lines-le : (j : Option Json) → length (format_tool_input stringify show j) ≤ max_lines
  unfolding format_tool_input
  lines-le none = omega arith
  lines-le (some (str s)) =
      if_intro (λ (l : List String). length l ≤ max_lines) (is_empty s) _ _ (λ e. omega arith)
        (λ e. omega (arith, length-take max_lines (split_lines s)))
  lines-le (some (obj fs)) = omega (arith, length-take max_lines (field_lines stringify show fs))
  lines-le (some (arr xs)) = omega (arith, length-take max_lines (item_lines stringify show 0 xs))
  lines-le (some _) = omega arith

  -- The details have thirty lines at most, whatever the input is; those of an object are in the order
  -- of its keys, and each is longer than its key by 503 letters at most.
  pub format_tool_input-IsShortFor :
      (j : Option Json) (fs : Fields)
      → (length (format_tool_input stringify show j) ≤ max_lines)
        × IsShortFor (keys_of fs) (format_tool_input stringify show (some (obj fs)))
  unfolding format_tool_input
  format_tool_input-IsShortFor j fs = (lines-le j, take-field_lines max_lines fs)
