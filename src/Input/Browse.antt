-- ===== src/Input/Browse.antt =====
-- The browsing of the history (web/src/features/terminal/InputBar.tsx).
use mobilecoding.Base.{
  ℕ, suc, zero, ◌-◌, ◌≤◌, ◌≡◌, refl, ap, ◌∙◌, String, true, false, none, some, length, ltb,
  get_elem?, text_of, includes, arith, eqb,
}
use mobilecoding.Chat.State.{ChatState}
use mobilecoding.Input.{
  InputBar, Direction, up, down, show_entry, navigate_up, navigate_down, navigate, navigate_history,
}
use mobilecoding.Input.Keys.{on_key_down, press_arrow}

-- The text has one line.
abbrev pub IsOneLine : String → Type 0
IsOneLine t = includes "\n" t ≡ false

-- The bar that browses the i-th entry, with the draft put aside.
abbrev pub at_entry : ℕ → InputBar → InputBar
at_entry i b = record b {
  history_cursor = some i;
  text = text_of (get_elem? b.history i);
  saved_draft = b.text;
}

not_empty : (b : InputBar) (n : ℕ) → suc n ≤ length b.history → eqb (length b.history) 0 ≡ false
not_empty b n k = ground arith

up-start :
    (b : InputBar)
    → b.history_cursor ≡ none
    → 1 ≤ length b.history
    → (navigate_history up b).0 ≡ at_entry 0 b
unfolding navigate_history navigate navigate_up show_entry
up-start b h k = rw (not_empty b 0 k, h) refl

up-at_entry :
    (n : ℕ) (b : InputBar)
    → suc (suc n) ≤ length b.history
    → (navigate_history up (at_entry n b)).0 ≡ at_entry (suc n) b
unfolding navigate_history navigate navigate_up show_entry
up-at_entry n b k =
    let more : ltb n (length b.history - 1) ≡ true = ground arith in
    rw (not_empty b (suc n) k, more) refl

down-at_entry :
    (n : ℕ) (b : InputBar)
    → suc (suc n) ≤ length b.history
    → (navigate_history down (at_entry (suc n) b)).0 ≡ at_entry n b
unfolding navigate_history navigate navigate_down show_entry
down-at_entry n b k =
    let less : ltb 0 (suc n) ≡ true = ground arith in
    let e : suc n - 1 ≡ n = omega arith in rw (not_empty b (suc n) k, less, e) refl

-- The bar back at its own text, no longer browsing.
abbrev pub restored : InputBar → InputBar
restored b = record b { history_cursor = none; saved_draft = b.text }

down-first :
    (b : InputBar) → 1 ≤ length b.history → (navigate_history down (at_entry 0 b)).0 ≡ restored b
unfolding navigate_history navigate navigate_down
down-first b k = rw (not_empty b 0 k) refl

-- The first entries of the history have one line each, up to the n-th.
abbrev pub HasLines : ℕ → InputBar → Type 0
HasLines n b = (i : ℕ) → i ≤ n → IsOneLine (text_of (get_elem? b.history i))

module _ (s : ChatState) where
  -- The arrow key pressed a number of times.
  abbrev pub presses : Direction → ℕ → InputBar → InputBar
  presses d zero b = b
  presses d (suc n) b = press_arrow s d (presses d n b)

  arrow_lem :
      (d : Direction) (b : InputBar)
      → IsOneLine b.text
      → press_arrow s d b ≡ (navigate_history d b).0
  unfolding press_arrow on_key_down
  arrow_lem up b h = rw h refl
  arrow_lem down b h = rw h refl

  presses-first :
      (d : Direction) (n : ℕ) (b : InputBar) → presses d (suc n) b ≡ presses d n (press_arrow s d b)
  presses-first d zero b = refl
  presses-first d (suc n) b = ap (press_arrow s d) (presses-first d n b)

  presses-up :
      (n : ℕ) (b : InputBar)
      → b.history_cursor ≡ none
      → suc n ≤ length b.history
      → IsOneLine b.text
      → HasLines n b
      → presses up (suc n) b ≡ at_entry n b
  presses-up zero b h k o l = arrow_lem up b o ∙ up-start b h k
  presses-up (suc n) b h k o l =
      ap (press_arrow s up) (presses-up n b h (omega arith) o (λ i p. l i (omega arith)))
      ∙ (arrow_lem up (at_entry n b) (l n (omega arith)) ∙ up-at_entry n b k)

  presses-down :
      (n : ℕ) (b : InputBar)
      → suc n ≤ length b.history
      → HasLines n b
      → presses down (suc n) (at_entry n b) ≡ restored b
  presses-down zero b k l = arrow_lem down (at_entry 0 b) (l 0 (omega arith)) ∙ down-first b k
  presses-down (suc n) b k l =
      presses-first down (suc n) (at_entry (suc n) b)
      ∙ (ap (presses down (suc n))
            (arrow_lem down (at_entry (suc n) b) (l (suc n) (omega arith)) ∙ down-at_entry n b k)
          ∙ presses-down n b (omega arith) (λ i p. l i (omega arith)))

  -- From a bar that is not browsing, pressing the upward arrow key as often as there are entries, or
  -- less often, shows the entry of that number, the latest first; pressing the downward one as often
  -- after it brings the text back that stood in the bar, and ends the browsing. This holds where that
  -- text and the entries up to that one have one line each: on several lines the keys only move the
  -- cursor.
  pub presses-round :
      (n : ℕ) (b : InputBar)
      → b.history_cursor ≡ none
      → suc n ≤ length b.history
      → IsOneLine b.text
      → HasLines n b
      → (presses up (suc n) b ≡ at_entry n b)
        × (presses down (suc n) (presses up (suc n) b) ≡ restored b)
  presses-round n b h k o l =
      let there = presses-up n b h k o l in
      (there, ap (presses down (suc n)) there ∙ presses-down n b k l)
