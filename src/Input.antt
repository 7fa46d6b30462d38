-- ===== src/Input.antt =====
-- The input bar: web/src/features/terminal/InputBar.tsx. Its history of inputs, its draft, and the
-- browsing of the history. What is drawn is left out; a stored value stands for its JSON text, and an
-- access of the storage that fails is caught and changes nothing.
pub mod History
pub mod Browse
pub mod Keys
pub mod Drafts
mod Tests
use mobilecoding.Base.{
  ℕ, suc, ◌+◌, ◌-◌, ◌≡◌, refl, String, Bool, true, false, not, Option, none, some, List, [], ◌∷◌,
  ltb, length, take, filter, get_elem?, text_of, is_empty, if◌then◌else◌, ◌==◌, eqb,
}
use mobilecoding.Chat.Detect.{trim}

abbrev pub history_max : ℕ
history_max = 50

pub record InputBar : Type 0 where
  pub text : String
  pub sending : Bool
  pub history : List String
  -- `null` where the history is not browsed
  pub history_cursor : Option ℕ
  pub saved_draft : String
  -- what the two storages hold
  pub stored_history : Option (List String)
  pub stored_draft : Option String

unfoldable pub load_history : Option (List String) → List String
load_history raw = elim raw [ none ↦ [] | some items ↦ items ]

-- With whether the storage can be written.
unfoldable pub save_history : Bool → List String → InputBar → InputBar
save_history can items b = if can then record b { stored_history = some items } else b

-- What is stored for a text; the item is removed for the empty one.
abbrev pub draft_of : String → Option String
draft_of txt = if is_empty txt then none else some txt

unfoldable pub save_draft : Bool → String → InputBar → InputBar
save_draft can txt b = if can then record b { stored_draft = draft_of txt } else b

unfoldable pub load_draft : Option String → String
load_draft raw = text_of raw

-- The history with an input put first.
unfoldable pub remember : String → List String → List String
remember trimmed history = take history_max (trimmed ∷ filter (λ h. not (h == trimmed)) history)

-- `handleSend` up to its await, with whether the storages can be written; and what it sends.
unfoldable pub handle_send : Bool → InputBar → InputBar × Option String
handle_send can b =
    let trimmed = trim b.text in
    if is_empty trimmed
    then (b, none)
    else let history = remember trimmed b.history in
      let b1 = save_history can history (record b { history = history; history_cursor = none }) in
      let b2 = save_draft can "" (record b1 { text = "" }) in
      (record b2 { sending = true }, some trimmed)

pub data Direction : Type 0 where
  up down : Direction

-- The text of the entry that the cursor is at.
unfoldable pub show_entry : ℕ → InputBar → InputBar
show_entry i b = record b { history_cursor = some i; text = text_of (get_elem? b.history i) }

unfoldable pub navigate_up : InputBar → InputBar
navigate_up b = elim b.history_cursor [
  | none ↦ show_entry 0 (record b { saved_draft = b.text })
  | some i ↦ if ltb i (length b.history - 1) then show_entry (suc i) b else b
]

unfoldable pub navigate_down : InputBar → InputBar
navigate_down b = elim b.history_cursor [
  | none ↦ b
  | some i ↦
      if ltb 0 i
      then show_entry (i - 1) b
      else record b { history_cursor = none; text = b.saved_draft }
]

unfoldable pub navigate : Direction → InputBar → InputBar
navigate up b = navigate_up b
navigate down b = navigate_down b

-- `navigateHistory`, with whether the key is used up.
unfoldable pub navigate_history : Direction → InputBar → InputBar × Bool
navigate_history d b = if eqb (length b.history) 0 then (b, false) else (navigate d b, true)
