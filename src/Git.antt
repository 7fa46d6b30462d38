-- ===== src/Git.antt =====
-- What the clients show of the repository's changes: the side bar of the browser
-- (web/src/features/files/GitFilesSidebar.tsx) and the dialog of the phone
-- (mobile/src/components/terminal/GitDiffModal.tsx). An asynchronous function is cut at its `await`s:
-- a request that was sent is in flight until the step that answers it.
pub mod Sidebar
pub mod Dialog
use mobilecoding.Base.{ℕ, zero, suc, String, Bool, Option, none, some, List, [], ◌∷◌, All}

pub record GitFileStatus : Type 0 where
  pub path : String
  pub status : String
  pub staged : Bool

-- How a fetch ends: with an answer, with a status that is no success and its text, or with what
-- was thrown, by its message if it is an `Error`.
pub data Reply (A : Type 0) : Type 0 where
  answer : A → Reply A
  not_ok : String → Reply A
  thrown : Option String → Reply A

-- A request in flight, by what it asks for.
pub record Asked (A : Type 0) : Type 0 where
  pub about : A
  pub url : String
  pub authorization : String

abbrev pub message_or : String → Option String → String
message_or fixed none = fixed
message_or fixed (some msg) = msg

module _ {ℓ} {A : Type ℓ} where
  -- The list without the element at a place; a place out of range removes nothing.
  unfoldable pub remove_at : ℕ → List A → List A
  remove_at n [] = []
  remove_at zero (x ∷ xs) = xs
  remove_at (suc n) (x ∷ xs) = x ∷ remove_at n xs

pub All-remove_at {ℓ} :
    {A : Type 0} (P : A → Type ℓ) (n : ℕ) (xs : List A) → All P xs → All P (remove_at n xs)
unfolding remove_at
All-remove_at P n [] h = tt
All-remove_at P zero (x ∷ xs) h = h.1
All-remove_at P (suc n) (x ∷ xs) h = (h.0, All-remove_at P n xs h.1)
