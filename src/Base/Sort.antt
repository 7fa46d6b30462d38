-- ===== src/Base/Sort.antt =====
-- A stable sort by a number, as `xs.sort((a, b) => key(a) - key(b))` does it.
use Prim.Native.Nat.{ℕ, ◌≤◌}
use mathlib.Core.Path.{◌≡◌, refl, sym, ap, ◌∙◌}
use mathlib.Core.Logic.{◌≢◌, inl, inr}
use mathlib.Core.List.{List, [], ◌∷◌}
use native.Mathlib.Omega.{arith}
use mobilecoding.Base.Tests.{leb, if◌then◌else◌, Bool-cases}
use mobilecoding.Base.Lists.{All, All-mono}

-- The same elements in another order, by exchanges of neighbours. The library's relation on lists is a
-- truncation, whose elements have to form a set before it tells two of them equal.
pub data Reorder {ℓ} {A : Type ℓ} : List A → List A → Type ℓ where
  none_left : Reorder [] []
  keep : {x : A} {l r : List A} → Reorder l r → Reorder (x ∷ l) (x ∷ r)
  exchange : {x y : A} {l : List A} → Reorder (x ∷ y ∷ l) (y ∷ x ∷ l)
  chain : {l m r : List A} → Reorder l m → Reorder m r → Reorder l r

module _ {ℓ} {A : Type ℓ} (key : A → ℕ) where
  unfoldable pub insert_by : A → List A → List A
  insert_by x [] = x ∷ []
  insert_by x (y ∷ ys) =
      let rest = insert_by x ys in if leb (key x) (key y) then x ∷ y ∷ ys else y ∷ rest

  unfoldable pub sort_by : List A → List A
  sort_by [] = []
  sort_by (x ∷ xs) = insert_by x (sort_by xs)

  -- No two of the elements have one key.
  abbrev pub AreDistinct : List A → Type ℓ
  AreDistinct [] = Unit
  AreDistinct (x ∷ xs) = All (λ y. key x ≢ key y) xs × AreDistinct xs

  insert_by_comm :
      (a b : A) (l : List A)
      → key a ≢ key b
      → insert_by a (insert_by b l) ≡ insert_by b (insert_by a l)
  unfolding insert_by
  insert_by_comm a b [] h = ground arith
  insert_by_comm a b (x ∷ l) h = ground (arith, insert_by_comm a b l h)

  All-insert_by {κ} : (P : A → Type κ) (x : A) (l : List A) → P x → All P l → All P (insert_by x l)
  unfolding insert_by
  All-insert_by P x [] h hs = (h, hs)
  All-insert_by P x (y ∷ l) h (k, ks) = elim (Bool-cases (leb (key x) (key y))) [
    | inl e ↦ rw e (h, (k, ks))
    | inr e ↦ rw e (k, All-insert_by P x l h ks)
  ]

  pub All-sort_by {κ} : (P : A → Type κ) (l : List A) → All P l → All P (sort_by l)
  unfolding sort_by
  All-sort_by P [] h = h
  All-sort_by P (x ∷ l) (h, hs) = All-insert_by P x (sort_by l) h (All-sort_by P l hs)

  All-Reorder {κ} : (P : A → Type κ) {l r : List A} → Reorder l r → All P l → All P r
  All-Reorder P none_left h = h
  All-Reorder P (keep d) (h, hs) = (h, All-Reorder P d hs)
  All-Reorder P exchange (h, (k, hs)) = (k, (h, hs))
  All-Reorder P (chain d d') h = All-Reorder P d' (All-Reorder P d h)

  AreDistinct-Reorder : {l r : List A} → Reorder l r → AreDistinct l → AreDistinct r
  AreDistinct-Reorder none_left h = h
  AreDistinct-Reorder (keep d) (h, hs) = (All-Reorder _ d h, AreDistinct-Reorder d hs)
  AreDistinct-Reorder exchange ((h, hs), (k, ks)) = ((λ e. h (sym e), k), (hs, ks))
  AreDistinct-Reorder (chain d d') h = AreDistinct-Reorder d' (AreDistinct-Reorder d h)

  -- Lists with the same elements and no key twice have one sorted list.
  pub sort_by-Reorder : {l r : List A} → Reorder l r → AreDistinct l → sort_by l ≡ sort_by r
  unfolding sort_by
  sort_by-Reorder none_left h = refl
  sort_by-Reorder (keep {x = x} d) (h, hs) = ap (insert_by x) (sort_by-Reorder d hs)
  sort_by-Reorder (exchange {x = x} {y = y} {l = l}) ((h, hs), k) = insert_by_comm x y (sort_by l) h
  sort_by-Reorder (chain d d') h =
      sort_by-Reorder d h ∙ sort_by-Reorder d' (AreDistinct-Reorder d h)

  -- Keys that do not go down.
  abbrev pub IsAscending : List A → Type 0
  IsAscending [] = Unit
  IsAscending (x ∷ xs) = All (λ y. key x ≤ key y) xs × IsAscending xs

  insert_by-IsAscending : (x : A) (l : List A) → IsAscending l → IsAscending (insert_by x l)
  unfolding insert_by
  insert_by-IsAscending x [] h = (tt, tt)
  insert_by-IsAscending x (y ∷ l) (h, hs) = elim (Bool-cases (leb (key x) (key y))) [
    | inl e ↦ rw e ((ground (arith, e), All-mono _ _ l (λ z k. ground (arith, e, k)) h), (h, hs))
    | inr e ↦
        rw e (
          All-insert_by (λ z. key y ≤ key z) x l (ground (arith, e)) h,
          insert_by-IsAscending x l hs,
        )
  ]

  pub sort_by-IsAscending : (l : List A) → IsAscending (sort_by l)
  unfolding sort_by
  sort_by-IsAscending [] = tt
  sort_by-IsAscending (x ∷ l) = insert_by-IsAscending x (sort_by l) (sort_by-IsAscending l)

  Reorder_self : (l : List A) → Reorder l l
  Reorder_self [] = none_left
  Reorder_self (x ∷ l) = keep (Reorder_self l)

  insert_by-Reorder : (x : A) (l : List A) → Reorder (x ∷ l) (insert_by x l)
  unfolding insert_by
  insert_by-Reorder x [] = Reorder_self (x ∷ [])
  insert_by-Reorder x (y ∷ l) = elim (Bool-cases (leb (key x) (key y))) [
    | inl e ↦ rw e (Reorder_self (x ∷ y ∷ l))
    | inr e ↦ rw e (chain exchange (keep (insert_by-Reorder x l)))
  ]

  -- A sorted list has the elements of the list.
  pub Reorder-sort_by : (l : List A) → Reorder l (sort_by l)
  unfolding sort_by
  Reorder-sort_by [] = none_left
  Reorder-sort_by (x ∷ l) = chain (keep (Reorder-sort_by l)) (insert_by-Reorder x (sort_by l))
