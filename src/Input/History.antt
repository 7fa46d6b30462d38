-- ===== src/Input/History.antt =====
-- The history of inputs (web/src/features/terminal/InputBar.tsx).
use mobilecoding.Base.{
  ℕ, suc, zero, ◌≤◌, ◌≡◌, refl, String, Bool, false, not, List, [], ◌∷◌, length, take, filter,
  length-take, Bool-cases, inl, inr, arith, ◌==◌,
}
use mobilecoding.Chat.Reducer.{member_of}
use mobilecoding.Chat.Lists.{IsNodup}
use mobilecoding.Input.{history_max, remember}

-- No input is listed twice, and there are at most 50.
abbrev pub IsHistory : List String → Type 0
IsHistory h = IsNodup h × (length h ≤ history_max)

member_of-filter :
    (p : String → Bool) (x : String) (xs : List String)
    → member_of x xs ≡ false
    → member_of x (filter p xs) ≡ false
member_of-filter p x [] h = refl
member_of-filter p x (y ∷ xs) h = elim (Bool-cases (p y)) [
  | inl e ↦ rw e (ground (arith, h, member_of-filter p x xs (ground (arith, h))))
  | inr e ↦ rw e (member_of-filter p x xs (ground (arith, h)))
]

IsNodup-filter : (p : String → Bool) (xs : List String) → IsNodup xs → IsNodup (filter p xs)
IsNodup-filter p [] h = tt
IsNodup-filter p (x ∷ xs) (h, hs) = elim (Bool-cases (p x)) [
  | inl e ↦ rw e (member_of-filter p x xs h, IsNodup-filter p xs hs)
  | inr e ↦ rw e (IsNodup-filter p xs hs)
]

filtered_out : (x : String) (xs : List String) → member_of x (filter (λ h. not (h == x)) xs) ≡ false
filtered_out x [] = refl
filtered_out x (y ∷ xs) = elim (Bool-cases (y == x)) [
  | inl e ↦ rw e (filtered_out x xs)
  | inr e ↦ rw (e, e) (filtered_out x xs)
]

member_of-take :
    (n : ℕ) (x : String) (xs : List String)
    → member_of x xs ≡ false
    → member_of x (take n xs) ≡ false
member_of-take zero x xs h = refl
member_of-take (suc n) x [] h = refl
member_of-take (suc n) x (y ∷ xs) h = ground (arith, h, member_of-take n x xs (ground (arith, h)))

IsNodup-take : (n : ℕ) (xs : List String) → IsNodup xs → IsNodup (take n xs)
IsNodup-take zero xs h = tt
IsNodup-take (suc n) [] h = tt
IsNodup-take (suc n) (x ∷ xs) (h, hs) = (member_of-take n x xs h, IsNodup-take n xs hs)

-- Remembering an input keeps the history without repeats and at most 50 long, and puts the input
-- first.
remember-IsHistory :
    (txt : String) (h : List String)
    → IsHistory h
    → IsHistory (remember txt h) × (take 1 (remember txt h) ≡ txt ∷ [])
unfolding remember
remember-IsHistory txt h (nodup, small) =
    let kept = filter (λ x. not (x == txt)) h in
    (
      (
        IsNodup-take history_max (txt ∷ kept) (filtered_out txt h, IsNodup-filter _ h nodup),
        omega (arith, length-take history_max (txt ∷ kept)),
      ),
      refl,
    )
