-- ===== src/Rpc/Ledger.antt =====
-- The ledger of requests: where a promise stands (web/src/core/ws/ws-client.ts).
use mobilecoding.Base.{
  ℕ, ◌+◌, ◌<◌, ◌≡◌, refl, Bool, true, some, List, [], ◌∷◌, ◌++◌, arith, eqb, ltb, All,
  if◌then◌else◌, Bool-cases, inl, inr,
}
use mobilecoding.Rpc.Calls.{Request, Entry, Outcome, Calls, no_calls, find_first, remove_first}

-- How often a ticket stands in the queue, among the entries, and among the settled ones.
abbrev pub in_queue : ℕ → List Request → ℕ
in_queue t [] = 0
in_queue t (r ∷ rs) = (if eqb r.ticket t then 1 else 0) + in_queue t rs

abbrev pub in_entries : ℕ → List Entry → ℕ
in_entries t [] = 0
in_entries t (e ∷ es) = (if eqb e.ticket t then 1 else 0) + in_entries t es

abbrev pub in_settled : ℕ → List (ℕ × Outcome) → ℕ
in_settled t [] = 0
in_settled t ((u, o) ∷ r) = (if eqb u t then 1 else 0) + in_settled t r

abbrev pub places : ℕ → Calls → ℕ
places t c = in_queue t c.queue + in_entries t c.pending + in_settled t c.settled

-- The timers that are armed are those of the pending entries, whose numbers have been used; each
-- promise made is queued, pending or settled, in one of these places and once there.
pub record Inv (c : Calls) : Type 0 where
  pub armed : c.timers ≡ c.pending
  pub used : All (λ e. e.call < c.made) c.pending
  pub once : (t : ℕ) → places t c ≡ (if ltb t c.issued then 1 else 0)

pub no_calls-Inv : Inv no_calls
no_calls-Inv = record { armed = refl; used = tt; once = λ t. ground arith }

pub in_queue-append :
    (t : ℕ) (xs ys : List Request) → in_queue t (xs ++ ys) ≡ in_queue t xs + in_queue t ys
in_queue-append t [] ys = omega arith
in_queue-append t (x ∷ xs) ys = omega (arith, in_queue-append t xs ys)

pub in_entries-append :
    (t : ℕ) (xs ys : List Entry) → in_entries t (xs ++ ys) ≡ in_entries t xs + in_entries t ys
in_entries-append t [] ys = omega arith
in_entries-append t (x ∷ xs) ys = omega (arith, in_entries-append t xs ys)

pub in_settled-append :
    (t : ℕ) (xs ys : List (ℕ × Outcome))
    → in_settled t (xs ++ ys) ≡ in_settled t xs + in_settled t ys
in_settled-append t [] ys = omega arith
in_settled-append t ((u, o) ∷ xs) ys = omega (arith, in_settled-append t xs ys)

-- What a removal takes away is the entry that the search finds.
pub in_entries-remove_first :
    (t : ℕ) (p : Entry → Bool) (es : List Entry) (e : Entry)
    → find_first p es ≡ some e
    → in_entries t es ≡ (if eqb e.ticket t then 1 else 0) + in_entries t (remove_first p es)
in_entries-remove_first t p [] e h = cc
in_entries-remove_first t p (x ∷ es) e h = elim (Bool-cases (p x)) [
  | inl q ↦ ground (arith, q, h)
  | inr q ↦ rw q (omega (arith, in_entries-remove_first t p es e (rw q at h)))
]

pub All-remove_first {κ} :
    (P : Entry → Type κ) (p : Entry → Bool) (es : List Entry) → All P es → All P (remove_first p es)
All-remove_first P p [] h = tt
All-remove_first P p (x ∷ es) (h, hs) = elim (Bool-cases (p x)) [
  | inl q ↦ rw q hs
  | inr q ↦ rw q (h, All-remove_first P p es hs)
]

pub remove_first-agree :
    (p q : Entry → Bool) (es : List Entry)
    → ((e : Entry) → p e ≡ q e)
    → remove_first p es ≡ remove_first q es
remove_first-agree p q [] h = refl
remove_first-agree p q (e ∷ es) h = rw (h e, remove_first-agree p q es h)

pub find_first_sound :
    (p : Entry → Bool) (es : List Entry) (e : Entry) → find_first p es ≡ some e → p e ≡ true
find_first_sound p [] e h = cc
find_first_sound p (x ∷ es) e h = elim (Bool-cases (p x)) [
  | inl q ↦ ground (arith, q, h)
  | inr q ↦ find_first_sound p es e (rw q at h)
]

pub find_first-agree :
    (p q : Entry → Bool) (es : List Entry)
    → ((e : Entry) → p e ≡ q e)
    → find_first p es ≡ find_first q es
find_first-agree p q [] h = refl
find_first-agree p q (e ∷ es) h = rw (h e, find_first-agree p q es h)
