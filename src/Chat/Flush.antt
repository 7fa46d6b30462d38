-- ===== src/Chat/Flush.antt =====
-- The inputs that were queued while disconnected, sent again on reconnection: the effect on `status`
-- of the chat's provider (web/src/core/state/ChatContext.tsx). What a send does is `sendInput`'s; here
-- the n-th call of it ends as `ends n` says, and nothing else is queued before the last one ends.
use mobilecoding.Base.{
  ℕ, suc, ◌≡◌, refl, sym, ap, subst, ◌∙◌, String, Bool, true, false, List, [], ◌∷◌, ◌++◌, drop,
  last?, ◌==◌, if◌then◌else◌, Bool-cases, inl, inr, arith, eq_refl, eq_iff, some,
}
use mathlib.Core.List.{append-nil, append_assoc}
use mobilecoding.Chat.Receive.{same_text}
use mobilecoding.Chat.Reducer.{enqueue, member_of}
use mobilecoding.Chat.Lists.{IsNodup, NoRepeat}

-- How a call of `sendInput` ends: it returns and the input was sent, it puts the input into the queue
-- and returns (as it does while its own `state.status` is not `connected`), or it throws.
pub data SendEnd : Type 0 where
  delivers queues fails : SendEnd

pub record Flushed : Type 0 where
  -- the inputs that were sent, the failed one included
  pub attempted : List String
  -- the inputs that `QUEUE_INPUT` is dispatched for, by `sendInput` or after a failure, in this order
  pub requeued : List String
  pub failed : Bool

-- `queue.indexOf(text)`, for a text of the queue.
abbrev pub index_of : String → List String → ℕ
index_of txt [] = 0
index_of txt (x ∷ xs) = if x == txt then 0 else suc (index_of txt xs)

-- `queue.slice(queue.indexOf(text) + 1)`
abbrev pub after_first : String → List String → List String
after_first txt queue = drop (suc (index_of txt queue)) queue

-- The loop over the rest of the queue.
unfoldable pub flush_from : (ℕ → SendEnd) → ℕ → List String → List String → Flushed
flush_from ends n queue [] = record { attempted = []; requeued = []; failed = false }
flush_from ends n queue (txt ∷ rest) =
    let later = flush_from ends (suc n) queue rest in
    elim (ends n) [
      | delivers ↦ record later { attempted = txt ∷ later.attempted }
      | queues ↦ record later { requeued = txt ∷ later.requeued }
      | fails ↦ record { attempted = txt ∷ []; requeued = after_first txt queue; failed = true }
    ]

unfoldable pub flush_pending : (ℕ → SendEnd) → List String → Flushed
flush_pending ends queue = flush_from ends 0 queue queue

-- The actions `QUEUE_INPUT` of the inputs, one after another.
abbrev pub queue_all : List String → List String → List String
queue_all [] queue = queue
queue_all (x ∷ xs) queue = queue_all xs (enqueue x queue)

not_there :
    (x : String) (pre : List String) (txt : String) (rest : List String)
    → member_of x (pre ++ txt ∷ rest) ≡ false
    → (x == txt) ≡ true
    → ⊥
not_there x [] txt rest h e =
    let same : x ≡ txt = (eq_iff x txt).0 e in
    let found : (txt == x) ≡ true = ap (λ z. z == x) (sym same) ∙ eq_refl x in
    absurd (ground (arith, h, found))
not_there x (y ∷ pre) txt rest h e = not_there x pre txt rest (ground (arith, h)) e

after_first-split :
    (pre : List String) (txt : String) (rest : List String)
    → IsNodup (pre ++ txt ∷ rest)
    → after_first txt (pre ++ txt ∷ rest) ≡ rest
after_first-split [] txt rest h = rw (eq_refl txt) refl
after_first-split (x ∷ pre) txt rest (h, hs) = elim (Bool-cases (x == txt)) [
  | inl e ↦ absurd (not_there x pre txt rest h e)
  | inr e ↦ rw e (after_first-split pre txt rest hs)
]

-- The third list is the first two, one put into the other, each in its order.
pub data Merge : List String → List String → List String → Type 0 where
  done : Merge [] [] []
  left : (x : String) {l r m : List String} → Merge l r m → Merge (x ∷ l) r (x ∷ m)
  right : (x : String) {l r m : List String} → Merge l r m → Merge l (x ∷ r) (x ∷ m)

all_right : (r : List String) → Merge [] r r
all_right [] = done
all_right (x ∷ r) = right x (all_right r)

member_of-Merge :
    (x : String) {l r m : List String} → Merge l r m → member_of x m ≡ false → member_of x r ≡ false
member_of-Merge x done h = refl
member_of-Merge x (left y k) h = member_of-Merge x k (ground (arith, h))
member_of-Merge x (right y k) h = ground (arith, h, member_of-Merge x k (ground (arith, h)))

IsNodup-Merge : {l r m : List String} → Merge l r m → IsNodup m → IsNodup r
IsNodup-Merge done h = tt
IsNodup-Merge (left x k) (h, hs) = IsNodup-Merge k hs
IsNodup-Merge (right x k) (h, hs) = (member_of-Merge x k h, IsNodup-Merge k hs)

abbrev Merges : List String → Flushed → Type 0
Merges rest f = Merge f.attempted f.requeued rest

flush_from-Merge :
    (ends : ℕ → SendEnd) (n : ℕ) (pre rest : List String)
    → IsNodup (pre ++ rest)
    → Merges rest (flush_from ends n (pre ++ rest) rest)
unfolding flush_from
flush_from-Merge ends n pre [] h = done
flush_from-Merge ends n pre (txt ∷ rest) h =
    let queue = pre ++ txt ∷ rest in
    let later = flush_from ends (suc n) queue rest in
    let moved : (pre ++ txt ∷ []) ++ rest ≡ queue = append_assoc pre (txt ∷ []) rest in
    let merged : Merges rest later =
      subst (λ q. Merges rest (flush_from ends (suc n) q rest)) moved
        (flush_from-Merge ends (suc n) (pre ++ txt ∷ []) rest (subst IsNodup (sym moved) h)) in
    elim (ends n)
      as (λ o. Merges (txt ∷ rest) (elim o [
        | delivers ↦ record later { attempted = txt ∷ later.attempted }
        | queues ↦ record later { requeued = txt ∷ later.requeued }
        | fails ↦ record { attempted = txt ∷ []; requeued = after_first txt queue; failed = true }
      ])) [
        | delivers ↦ left txt merged
        | queues ↦ right txt merged
        | fails ↦ left txt (rw (after_first-split pre txt rest h) (all_right rest))
      ]

IsNodup-NoRepeat : (xs : List String) → IsNodup xs → NoRepeat xs
IsNodup-NoRepeat [] h = tt
IsNodup-NoRepeat (x ∷ []) h = tt
IsNodup-NoRepeat (x ∷ y ∷ xs) (h, hs) = (
  (λ p.
      let found : (y == x) ≡ true = ap (λ z. z == x) (sym p) ∙ eq_refl x in
      absurd (ground (arith, h, found))),
  IsNodup-NoRepeat (y ∷ xs) hs,
)

last-differs :
    (acc : List String) (x : String) (xs : List String)
    → NoRepeat (acc ++ x ∷ xs)
    → same_text (last? acc) (some x) ≡ false
last-differs [] x xs h = refl
last-differs (y ∷ []) x xs (d, h) = elim (Bool-cases (y == x)) [
  | inl e ↦ absurd (d ((eq_iff y x).0 e))
  | inr e ↦ e
]
last-differs (y ∷ z ∷ acc) x xs (d, h) = last-differs (z ∷ acc) x xs h

queue_all-append : (xs acc : List String) → NoRepeat (acc ++ xs) → queue_all xs acc ≡ acc ++ xs
unfolding enqueue
queue_all-append [] acc h = sym (append-nil acc)
queue_all-append (x ∷ xs) acc h =
    let moved : (acc ++ x ∷ []) ++ xs ≡ acc ++ x ∷ xs = append_assoc acc (x ∷ []) xs in
    rw (last-differs acc x xs h)
      (queue_all-append xs (acc ++ x ∷ []) (subst NoRepeat (sym moved) h) ∙ moved)

-- Where no input is queued twice and nothing else is queued meanwhile: each input of the queue is
-- either sent, successfully or not, once and in its turn, or stands in the queue again, once and in
-- the order it had, as `sendInput` itself queued it or a send before it failed; none is both.
pub flush_pending-split :
    (ends : ℕ → SendEnd) (queue : List String)
    → IsNodup queue
    → let f = flush_pending ends queue in Merge f.attempted (queue_all f.requeued []) queue
unfolding flush_pending
flush_pending-split ends queue h =
    let f = flush_from ends 0 queue queue in
    let split : Merge f.attempted f.requeued queue = flush_from-Merge ends 0 [] queue h in
    let kept : NoRepeat f.requeued = IsNodup-NoRepeat f.requeued (IsNodup-Merge split h) in
    subst (λ q. Merge f.attempted q queue) (sym (queue_all-append f.requeued [] kept)) split
