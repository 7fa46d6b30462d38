-- ===== src/Rpc/Sample.antt =====
-- Ids to test with (web/src/core/ws/ws-client.ts).
use mobilecoding.Base.{
  ℕ, zero, suc, ◌≡◌, refl, ap, sym, ◌∙◌, String, none, some, concat, strip_prefix,
  strip_prefix-concat,
}

-- Ids that differ: n letters.
abbrev pub stroke : ℕ → String
stroke zero = ""
stroke (suc n) = concat "i" (stroke n)

rest_of_stroke : (n : ℕ) → strip_prefix "i" (stroke (suc n)) ≡ some (stroke n)
rest_of_stroke n = strip_prefix-concat "i" (stroke n)

pub stroke_distinct : (m n : ℕ) → stroke m ≡ stroke n → m ≡ n
unfolding strip_prefix
stroke_distinct zero zero h = refl
stroke_distinct zero (suc n) h =
    let k : none ≡ some (stroke n) = ap (strip_prefix "i") h ∙ rest_of_stroke n in cc k
stroke_distinct (suc m) zero h =
    let k : some (stroke m) ≡ none = sym (rest_of_stroke m) ∙ ap (strip_prefix "i") h in cc k
stroke_distinct (suc m) (suc n) h =
    let k : some (stroke m) ≡ some (stroke n) =
      sym (rest_of_stroke m) ∙ ap (strip_prefix "i") h ∙ rest_of_stroke n in
    ap suc (stroke_distinct m n (cc k))
