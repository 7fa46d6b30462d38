-- ===== src/Json.antt =====
-- Parsed JSON values, and the tests that the clients make on values of unknown type.
-- A JSON number is taken to be an integer; the payloads that the clients read hold token counts.
use mobilecoding.Base.{
  ℕ, suc, zero, ◌+◌, ◌-◌, ◌*◌, ◌≡◌, refl, String, Bool, true, false, ◌||◌, ◌&&◌, Option, none, some,
  List, [], ◌∷◌, eqb, leb, if◌then◌else◌, ◌==◌, codes,
}

-- `negsuc n` is -(n + 1).
pub data ℤ : Type 0 where
  pos : ℕ → ℤ
  negsuc : ℕ → ℤ

abbrev pub is_pos : ℤ → Bool
is_pos (pos zero) = false
is_pos (pos (suc n)) = true
is_pos (negsuc n) = false

mutual
  pub data Json : Type 0 where
    null : Json
    bool : Bool → Json
    num : ℤ → Json
    str : String → Json
    arr : Items → Json
    obj : Fields → Json

  pub data Items : Type 0 where
    nil : Items
    cons : Json → Items → Items

  pub data Fields : Type 0 where
    end : Fields
    field : String → Json → Fields → Fields

-- A value that is neither `undefined` nor `null`.
abbrev pub present : Json → Option Json
present null = none
present (bool b) = some (bool b)
present (num n) = some (num n)
present (str s) = some (str s)
present (arr xs) = some (arr xs)
present (obj fs) = some (obj fs)

-- `o[key]`, with `undefined` and `null` as `none`: what `??` falls through. Keys are distinct.
unfoldable pub member : String → Fields → Option Json
member key end = none
member key (field k v fs) = if k == key then present v else member key fs

-- White space as `parseInt` skips it.
unfoldable pub is_space : ℕ → Bool
is_space c =
    (leb 9 c && leb c 13)
    || eqb c 32
    || eqb c 160
    || eqb c 0x1680
    || (leb 0x2000 c && leb c 0x200a)
    || eqb c 0x2028
    || eqb c 0x2029
    || eqb c 0x202f
    || eqb c 0x205f
    || eqb c 0x3000
    || eqb c 0xfeff

pub skip_space : List ℕ → List ℕ
skip_space [] = []
skip_space (c ∷ cs) = if is_space c then skip_space cs else c ∷ cs

abbrev pub is_digit : ℕ → Bool
is_digit c = leb b'0' c && leb c b'9'

-- The longest run of digits, on top of the digits read so far (`none`: no digit yet).
pub digits_from : Option ℕ → List ℕ → Option ℕ
digits_from acc [] = acc
digits_from none (c ∷ cs) = if is_digit c then digits_from (some (c - b'0')) cs else none
digits_from (some n) (c ∷ cs) =
    if is_digit c then digits_from (some (n * 10 + (c - b'0'))) cs else some n

abbrev negate : ℕ → ℤ
negate zero = pos 0
negate (suc n) = negsuc n

abbrev signed : (ℕ → ℤ) → Option ℕ → Option ℤ
signed f none = none
signed f (some n) = some (f n)

pub read_signed : List ℕ → Option ℤ
read_signed [] = none
read_signed (c ∷ cs) =
    if eqb c b'-'
    then signed negate (digits_from none cs)
    else if eqb c b'+'
    then signed pos (digits_from none cs)
    else signed pos (digits_from none (c ∷ cs))

-- `parseInt(s, 10)`, with `NaN` as `none`.
unfoldable pub parse_int : String → Option ℤ
unfolding read_signed digits_from skip_space is_space
parse_int s = read_signed (skip_space (codes s))

parse_int_tests :
    (parse_int " 42k" ≡ some (pos 42)) × (parse_int "-7" ≡ some (negsuc 6)) × (parse_int "k" ≡ none)
unfolding parse_int
parse_int_tests = (refl, refl, refl)
