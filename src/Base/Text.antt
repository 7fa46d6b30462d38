-- ===== src/Base/Text.antt =====
-- Texts: what the clients do with a string beyond comparing it.
use Prim.Native.Nat.{ℕ, zero, suc}
use Prim.Native.Char.{code}
use Prim.Native.String
use Prim.Native.String.{String}
use mathlib.Core.Path.{◌≡◌, ap}
use mathlib.Core.Bool.{Bool, true, false, ◌||◌}
use mathlib.Core.Option.{Option, none, some}
use mathlib.Core.List.{List, [], ◌∷◌}
use native.Mathlib.Omega.{arith}
use text.Mathlib.TextEquality.{Char-path}
use text.Mathlib.TextLemmas.{nil-append, cons-append}
use mobilecoding.Base.Tests.{eqb, if◌then◌else◌, is_some}

-- The code points of a text.
abbrev pub codes : String → List ℕ
codes String.[] = []
codes (String.◌∷◌ c s) = code c ∷ codes s

abbrev pub concat : String → String → String
concat s t = String.◌++◌ s t

-- What follows the prefix, if the text starts with it.
unfoldable pub strip_prefix : String → String → Option String
strip_prefix String.[] s = some s
strip_prefix (String.◌∷◌ c p) String.[] = none
strip_prefix (String.◌∷◌ c p) (String.◌∷◌ d s) =
    if eqb (code c) (code d) then strip_prefix p s else none

abbrev pub has_prefix : String → String → Bool
has_prefix p s = is_some (strip_prefix p s)

pub strip_prefix_sound : (p s r : String) → strip_prefix p s ≡ some r → s ≡ concat p r
unfolding strip_prefix
strip_prefix_sound String.[] s r h = ground (arith, nil-append r)
strip_prefix_sound (String.◌∷◌ c p) String.[] r h = cc
strip_prefix_sound (String.◌∷◌ c p) (String.◌∷◌ d s) r h =
    ground (arith, cons-append c p r, strip_prefix_sound p s r, Char-path c d)

pub strip_prefix-concat : (p r : String) → strip_prefix p (concat p r) ≡ some r
unfolding strip_prefix
strip_prefix-concat String.[] r = ap some (nil-append r)
strip_prefix-concat (String.◌∷◌ c p) r =
    rw (cons-append c p r) (ground (arith, strip_prefix-concat p r))

-- `x || y` on strings: the empty string is falsy.
abbrev pub is_empty : String → Bool
is_empty String.[] = true
is_empty (String.◌∷◌ c s) = false

abbrev pub or_text : String → String → String
or_text s t = if is_empty s then t else s

-- An optional string is truthy if it is there and not empty.
abbrev pub truthy : Option String → Bool
truthy none = false
truthy (some String.[]) = false
truthy (some (String.◌∷◌ c s)) = true

-- `x || y` on optional strings.
abbrev pub or_truthy : Option String → Option String → Option String
or_truthy a b = if truthy a then a else b

-- `x || null`.
abbrev pub or_null : Option String → Option String
or_null a = if truthy a then a else none

abbrev pub text_of : Option String → String
text_of none = ""
text_of (some s) = s

-- `s.includes(part)`
unfoldable pub includes : String → String → Bool
unfolding strip_prefix
includes part String.[] = has_prefix part String.[]
includes part (String.◌∷◌ c s) = has_prefix part (String.◌∷◌ c s) || includes part s

-- `s.length`, in code points.
unfoldable pub text_length : String → ℕ
text_length String.[] = 0
text_length (String.◌∷◌ c s) = suc (text_length s)

-- `s.slice(0, n)`
unfoldable pub text_take : ℕ → String → String
text_take zero s = ""
text_take (suc n) String.[] = ""
text_take (suc n) (String.◌∷◌ c s) = String.◌∷◌ c (text_take n s)

-- `parts.join(sep)`
unfoldable pub join : String → List String → String
join sep [] = ""
join sep (p ∷ []) = p
join sep (p ∷ q ∷ ps) = concat p (concat sep (join sep (q ∷ ps)))
