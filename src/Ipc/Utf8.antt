-- ===== src/Ipc/Utf8.antt =====
-- `String::from_utf8`: the texts that bytes encode.
use Prim.Native.Nat.{compare, Ordering}
use Prim.Native.Char.{Char, char, IsLt}
use Prim.Native.String.{String}
use mathlib.Core.Option
use stelliberty_m.Base.{
  ◌≡◌, refl, ℕ, ◌+◌, ◌-◌, ◌*◌, ◌&&◌, List, [], ◌∷◌, Option, none, some, ltb, leb, eqb,
  if◌then◌else◌,
}

abbrev Both : Ordering → Ordering → Type 0
Both Ordering.lt o = IsLt o
Both Ordering.eq _ = ⊥
Both Ordering.gt _ = ⊥

abbrev Scalar : Ordering → Ordering → Ordering → Type 0
Scalar Ordering.lt _ _ = Unit
Scalar Ordering.eq o p = Both o p
Scalar Ordering.gt o p = Both o p

abbrev lt? : (o : Ordering) → Option (IsLt o)
lt? Ordering.lt = some tt
lt? Ordering.eq = none
lt? Ordering.gt = none

abbrev both? : (o p : Ordering) → Option (Both o p)
both? Ordering.lt p = lt? p
both? Ordering.eq p = none
both? Ordering.gt p = none

abbrev scalar? : (o p q : Ordering) → Option (Scalar o p q)
scalar? Ordering.lt p q = some tt
scalar? Ordering.eq p q = both? p q
scalar? Ordering.gt p q = both? p q

-- `char::from_u32`.
abbrev pub char_of : ℕ → Option Char
char_of n = Option.map (char n) (scalar? (compare n 55296) (compare 57343 n) (compare n 1114112))

-- Bytes that are still to come in a character, its bits so far, and the least value that needs as many.
pub record Partial : Type 0 where
  pub missing : ℕ
  pub bits : ℕ
  pub least : ℕ

abbrev pub between : Partial
between = record { missing = 0; bits = 0; least = 0 }

first_byte : ℕ → Option Partial
first_byte b =
    if leb 194 b && ltb b 224
    then some (record { missing = 1; bits = b - 192; least = 128 })
    else (if leb 224 b && ltb b 240
        then some (record { missing = 2; bits = b - 224; least = 2048 })
        else (if leb 240 b && ltb b 245
            then some (record { missing = 3; bits = b - 240; least = 65536 })
            else none))

-- The state behind a byte, and the character that it ends.
take_byte : Partial → ℕ → Option (Partial × Option ℕ)
take_byte p b =
    if eqb p.missing 0
    then (if ltb b 128 then some (between, some b) else Option.map (λ q. (q, none)) (first_byte b))
    else (if leb 128 b && ltb b 192
        then (let bits = p.bits * 64 + (b - 128) in
            if eqb p.missing 1
            then (if leb p.least bits then some (between, some bits) else none)
            else some (record { missing = p.missing - 1; bits = bits; least = p.least }, none))
        else none)

push : Option ℕ → Option String → Option String
push none rest = rest
push (some n) none = none
push (some n) (some s) = Option.map (λ c. String.◌∷◌ c s) (char_of n)

behind : Option (Partial × Option ℕ) → Option Partial
behind none = none
behind (some (p, emitted)) = some p

emitted_by : Option (Partial × Option ℕ) → Option ℕ
emitted_by none = none
emitted_by (some (p, emitted)) = emitted

decode_from : Option Partial → List ℕ → Option String
decode_from none bytes = none
decode_from (some p) [] = if eqb p.missing 0 then some "" else none
decode_from (some p) (b ∷ bytes) =
    let t = take_byte p b in push (emitted_by t) (decode_from (behind t) bytes)

unfoldable pub from_utf8 : List ℕ → Option String
unfolding first_byte take_byte push behind emitted_by decode_from
from_utf8 bytes = decode_from (some between) bytes

two_bytes : from_utf8 (97 ∷ 206 ∷ 187 ∷ []) ≡ some "aλ"
unfolding from_utf8
two_bytes = refl

surrogate : from_utf8 (237 ∷ 160 ∷ 128 ∷ []) ≡ none
unfolding from_utf8
surrogate = refl
