-- ===== src/Base/Numerals.antt =====
-- Numbers as they are written, and `str::parse` on them.
use Prim.Native.Nat.{ℕ, ◌+◌, ◌*◌, ◌^◌, ◌<◌, suc}
use Prim.Native.Char.{Char, code}
use Prim.Native.String.{String}
use mathlib.Core.Path.{◌≡◌, refl, ◌∙◌, ap}
use mathlib.Core.Bool.{true, false}
use mathlib.Core.List.{List, [], ◌∷◌}
use mathlib.Core.Option.{some}
use native.Mathlib.Omega.{arith}
use native.Mathlib.Numerals.{unary_clauses}
use stelliberty_m.Base.Tests.{eqb, ltb}
use stelliberty_m.Base.Lists.{length, All}
use stelliberty_m.Base.Digits.{digit, digits, parse_unsigned}

pub data Digit : Type 0 where
  d0 d1 d2 d3 d4 d5 d6 d7 d8 d9 da db dc dd de df : Digit

abbrev pub digit_value : Digit → ℕ
digit_value d0 = 0
digit_value d1 = 1
digit_value d2 = 2
digit_value d3 = 3
digit_value d4 = 4
digit_value d5 = 5
digit_value d6 = 6
digit_value d7 = 7
digit_value d8 = 8
digit_value d9 = 9
digit_value da = 10
digit_value db = 11
digit_value dc = 12
digit_value dd = 13
digit_value de = 14
digit_value df = 15

abbrev pub digit_char : Digit → Char
digit_char d0 = "0"
digit_char d1 = "1"
digit_char d2 = "2"
digit_char d3 = "3"
digit_char d4 = "4"
digit_char d5 = "5"
digit_char d6 = "6"
digit_char d7 = "7"
digit_char d8 = "8"
digit_char d9 = "9"
digit_char da = "a"
digit_char db = "b"
digit_char dc = "c"
digit_char dd = "d"
digit_char de = "e"
digit_char df = "f"

abbrev pub IsDecimal : Digit → Type 0
IsDecimal d = digit_value d < 10

-- A number: its digits, of which the first has the highest place.
pub record Numeral : Type 0 where
  pub first : Digit
  pub others : List Digit

abbrev pub digits_text : List Digit → String
digits_text [] = String.[]
digits_text (d ∷ ds) = String.◌∷◌ (digit_char d) (digits_text ds)

abbrev pub numeral_text : Numeral → String
numeral_text n = String.◌∷◌ (digit_char n.first) (digits_text n.others)

abbrev pub digits_value : ℕ → List Digit → ℕ
digits_value radix [] = 0
digits_value radix (d ∷ ds) = digit_value d * radix ^ length ds + digits_value radix ds

abbrev pub numeral_value : ℕ → Numeral → ℕ
numeral_value radix n = digits_value radix (n.first ∷ n.others)

abbrev pub Decimal : Numeral → Type 0
Decimal n = All IsDecimal (n.first ∷ n.others)

digit-hex : (d : Digit) → digit 16 (code (digit_char d)) ≡ some (digit_value d)
digit-hex d0 = refl
digit-hex d1 = refl
digit-hex d2 = refl
digit-hex d3 = refl
digit-hex d4 = refl
digit-hex d5 = refl
digit-hex d6 = refl
digit-hex d7 = refl
digit-hex d8 = refl
digit-hex d9 = refl
digit-hex da = refl
digit-hex db = refl
digit-hex dc = refl
digit-hex dd = refl
digit-hex de = refl
digit-hex df = refl

digit-decimal : (d : Digit) → IsDecimal d → digit 10 (code (digit_char d)) ≡ some (digit_value d)
digit-decimal d0 h = refl
digit-decimal d1 h = refl
digit-decimal d2 h = refl
digit-decimal d3 h = refl
digit-decimal d4 h = refl
digit-decimal d5 h = refl
digit-decimal d6 h = refl
digit-decimal d7 h = refl
digit-decimal d8 h = refl
digit-decimal d9 h = refl
digit-decimal da h = absurd (omega arith)
digit-decimal db h = absurd (omega arith)
digit-decimal dc h = absurd (omega arith)
digit-decimal dd h = absurd (omega arith)
digit-decimal de h = absurd (omega arith)
digit-decimal df h = absurd (omega arith)

-- Digits that the radix has.
abbrev IsRead : ℕ → Digit → Type 0
IsRead radix d = digit radix (code (digit_char d)) ≡ some (digit_value d)

next_place : (n r d q v : ℕ) → (n * r + d) * q + v ≡ n * (q * r) + (d * q + v)
next_place n r d q v = grind arith

digits-text :
    (radix n : ℕ) (ds : List Digit)
    → All (IsRead radix) ds
    → digits radix n (digits_text ds) ≡ some (n * radix ^ length ds + digits_value radix ds)
unfolding digits
digits-text radix n [] a =
    let one : radix ^ 0 ≡ 1 = simp unary_clauses refl in
    let e : n ≡ n * 1 + 0 = omega arith in rw one (ap some e)
digits-text radix n (d ∷ ds) (h, a) =
    let power : radix ^ suc (length ds) ≡ radix ^ length ds * radix = simp unary_clauses refl in
    rw (h, power)
      (digits-text radix (n * radix + digit_value d) ds a
        ∙ ap some (next_place n radix (digit_value d) (radix ^ length ds) (digits_value radix ds)))

not_plus : (d : Digit) → eqb (code (digit_char d)) b'+' ≡ false
not_plus d0 = refl
not_plus d1 = refl
not_plus d2 = refl
not_plus d3 = refl
not_plus d4 = refl
not_plus d5 = refl
not_plus d6 = refl
not_plus d7 = refl
not_plus d8 = refl
not_plus d9 = refl
not_plus da = refl
not_plus db = refl
not_plus dc = refl
not_plus dd = refl
not_plus de = refl
not_plus df = refl

under : (bound n : ℕ) → n < bound → ltb n bound ≡ true
under bound n h = ground arith

no_prefix : (q v : ℕ) → 0 * q + v ≡ v
no_prefix q v = omega arith

read-numeral :
    (radix bound : ℕ) (n : Numeral)
    → All (IsRead radix) (n.first ∷ n.others)
    → numeral_value radix n < bound
    → parse_unsigned radix bound (numeral_text n) ≡ some (numeral_value radix n)
unfolding parse_unsigned
read-numeral radix bound n a fits =
    rw
      (
        not_plus n.first,
        digits-text radix 0 (n.first ∷ n.others) a,
        no_prefix (radix ^ length (n.first ∷ n.others)) (numeral_value radix n),
        under bound (numeral_value radix n) fits,
      )
      refl

hex_digits : (ds : List Digit) → All (IsRead 16) ds
hex_digits [] = tt
hex_digits (d ∷ ds) = (digit-hex d, hex_digits ds)

decimal_digits : (ds : List Digit) → All IsDecimal ds → All (IsRead 10) ds
decimal_digits [] a = tt
decimal_digits (d ∷ ds) (h, a) = (digit-decimal d h, decimal_digits ds a)

-- A number that is written in radix 16 is read as its value, where the type holds it.
pub parse_unsigned-hex :
    (bound : ℕ) (n : Numeral)
    → numeral_value 16 n < bound
    → parse_unsigned 16 bound (numeral_text n) ≡ some (numeral_value 16 n)
parse_unsigned-hex bound n h = read-numeral 16 bound n (hex_digits (n.first ∷ n.others)) h

-- The same in radix 10.
pub parse_unsigned-Decimal :
    (bound : ℕ) (n : Numeral)
    → Decimal n
    → numeral_value 10 n < bound
    → parse_unsigned 10 bound (numeral_text n) ≡ some (numeral_value 10 n)
parse_unsigned-Decimal bound n a h =
    read-numeral 10 bound n (decimal_digits (n.first ∷ n.others) a) h
