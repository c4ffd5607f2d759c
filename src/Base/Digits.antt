-- ===== src/Base/Digits.antt =====
-- `str::parse` of integers.
use Prim.Native.Nat.{ℕ, ◌+◌, ◌-◌, ◌*◌, ◌^◌, ◌<◌}
use Prim.Native.Char.{code}
use Prim.Native.String.{String, [], ◌∷◌}
use mathlib.Core.Path.{◌≡◌}
use mathlib.Core.Bool.{◌&&◌}
use mathlib.Core.Option
use mathlib.Core.Option.{Option, none, some}
use native.Mathlib.Omega.{arith}
use stelliberty_m.Base.Tests.{eqb, leb, ltb, if◌then◌else◌}
use stelliberty_m.Base.Options.{and_then}
use stelliberty_m.Base.Int.{ℤ, pos, negsuc}

-- `char::to_digit` for a radix of 10 or 16.
abbrev pub digit : ℕ → ℕ → Option ℕ
digit radix c =
    if leb 48 c && leb c 57
    then some (c - 48)
    else (if eqb radix 16 && leb 97 c && leb c 102
        then some (c - 87)
        else (if eqb radix 16 && leb 65 c && leb c 70 then some (c - 55) else none))

-- The digits behind a number read so far.
unfoldable pub digits : ℕ → ℕ → String → Option ℕ
digits radix n [] = some n
digits radix n (c ∷ s) = and_then (digit radix (code c)) (λ d. digits radix (n * radix + d) s)

-- No digit at all is an error.
some_digits : ℕ → String → Option ℕ
some_digits radix [] = none
some_digits radix (c ∷ s) = digits radix 0 (c ∷ s)

-- One sign in front of the digits; `-` only for a signed type.
unsigned_text : String → String
unsigned_text [] = []
unsigned_text (c ∷ s) = if eqb (code c) b'+' then s else (c ∷ s)

below : ℕ → Option ℕ → Option ℕ
below bound none = none
below bound (some n) = if ltb n bound then some n else none

-- `from_str_radix` of an unsigned type whose values are below `bound`.
unfoldable pub parse_unsigned : ℕ → ℕ → String → Option ℕ
unfolding digits some_digits unsigned_text below
parse_unsigned radix bound s = below bound (some_digits radix (unsigned_text s))

negated : Option ℕ → Option ℤ
negated none = none
negated (some n) =
    if eqb n 0 then some (pos 0) else (if leb n (2 ^ 63) then some (negsuc (n - 1)) else none)

parse_signed : String → Option ℤ
parse_signed [] = none
parse_signed (c ∷ s) =
    if eqb (code c) b'-'
    then negated (some_digits 10 s)
    else Option.map pos (parse_unsigned 10 (2 ^ 63) (c ∷ s))

-- `parse::<i64>`.
unfoldable pub parse_i64 : String → Option ℤ
unfolding some_digits negated parse_signed parse_unsigned
parse_i64 s = parse_signed s

below-lt : (bound : ℕ) (o : Option ℕ) {n : ℕ} → below bound o ≡ some n → n < bound
unfolding below
below-lt bound none h = cc
below-lt bound (some m) h = ground arith

-- What is read fits the type.
pub parse_unsigned-lt :
    (radix bound : ℕ) (s : String) {n : ℕ} → parse_unsigned radix bound s ≡ some n → n < bound
unfolding parse_unsigned
parse_unsigned-lt radix bound s h = below-lt bound (some_digits radix (unsigned_text s)) h
