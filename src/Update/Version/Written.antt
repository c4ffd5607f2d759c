-- ===== src/Update/Version/Written.antt =====
-- app_update.rs: versions as they are written.
use Prim.Native.Char.{code}
use Prim.Native.String
use text.Mathlib.TextLemmas.{nil-append, cons-append}
use stelliberty_m.Base.{
  ℕ, zero, suc, ◌^◌, ◌<◌, ◌≡◌, refl, ◌∙◌, ap, String, false, List, [], ◌∷◌, map, eqb, split,
  filter_map, parse_unsigned, trim_start_if, All,
}
use stelliberty_m.Base.Numerals.{
  Digit, d0, d1, d2, d3, d4, d5, d6, d7, d8, d9, da, db, dc, dd, de, df, digit_char, Numeral,
  digits_text, numeral_text, numeral_value, Decimal, parse_unsigned-Decimal,
}
use stelliberty_m.Update.Version.{parts}

-- A version: its segments, of which there is one.
pub record Written : Type 0 where
  pub major : Numeral
  pub minors : List Numeral

abbrev pub segments : Written → List Numeral
segments v = v.major ∷ v.minors

-- The segments are numbers that a `u32` holds.
abbrev pub IsVersion : Written → Type 0
IsVersion v = All (λ n. Decimal n × (numeral_value 10 n < 2 ^ 32)) (segments v)

abbrev pub values : Written → List ℕ
values v = map (λ n. numeral_value 10 n) (segments v)

-- The segments with a point between each two.
abbrev minors_text : List Numeral → String
minors_text [] = String.[]
minors_text (n ∷ ns) = String.◌∷◌ "." (String.◌++◌ (numeral_text n) (minors_text ns))

abbrev pub version_text : Written → String
version_text v = String.◌++◌ (numeral_text v.major) (minors_text v.minors)

-- A text behind `n` times "v".
abbrev pub tagged : ℕ → String → String
tagged zero s = s
tagged (suc n) s = String.◌∷◌ "v" (tagged n s)

digit-other :
    (d : Digit)
    → (eqb (code (digit_char d)) b'.' ≡ false) × (eqb (code (digit_char d)) b'v' ≡ false)
digit-other d0 = (refl, refl)
digit-other d1 = (refl, refl)
digit-other d2 = (refl, refl)
digit-other d3 = (refl, refl)
digit-other d4 = (refl, refl)
digit-other d5 = (refl, refl)
digit-other d6 = (refl, refl)
digit-other d7 = (refl, refl)
digit-other d8 = (refl, refl)
digit-other d9 = (refl, refl)
digit-other da = (refl, refl)
digit-other db = (refl, refl)
digit-other dc = (refl, refl)
digit-other dd = (refl, refl)
digit-other de = (refl, refl)
digit-other df = (refl, refl)

-- A piece in front of others.
abbrev in_front : String → List String → List String
in_front s [] = s ∷ []
in_front s (t ∷ ts) = String.◌++◌ s t ∷ ts

split-digits :
    (ds : List Digit) (s t : String) (ts : List String)
    → split b'.' s ≡ t ∷ ts
    → split b'.' (String.◌++◌ (digits_text ds) s) ≡ String.◌++◌ (digits_text ds) t ∷ ts
unfolding split
split-digits [] s t ts h = rw (nil-append s, nil-append t) h
split-digits (d ∷ ds) s t ts h =
    rw
      (
        cons-append (digit_char d) (digits_text ds) s,
        cons-append (digit_char d) (digits_text ds) t,
        (digit-other d).0,
        split-digits ds s t ts h,
      )
      refl

append-empty : (s : String) → String.◌++◌ s String.[] ≡ s
append-empty String.[] = rw (nil-append) refl
append-empty (String.◌∷◌ c s) = rw (cons-append, append-empty s) refl

split-segment :
    (n : Numeral) (s : String) (ts : List String)
    → split b'.' s ≡ String.[] ∷ ts
    → split b'.' (String.◌++◌ (numeral_text n) s) ≡ numeral_text n ∷ ts
split-segment n s ts h =
    split-digits (n.first ∷ n.others) s String.[] ts h
    ∙ ap (λ t. t ∷ ts) (append-empty (numeral_text n))

-- What follows a segment begins with a point, or is empty.
split-minors :
    (ns : List Numeral) → split b'.' (minors_text ns) ≡ String.[] ∷ map (λ n. numeral_text n) ns
unfolding split
split-minors [] = refl
split-minors (n ∷ ns) =
    ap (λ ts. String.[] ∷ ts)
      (split-segment n (minors_text ns) (map (λ k. numeral_text k) ns) (split-minors ns))

read-segments :
    (ns : List Numeral)
    → All (λ n. Decimal n × (numeral_value 10 n < 2 ^ 32)) ns
    → filter_map (λ s. parse_unsigned 10 (2 ^ 32) s) (map (λ n. numeral_text n) ns)
      ≡ map (λ n. numeral_value 10 n) ns
read-segments [] a = refl
read-segments (n ∷ ns) ((decimal, fits), a) =
    rw (parse_unsigned-Decimal (2 ^ 32) n decimal fits, read-segments ns a) refl

-- The parts of a written version are the values of its segments.
pub parts-version_text : (v : Written) → IsVersion v → parts (version_text v) ≡ values v
unfolding parts
parts-version_text v a =
    ap (λ ss. filter_map (λ s. parse_unsigned 10 (2 ^ 32) s) ss)
      (split-segment v.major (minors_text v.minors) (map (λ n. numeral_text n) v.minors)
        (split-minors v.minors))
    ∙ read-segments (segments v) a

-- Without the "v" in front a tag is its version.
pub trim-tagged :
    (n : ℕ) (v : Written)
    → trim_start_if (λ c. eqb c b'v') (tagged n (version_text v)) ≡ version_text v
unfolding trim_start_if
trim-tagged zero v = rw (cons-append, (digit-other v.major.first).1) refl
trim-tagged (suc n) v = trim-tagged n v
