-- ===== src/Override/Script/Literal.antt =====
-- js_executor.rs: the escaped configuration is a quoted text of JavaScript that reads back as the
-- configuration.
use Prim.Native.Char.{Char, code}
use Prim.Native.String.{String, [], ◌∷◌, ◌++◌}
use mathlib.Core.Option
use text.Mathlib.TextEquality.{Char-path}
use text.Mathlib.TextLemmas.{nil-append, cons-append}
use stelliberty_m.Base.{
  ◌≡◌, Bool, true, false, ◌||◌, Option, none, some, eqb, if◌then◌else◌, Bool-cases, eqb_iff, inl,
  inr,
}
use stelliberty_m.Override.Script.{escape}

abbrev with_char : Char → String × String → String × String
with_char c (s, rest) = (c ∷ s, rest)

-- Reads the body of a text in single quotes, up to the quote that closes it, and gives the rest.
-- The flag says that a backslash came before. Of the escapes only those of the backslash and of the
-- quote are read.
pub read : Bool → String → Option (String × String)
read escaped [] = none
read true (c ∷ s) =
    let rest = Option.map (with_char c) (read false s) in
    if eqb (code c) b'\\' || eqb (code c) b'\'' then rest else none
read false (c ∷ s) =
    let after = read true s in
    let rest = Option.map (with_char c) (read false s) in
    if eqb (code c) b'\'' then some ("", s) else (if eqb (code c) b'\\' then after else rest)

escape-cons :
    (c : Char) (s : String)
    → escape (c ∷ s) ≡ (
        if eqb (code c) b'\\'
        then "\\" ∷ ("\\" ∷ escape s)
        else (if eqb (code c) b'\'' then "\\" ∷ ("'" ∷ escape s) else (c ∷ escape s)))
unfolding escape
escape-cons c s = elim (Bool-cases (eqb (code c) b'\\')) [
  | inl slash ↦ rw slash (rw (cons-append, cons-append, nil-append))
  | inr other ↦ rw other (elim (Bool-cases (eqb (code c) b'\'')) [
    | inl quote ↦ rw quote (rw (cons-append, cons-append, nil-append))
    | inr plain ↦ rw plain
  ])
]

-- Behind an opening quote, the escaped text and a closing quote are read as the text, whatever follows.
pub read-escape : (s rest : String) → read false (escape s ++ ("'" ++ rest)) ≡ some (s, rest)
unfolding read
read-escape [] rest = unfold escape in rw (nil-append, cons-append, nil-append)
read-escape (c ∷ s) rest = elim (Bool-cases (eqb (code c) b'\\')) [
  | inl slash ↦
      let same : c ≡ "\\" = Char-path c "\\" ((eqb_iff _ _).0 slash) in
      rw (escape-cons c s, slash, cons-append, cons-append, read-escape s rest, same)
  | inr other ↦ elim (Bool-cases (eqb (code c) b'\'')) [
    | inl quote ↦
        let same : c ≡ "'" = Char-path c "'" ((eqb_iff _ _).0 quote) in
        rw (escape-cons c s, other, quote, cons-append, cons-append, read-escape s rest, same)
    | inr plain ↦ rw (escape-cons c s, other, plain, cons-append, other, plain, read-escape s rest)
  ]
]
