-- ===== src/Base/Results.antt =====
-- `Result<T, String>`, the type of every fallible function of the modelled code, and `?` as a bind.
use Prim.Native.String
use Prim.Native.String.{String}
use mathlib.Core.Path.{◌≡◌, refl}
use mathlib.Core.Option.{Option, none, some}

pub data Result {ℓ} (A : Type ℓ) : Type ℓ where
  ok : A → Result A
  err : String → Result A

infixl 5 ◌>>=◌
-- `?`: the value goes on, an error is the result.
abbrev pub ◌>>=◌ {ℓ κ} :
    {Value : Type ℓ} {Next : Type κ} → Result Value → (Value → Result Next) → Result Next
err message >>= continue = err message
ok value >>= continue = continue value

-- `map_err(|e| format!("{prefix}{}", e))`.
abbrev pub map_err {ℓ} : {A : Type ℓ} → String → Result A → Result A
map_err prefix (ok a) = ok a
map_err prefix (err e) = err (String.◌++◌ prefix e)

-- `Option::ok_or`.
abbrev pub ok_or {ℓ} : {A : Type ℓ} → Option A → String → Result A
ok_or none e = err e
ok_or (some a) e = ok a

-- Where the whole is a success, the first part was one, and the rest went on from its value.
pub >>=-eq-ok {ℓ κ} :
    {Value : Type ℓ} {Next : Type κ} {out : Next} (first : Result Value)
    (rest : Value → Result Next)
    → (first >>= rest) ≡ ok out
    → (value : Value) × (first ≡ ok value) × (rest value ≡ ok out)
>>=-eq-ok (err message) rest failed = cc
>>=-eq-ok (ok value) rest works = (value, refl, works)

pub ok-injective {ℓ} : {A : Type ℓ} {a b : A} → ok a ≡ ok b → a ≡ b
ok-injective h = cc

pub ok_or-eq-ok {ℓ} :
    {A : Type ℓ} (o : Option A) (e : String) {a : A} → ok_or o e ≡ ok a → o ≡ some a
ok_or-eq-ok none e h = cc
ok_or-eq-ok (some a) e h = cc

pub map_err-eq-ok {ℓ} :
    {A : Type ℓ} (prefix : String) (r : Result A) {a : A} → map_err prefix r ≡ ok a → r ≡ ok a
map_err-eq-ok prefix (ok a) h = h
map_err-eq-ok prefix (err e) h = cc
