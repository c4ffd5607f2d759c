-- ===== src/Base/Lists.antt =====
-- Lists measured by the native numbers, and tests over lists that run.
use Prim.Native.Nat.{ℕ, suc, ◌+◌}
use mathlib.Core.Path.{◌≡◌, refl, ap, ◌∙◌}
use mathlib.Core.Logic.{inl, inr}
use mathlib.Core.Bool.{Bool, true, false, ◌&&◌, ◌||◌}
use mathlib.Core.Option.{Option, none, some}
use mathlib.Core.List.{List, [], ◌∷◌, ◌++◌, Memᴰ}
use mathlib.Core.List.Memᴰ.{cases_cons}
use stelliberty_m.Base.Tests.{if◌then◌else◌, Bool-cases, Option-cases}
use native.Mathlib.Omega.{arith}

pub or-false : (a b : Bool) → (a || b) ≡ false → (a ≡ false) × (b ≡ false)
or-false true b h = cc
or-false false b h = (refl, h)

module _ {ℓ} {A : Type ℓ} where
  abbrev pub length : List A → ℕ
  length [] = 0
  length (x ∷ xs) = suc (length xs)

  abbrev pub any : (A → Bool) → List A → Bool
  any p [] = false
  any p (x ∷ xs) = p x || any p xs

  abbrev pub all : (A → Bool) → List A → Bool
  all p [] = true
  all p (x ∷ xs) = p x && all p xs

  pub length-append : (xs ys : List A) → length (xs ++ ys) ≡ length xs + length ys
  length-append [] ys = omega arith
  length-append (x ∷ xs) ys = omega (arith, length-append xs ys)

-- A predicate that holds of every element.
abbrev pub All {ℓ κ} : {A : Type ℓ} → (A → Type κ) → List A → Type κ
All P [] = Unit
All P (x ∷ xs) = P x × All P xs

module _ {ℓ} {A : Type ℓ} where
  -- `Iterator::filter`, on a Boolean test.
  abbrev pub filter : (A → Bool) → List A → List A
  filter p [] = []
  filter p (x ∷ xs) = let rest = filter p xs in if p x then x ∷ rest else rest

  pub mem-filter :
      (p : A → Bool) (xs : List A) (a : A) → Memᴰ a (filter p xs) → Memᴰ a xs × (p a ≡ true)
  mem-filter p [] a m = elim m [ ]
  mem-filter p (x ∷ xs) a m = elim (Bool-cases (p x)) [
    | inl e ↦ elim (cases_cons (rw e at m)) [
      | inl same ↦ (Memᴰ.head same, ap p same ∙ e)
      | inr later ↦ let (i, h) = mem-filter p xs a later in (Memᴰ.tail i, h)
    ]
    | inr e ↦ let (i, h) = mem-filter p xs a (rw e at m) in (Memᴰ.tail i, h)
  ]

  pub filter-mem :
      (p : A → Bool) (xs : List A) (a : A) → Memᴰ a xs → p a ≡ true → Memᴰ a (filter p xs)
  filter-mem p [] a m h = elim m [ ]
  filter-mem p (x ∷ xs) a (Memᴰ.head same) h = rw (← same, h) (Memᴰ.head refl)
  filter-mem p (x ∷ xs) a (Memᴰ.tail m) h = elim (Bool-cases (p x)) [
    | inl e ↦ rw e (Memᴰ.tail (filter-mem p xs a m h))
    | inr e ↦ rw e (filter-mem p xs a m h)
  ]

  -- A test that some element passes.
  pub any-mem : (p : A → Bool) (xs : List A) → any p xs ≡ true → (a : A) × Memᴰ a xs × (p a ≡ true)
  any-mem p [] h = cc
  any-mem p (x ∷ xs) h = elim (Bool-cases (p x)) [
    | inl e ↦ (x, Memᴰ.head refl, e)
    | inr e ↦ let (a, m, q) = any-mem p xs (rw e at h) in (a, Memᴰ.tail m, q)
  ]

  pub any-of_mem : (p : A → Bool) (xs : List A) (a : A) → Memᴰ a xs → p a ≡ true → any p xs ≡ true
  any-of_mem p [] a m h = elim m [ ]
  any-of_mem p (x ∷ xs) a (Memᴰ.head same) h = rw (← same, h)
  any-of_mem p (x ∷ xs) a (Memᴰ.tail m) h = ground (arith, any-of_mem p xs a m h)

  pub all-mem : (p : A → Bool) (xs : List A) (a : A) → all p xs ≡ true → Memᴰ a xs → p a ≡ true
  all-mem p [] a h m = elim m [ ]
  all-mem p (x ∷ xs) a h (Memᴰ.head same) = rw same (ground arith)
  all-mem p (x ∷ xs) a h (Memᴰ.tail m) = all-mem p xs a (ground arith) m

  -- A test that no element of two lists passes.
  pub any-append-false :
      (p : A → Bool) (xs ys : List A)
      → any p (xs ++ ys) ≡ false
      → (any p xs ≡ false) × (any p ys ≡ false)
  any-append-false p [] ys h = (refl, h)
  any-append-false p (x ∷ xs) ys h =
      let (here, later) = or-false (p x) _ h in
      let (left, right) = any-append-false p xs ys later in (rw here left, right)

  pub all-of_mem :
      (p : A → Bool) (xs : List A) → ((a : A) → Memᴰ a xs → p a ≡ true) → all p xs ≡ true
  all-of_mem p [] h = refl
  all-of_mem p (x ∷ xs) h = rw (h x (Memᴰ.head refl)) (all-of_mem p xs (λ a m. h a (Memᴰ.tail m)))

abbrev pub consider {κ} : {B : Type κ} → Option B → List B → List B
consider none bs = bs
consider (some b) bs = b ∷ bs

module _ {ℓ κ} {A : Type ℓ} {B : Type κ} where
  -- `Iterator::filter_map`.
  abbrev pub filter_map : (A → Option B) → List A → List B
  filter_map f [] = []
  filter_map f (x ∷ xs) = consider (f x) (filter_map f xs)

  pub mem-filter_map :
      (f : A → Option B) (xs : List A) (b : B)
      → Memᴰ b (filter_map f xs)
      → (a : A) × Memᴰ a xs × (f a ≡ some b)
  mem-filter_map f [] b m = elim m [ ]
  mem-filter_map f (x ∷ xs) b m = elim (Option-cases (f x)) [
    | inl e ↦ let (a, i, h) = mem-filter_map f xs b (rw e at m) in (a, Memᴰ.tail i, h)
    | inr (c, e) ↦ elim (cases_cons (rw e at m)) [
      | inl same ↦ (x, Memᴰ.head refl, rw same e)
      | inr later ↦ let (a, i, h) = mem-filter_map f xs b later in (a, Memᴰ.tail i, h)
    ]
  ]

  pub filter_map-mem :
      (f : A → Option B) (xs : List A) (a : A) (b : B)
      → Memᴰ a xs
      → f a ≡ some b
      → Memᴰ b (filter_map f xs)
  filter_map-mem f [] a b m h = elim m [ ]
  filter_map-mem f (x ∷ xs) a b (Memᴰ.head same) h = rw (← same, h) (Memᴰ.head refl)
  filter_map-mem f (x ∷ xs) a b (Memᴰ.tail m) h = elim (Option-cases (f x)) [
    | inl e ↦ rw e (filter_map-mem f xs a b m h)
    | inr (c, e) ↦ rw e (Memᴰ.tail (filter_map-mem f xs a b m h))
  ]
