-- ===== src/Update/Version.antt =====
-- native/hub/src/molecules/system_operations/app_update.rs, `compare_versions`.
pub mod Order
pub mod Written
use Prim.Native.Nat.{compare, Ordering}
use stelliberty_m.Base.{
  ℕ, zero, suc, max, ◌^◌, String, List, [], ◌∷◌, Option, none, some, filter_map, length, split,
  parse_unsigned, unwrap_or,
}

-- The segments that are `u32`s; the others are dropped.
unfoldable pub parts : String → List ℕ
parts v = filter_map (λ s. parse_unsigned 10 (2 ^ 32) s) (split b'.' v)

abbrev pub get_elem? : List ℕ → ℕ → Option ℕ
get_elem? [] i = none
get_elem? (x ∷ xs) zero = some x
get_elem? (x ∷ xs) (suc i) = get_elem? xs i

abbrev pub part : List ℕ → ℕ → ℕ
part p i = unwrap_or (get_elem? p i) 0

-- `Equal` goes on with the loop, and any other answer returns.
abbrev pub then_compare : Ordering → Ordering → Ordering
then_compare Ordering.lt rest = Ordering.lt
then_compare Ordering.eq rest = rest
then_compare Ordering.gt rest = Ordering.gt

-- `n` rounds of the loop from the segment `i`.
unfoldable pub compare_from : ℕ → ℕ → List ℕ → List ℕ → Ordering
compare_from zero i p q = Ordering.eq
compare_from (suc n) i p q =
    then_compare (compare (part p i) (part q i)) (compare_from n (suc i) p q)

unfoldable pub compare_versions : String → String → Ordering
unfolding parts compare_from
compare_versions v w =
    let p = parts v in let q = parts w in compare_from (max (length p) (length q)) 0 p q
