-- ===== src/Update/Version/Order.antt =====
-- app_update.rs: the order of versions.
use Prim.Native.Nat.{compare, Ordering}
use stelliberty_m.Base.{
  ℕ, zero, suc, ◌+◌, ◌≤◌, ◌<◌, max, ◌≡◌, ◌↔◌, refl, sym, String, List, [], ◌∷◌, length, arith, ◌⊎◌,
  inl, inr,
}
use stelliberty_m.Update.Version.{parts, part, compare_from, compare_versions}

-- The first segment that differs is smaller on the left.
abbrev pub IsOlder : List ℕ → List ℕ → Type 0
IsOlder p q = (k : ℕ) × ((j : ℕ) → j < k → part p j ≡ part q j) × (part p k < part q k)

-- From the segment `i` on.
abbrev OlderFrom : ℕ → List ℕ → List ℕ → Type 0
OlderFrom i p q =
    (k : ℕ) × (i ≤ k) × ((j : ℕ) → i ≤ j → j < k → part p j ≡ part q j) × (part p k < part q k)

compare-cases :
    (a b : ℕ)
    → ((a < b) × (compare a b ≡ Ordering.lt))
      ⊎ (((a ≡ b) × (compare a b ≡ Ordering.eq)) ⊎ ((b < a) × (compare a b ≡ Ordering.gt)))
compare-cases a b = ground arith

compare_same : {a b : ℕ} → a ≡ b → compare a b ≡ Ordering.eq
compare_same {a} {b} h = ground arith

compare_less : {a b : ℕ} → a < b → compare a b ≡ Ordering.lt
compare_less {a} {b} h = ground arith

compare_more : {a b : ℕ} → a < b → compare b a ≡ Ordering.gt
compare_more {a} {b} h = ground arith

compare_from-lt : (n i : ℕ) (p q : List ℕ) → compare_from n i p q ≡ Ordering.lt → OlderFrom i p q
unfolding compare_from
compare_from-lt zero i p q h = cc
compare_from-lt (suc n) i p q h = elim (compare-cases (part p i) (part q i)) [
  | inl (lt, e) ↦ (i, omega arith, (λ j a b. omega arith), lt)
  | inr (inr (gt, e)) ↦ let g = rw e at h in cc
  | inr (inl (same, e)) ↦
      let (k, lo, agree, less) = compare_from-lt n (suc i) p q (rw e at h) in
      (
        k,
        omega arith,
        (λ j a b. elim (compare-cases i j) [
          | inl (before, _) ↦ agree j before b
          | inr (inl (here, _)) ↦ rw (← here) same
          | inr (inr (behind, _)) ↦ omega arith
        ]),
        less,
      )
]

part_past : (p : List ℕ) (k : ℕ) → length p ≤ k → part p k ≡ 0
part_past [] k h = refl
part_past (x ∷ p) zero h = omega (arith)
part_past (x ∷ p) (suc k) h = part_past p k (omega arith)

older-lt :
    (n i k : ℕ) (p q : List ℕ)
    → i ≤ k
    → k < i + n
    → ((j : ℕ) → i ≤ j → j < k → part p j ≡ part q j)
    → part p k < part q k
    → compare_from n i p q ≡ Ordering.lt
unfolding compare_from
older-lt zero i k p q lo hi same less = let bad : 1 ≤ 0 = omega arith in elim bad [ ]
older-lt (suc n) i k p q lo hi same less = elim (compare-cases i k) [
  | inl (before, _) ↦
      rw (compare_same (same i (omega arith) before))
        (older-lt n (suc i) k p q before (omega arith) (λ j a b. same j (omega arith) b) less)
  | inr (inl (here, _)) ↦ rw (compare_less (rw (← here) at less))
  | inr (inr (behind, _)) ↦ let bad : 1 ≤ 0 = omega arith in elim bad [ ]
]

-- A segment that is smaller than another's is one of them has.
inside : (k : ℕ) (p q : List ℕ) → part p k < part q k → k < 0 + max (length p) (length q)
inside k p q less = elim (compare-cases k (length q)) [
  | inl (h, _) ↦ omega arith
  | inr (inl (h, _)) ↦ let past = part_past q k (omega arith) in omega arith
  | inr (inr (h, _)) ↦ let past = part_past q k (omega arith) in omega arith
]

-- `v` is older than `w` by `compare_versions` exactly when its first segment that differs is smaller,
-- where a segment that a version does not have is 0.
pub compare_versions-lt_iff :
    (v w : String) → (compare_versions v w ≡ Ordering.lt) ↔ IsOlder (parts v) (parts w)
unfolding compare_versions
compare_versions-lt_iff v w =
    let p = parts v in
    let q = parts w in
    let n = max (length p) (length q) in
    (
      (λ h.
          let (k, lo, agree, less) = compare_from-lt n 0 p q h in
          (k, (λ j b. agree j (omega arith) b), less)),
      (λ (k, agree, less).
          older-lt n 0 k p q (omega arith) (inside k p q less) (λ j a b. agree j b) less),
    )

abbrev pub flip : Ordering → Ordering
flip Ordering.lt = Ordering.gt
flip Ordering.eq = Ordering.eq
flip Ordering.gt = Ordering.lt

compare_from-flip : (n i : ℕ) (p q : List ℕ) → compare_from n i q p ≡ flip (compare_from n i p q)
unfolding compare_from
compare_from-flip zero i p q = refl
compare_from-flip (suc n) i p q = elim (compare-cases (part p i) (part q i)) [
  | inl (lt, e) ↦ rw (e, compare_more lt)
  | inr (inl (same, e)) ↦ rw (e, compare_same (sym same)) (compare_from-flip n (suc i) p q)
  | inr (inr (gt, e)) ↦ rw (e, compare_less gt)
]

-- Exchanging the versions turns the answer around.
pub compare_versions-flip : (v w : String) → compare_versions w v ≡ flip (compare_versions v w)
unfolding compare_versions
compare_versions-flip v w =
    let p = parts v in
    let q = parts w in
    let e : max (length q) (length p) ≡ max (length p) (length q) = omega arith in
    rw e (compare_from-flip (max (length p) (length q)) 0 p q)
