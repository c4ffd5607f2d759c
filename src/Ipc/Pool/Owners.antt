-- ===== src/Ipc/Pool/Owners.antt =====
-- client.rs: what requests make of the pool of connections.
use stelliberty_m.Base.{
  ℕ, ◌+◌, ◌-◌, ◌≤◌, ◌<◌, ◌≡◌, refl, ap, sym, ◌∙◌, String, Bool, true, false, ◌&&◌, List, [], ◌∷◌,
  ◌++◌, Option, none, some, Result, ok, err, ltb, eqb, eqb_iff, ltb→lt, ok-injective, length,
  length-append, if◌then◌else◌, arith, Bool-cases, inl, inr,
}
use stelliberty_m.Ipc.Pool.{
  max_pool_size, idle_timeout_ms, Probe, closed, has_data, would_block, broken, is_clean,
  PooledConnection, Pool, is_usable, take_idle, connected, release_connection, Shared, without_one,
  holding, begin, finish,
}

-- 1 where the two are one connection.
unfoldable pub same : ℕ → ℕ → ℕ
same c d = if eqb c d then 1 else 0

abbrev pub count : ℕ → List ℕ → ℕ
count c [] = 0
count c (d ∷ ds) = same c d + count c ds

abbrev pub count_idle : ℕ → Pool → ℕ
count_idle c [] = 0
count_idle c (p ∷ ps) = same c p.conn + count_idle c ps

-- Where a connection is: in the pool or with a request.
abbrev pub owners : ℕ → Shared → ℕ
owners c s = count_idle c s.idle + count c s.held

pub record IsSound (s : Shared) : Type 0 where
  pub bounded : length s.idle ≤ max_pool_size
  pub exclusive : (c : ℕ) → owners c s ≤ 1

pub data Step (s : Shared) : Shared → Type 0 where
  begun :
      (now : ℕ) (probe : ℕ → Probe) (made : ℕ)
      → owners made s ≡ 0
      → Step s (begin now probe (ok made) s)
  refused : (now : ℕ) (probe : ℕ → Probe) (e : String) → Step s (begin now probe (err e) s)
  finished : (now c : ℕ) (works : Bool) → 1 ≤ count c s.held → Step s (finish now c works s)

take_idle-length :
    (now : ℕ) (probe : ℕ → Probe) (pool : Pool) → length (take_idle now probe pool).1 ≤ length pool
unfolding take_idle
take_idle-length now probe [] = omega arith
take_idle-length now probe (p ∷ pool) =
    let later = take_idle-length now probe pool in
    elim (Bool-cases (is_usable now probe p)) [
      | inl e ↦ rw e (omega arith)
      | inr e ↦ rw e (omega arith)
    ]

abbrev handed : ℕ → Option ℕ → ℕ
handed c none = 0
handed c (some d) = same c d

take_idle-count :
    (now : ℕ) (probe : ℕ → Probe) (pool : Pool) (c : ℕ)
    → let (o, rest) = take_idle now probe pool in handed c o + count_idle c rest ≤ count_idle c pool
unfolding take_idle
take_idle-count now probe [] c = omega arith
take_idle-count now probe (p ∷ pool) c =
    let later = take_idle-count now probe pool c in
    elim (Bool-cases (is_usable now probe p)) [
      | inl e ↦ rw e (ground arith)
      | inr e ↦ rw e (ground (arith, later))
    ]

same_le : (c d : ℕ) → same c d ≤ 1
unfolding same
same_le c d = elim (Bool-cases (eqb c d)) [
  | inl e ↦ rw e (omega arith)
  | inr e ↦ rw e (omega arith)
]

same_of_equal : (c d : ℕ) → eqb c d ≡ true → (e : ℕ) → same e c ≡ same e d
same_of_equal c d h e = ap (same e) ((eqb_iff c d).0 h)

same_of_other : (c d : ℕ) → eqb c d ≡ false → same c d ≡ 0
unfolding same
same_of_other c d h = rw h refl

clean_inv : (a : Bool) (o : Probe) → (a && is_clean o) ≡ true → (o ≡ would_block) × (a ≡ true)
unfolding is_clean
clean_inv true would_block h = (refl, refl)
clean_inv true closed h = cc
clean_inv true has_data h = cc
clean_inv true broken h = cc
clean_inv false o h = cc

picked :
    (b : Bool) (a c : ℕ) (pool : Pool) (later : Option ℕ × Pool)
    → b ≡ true
    → (if b then (some a, pool) else later).0 ≡ some c
    → a ≡ c
picked true a c pool later e h = cc
picked false a c pool later e h = cc

passed :
    (b : Bool) (a c : ℕ) (pool : Pool) (later : Option ℕ × Pool)
    → b ≡ false
    → (if b then (some a, pool) else later).0 ≡ some c
    → later.0 ≡ some c
passed true a c pool later e h = cc
passed false a c pool later e h = h

usable_inv :
    (now : ℕ) (probe : ℕ → Probe) (p : PooledConnection)
    → is_usable now probe p ≡ true
    → (probe p.conn ≡ would_block) × (now - p.last_used < idle_timeout_ms)
unfolding is_usable is_clean
usable_inv now probe p h =
    let (w, l) = clean_inv (ltb (now - p.last_used) idle_timeout_ms) (probe p.conn) h in
    (w, ltb→lt (now - p.last_used) idle_timeout_ms l)

-- A connection that the pool hands out was used less than the timeout ago and has nothing to read.
pub take_idle-usable :
    (now : ℕ) (probe : ℕ → Probe) (pool : Pool) (c : ℕ)
    → (take_idle now probe pool).0 ≡ some c
    → (probe c ≡ would_block)
      × ((p : PooledConnection) × (p.conn ≡ c) × (now - p.last_used < idle_timeout_ms))
unfolding take_idle is_usable is_clean
take_idle-usable now probe [] c h = cc
take_idle-usable now probe (p ∷ pool) c h = elim (Bool-cases (is_usable now probe p)) [
  | inl e ↦
      let u = usable_inv now probe p e in
      let q = picked (is_usable now probe p) p.conn c pool (take_idle now probe pool) e h in
      (sym (ap probe q) ∙ u.0, (p, q, u.1))
  | inr e ↦
      take_idle-usable now probe pool c
        (passed (is_usable now probe p) p.conn c pool (take_idle now probe pool) e h)
]

count-without_one :
    (c d : ℕ) (held : List ℕ)
    → 1 ≤ count c held
    → count d (without_one c held) + same d c ≡ count d held
unfolding without_one
count-without_one c d [] h = omega arith
count-without_one c d (e ∷ held) h = elim (Bool-cases (eqb c e)) [
  | inl s ↦ rw s (rw (same_of_equal c e s d) (omega arith))
  | inr s ↦
      let o = same_of_other c e s in
      let later = count-without_one c d held (omega arith) in rw s (omega arith)
]

count_idle-append :
    (d c now : ℕ) (pool : Pool)
    → count_idle d (pool ++ record { conn = c; last_used = now } ∷ [])
      ≡ count_idle d pool + same d c
count_idle-append d c now [] = omega arith
count_idle-append d c now (p ∷ pool) = let later = count_idle-append d c now pool in omega arith

holding-IsSound :
    (made : Result ℕ) (o : Option ℕ) (rest : Pool) (s : Shared)
    → IsSound s
    → ((m : ℕ) → made ≡ ok m → owners m s ≡ 0)
    → length rest ≤ length s.idle
    → ((c : ℕ) → handed c o + count_idle c rest ≤ count_idle c s.idle)
    → IsSound (holding (connected made (o, rest)) s.held)
unfolding holding connected
holding-IsSound made (some d) rest s i new shorter fewer = record {
  bounded = let b = i.bounded in omega arith;
  exclusive = λ c. let x = i.exclusive c in let f = fewer c in omega arith;
}
holding-IsSound (err e) none rest s i new shorter fewer = record {
  bounded = let b = i.bounded in omega arith;
  exclusive = λ c. let x = i.exclusive c in let f = fewer c in omega arith;
}
holding-IsSound (ok m) none rest s i new shorter fewer = record {
  bounded = let b = i.bounded in omega arith;
  exclusive = λ c.
      let x = i.exclusive c in
      let f = fewer c in
      elim (Bool-cases (eqb c m)) [
        | inl e ↦
            let equal = (eqb_iff c m).0 e in
            let n = ap (λ k. owners k s) equal ∙ new m refl in let u = same_le c m in omega arith
        | inr e ↦ let o = same_of_other c m e in omega arith
      ];
}

release-IsBounded :
    (now c : ℕ) (pool : Pool)
    → length pool ≤ max_pool_size
    → length (release_connection now c pool) ≤ max_pool_size
unfolding release_connection
release-IsBounded now c pool h = elim (Bool-cases (ltb (length pool) max_pool_size)) [
  | inl e ↦
      let l = ltb→lt (length pool) max_pool_size e in
      rw e (rw (length-append pool (record { conn = c; last_used = now } ∷ [])) (omega arith))
  | inr e ↦ rw e h
]

release-count :
    (now c d : ℕ) (pool : Pool)
    → count_idle d (release_connection now c pool) ≤ count_idle d pool + same d c
unfolding release_connection
release-count now c d pool = elim (Bool-cases (ltb (length pool) max_pool_size)) [
  | inl e ↦ let a = count_idle-append d c now pool in rw e (omega arith)
  | inr e ↦ rw e (omega arith)
]

Step-IsSound : (s t : Shared) → Step s t → IsSound s → IsSound t
unfolding begin finish
Step-IsSound s t (begun now probe made new) i =
    holding-IsSound (ok made) (take_idle now probe s.idle).0 (take_idle now probe s.idle).1 s i
      (λ m e. sym (ap (λ k. owners k s) (ok-injective e)) ∙ new) (take_idle-length now probe s.idle)
      (take_idle-count now probe s.idle)
Step-IsSound s t (refused now probe e) i =
    holding-IsSound (err e) (take_idle now probe s.idle).0 (take_idle now probe s.idle).1 s i
      (λ m e. cc) (take_idle-length now probe s.idle) (take_idle-count now probe s.idle)
Step-IsSound s t (finished now c true h) i = record {
  bounded = release-IsBounded now c s.idle i.bounded;
  exclusive = λ d.
      let x = i.exclusive d in
      let r = release-count now c d s.idle in let w = count-without_one c d s.held h in omega arith;
}
Step-IsSound s t (finished now c false h) i = record {
  bounded = i.bounded;
  exclusive = λ d. let x = i.exclusive d in let w = count-without_one c d s.held h in omega arith;
}

-- What requests make of an empty pool, in any order of their starts and ends. A start is one step: its
-- search of the pool and, behind it, its connection.
pub data Reach : Shared → Type 0 where
  fresh : Reach (record { idle = []; held = [] })
  step : {s t : Shared} → Reach s → Step s t → Reach t

-- Whatever the order in which requests start, fail to connect and end, with every new connection being
-- one that nobody has: the pool never holds more than its 30 connections, and no connection is at two
-- places, with two requests or with one and in the pool.
pub Reach-IsSound : (s : Shared) → Reach s → IsSound s
Reach-IsSound s fresh = record { bounded = omega arith; exclusive = λ c. omega arith }
Reach-IsSound s (step r t) = Step-IsSound _ s t (Reach-IsSound _ r)
