-- ===== src/Network/Connect/Bound.antt =====
-- connection.rs and handlers.rs: what an acquired connection is, and how many the pool holds.
use mathlib.Core.Path.{subst}
use stelliberty_m.Base.{
  ℕ, zero, suc, ◌+◌, ◌-◌, ◌<◌, ◌≤◌, ◌≡◌, ◌↔◌, ◌&&◌, String, err, map_err-eq-ok, refl, ap, sym, ◌∙◌,
  ok-injective, Bool, true, false, List, [], ◌∷◌, ◌++◌, Option, none, some, Result, ok, ltb, ltb→lt,
  length, length-append, filter, All, arith, Bool-cases, ◌⊎◌, inl, inr,
}
use stelliberty_m.Ipc.Pool.{Probe, closed, has_data, would_block, broken, PooledConnection, Pool}
use stelliberty_m.Network.Connect.{
  max_pool_size, idle_timeout_ms, is_valid, is_kept, retried, connect_from, take_pooled,
  new_connection, acquired, Surroundings, acquire_connection, release_connection, health_check,
}

-- A connection that may be handed out: used less than 35 seconds ago, and neither closed nor broken.
abbrev pub Usable : ℕ → (ℕ → Probe) → PooledConnection → Type 0
Usable now probe p =
    (now - p.last_used < 35000) × ((probe p.conn ≡ would_block) ⊎ (probe p.conn ≡ has_data))

abbrev pub Drops : ℕ → (ℕ → Probe) → Pool → Type 0
Drops now probe pool = All (λ p. ¬ Usable now probe p) pool

is_kept_iff :
    (now : ℕ) (probe : ℕ → Probe) (p : PooledConnection)
    → (is_kept now probe p ≡ true) ↔ Usable now probe p
unfolding is_kept is_valid
is_kept_iff now probe p = by_probe (probe p.conn)
  where
    by_probe :
        (o : Probe)
        → ((ltb (now - p.last_used) idle_timeout_ms && is_valid o) ≡ true)
          ↔ ((now - p.last_used < 35000) × ((o ≡ would_block) ⊎ (o ≡ has_data)))
    by_probe closed = (λ h. ground arith, λ (l, o). ground arith)
    by_probe has_data = (λ h. (ground arith, inr refl), λ (l, o). ground arith)
    by_probe would_block = (λ h. (ground arith, inl refl), λ (l, o). ground arith)
    by_probe broken = (λ h. ground arith, λ (l, o). ground arith)

not_kept :
    (now : ℕ) (probe : ℕ → Probe) (p : PooledConnection)
    → is_kept now probe p ≡ false
    → ¬ Usable now probe p
not_kept now probe p e u = let k = (is_kept_iff now probe p).1 u in ground arith

eq_or_above : (i j : ℕ) → i ≤ j → (i ≡ j) ⊎ (suc i ≤ j)
eq_or_above i j h = ground arith

-- The pool is cut in three: the connections dropped, the one handed out, the ones left.
pub record Cut (now : ℕ) (probe : ℕ → Probe) (pool : Pool) (c : ℕ) (rest : Pool) : Type 0 where
  pub dropped : Pool
  pub taken : PooledConnection
  pub pool_is : pool ≡ dropped ++ taken ∷ rest
  pub all_dropped : Drops now probe dropped
  pub usable : Usable now probe taken
  pub conn_is : taken.conn ≡ c

-- A new connection: under a permit, the first of three attempts that works.
pub record IsNew (permit : Result (Unit {0})) (connect : ℕ → Result ℕ) (c : ℕ) : Type 0 where
  pub permitted : permit ≡ ok tt
  pub attempt : ℕ
  pub within : attempt < 3
  pub works : connect attempt ≡ ok c
  pub before : (j : ℕ) → j < attempt → (e : String) × (connect j ≡ err e)

-- The first of the calls from `i` to `last` that works gives `c`.
abbrev FirstFrom : (ℕ → Result ℕ) → ℕ → ℕ → ℕ → Type 0
FirstFrom connect i last c =
    (k : ℕ) × (i ≤ k)
    × (k ≤ last)
    × (connect k ≡ ok c)
    × ((j : ℕ) → i ≤ j → j < k → (e : String) × (connect j ≡ err e))

retried-FirstFrom :
    (connect : ℕ → Result ℕ) (i last c : ℕ) (r again : Result ℕ)
    → i ≤ last
    → connect i ≡ r
    → retried r again ≡ ok c
    → (again ≡ ok c → FirstFrom connect (suc i) last c)
    → FirstFrom connect i last c
unfolding retried
retried-FirstFrom connect i last c (ok d) again fits e g later =
    (i, omega arith, fits, e ∙ g, λ j l m. absurd (omega arith))
retried-FirstFrom connect i last c (err x) again fits e g later =
    let (k, low, high, works, before) = later g in
    (
      k,
      omega arith,
      high,
      works,
      λ j l m. elim (eq_or_above i j l) [
        | inl same ↦ (x, rw (← same) e)
        | inr above ↦ before j above m
      ],
    )

connect_from-ok :
    (conn_type : String) (connect : ℕ → Result ℕ) (n i c : ℕ)
    → connect_from conn_type connect n i ≡ ok c
    → FirstFrom connect i (i + n) c
unfolding connect_from
connect_from-ok conn_type connect zero i c h =
    (i, omega arith, omega arith, map_err-eq-ok _ _ h, λ j l g. absurd (omega arith))
connect_from-ok conn_type connect (suc n) i c h =
    retried-FirstFrom connect i (i + suc n) c (connect i) _ (omega arith) refl h (λ g.
      let e : suc i + n ≡ i + suc n = omega arith in
      subst (λ last. FirstFrom connect (suc i) last c) e
        (connect_from-ok conn_type connect n (suc i) c g))

new_connection-IsNew :
    (conn_type : String) (connect : ℕ → Result ℕ) (permit : Result (Unit {0})) (c : ℕ)
    → new_connection conn_type connect permit ≡ ok c
    → IsNew permit connect c
unfolding new_connection
new_connection-IsNew conn_type connect (err e) c h = cc
new_connection-IsNew conn_type connect (ok u) c h =
    let (k, low, high, works, before) = connect_from-ok conn_type connect 2 0 c h in
    record {
      permitted = refl;
      attempt = k;
      within = omega arith;
      works = works;
      before = λ j l. before j (omega arith) l;
    }

abbrev Taken : ℕ → (ℕ → Probe) → Pool → Option ℕ × Pool → Type 0
Taken now probe pool (some c, rest) = Cut now probe pool c rest
Taken now probe pool (none, rest) = Drops now probe pool × (rest ≡ [])

below_dropped :
    (now : ℕ) (probe : ℕ → Probe) (p : PooledConnection) (pool : Pool) (r : Option ℕ × Pool)
    → ¬ Usable now probe p
    → Taken now probe pool r
    → Taken now probe (p ∷ pool) r
below_dropped now probe p pool (some c, rest) e cut = record {
  dropped = p ∷ cut.dropped;
  taken = cut.taken;
  pool_is = ap (λ ps. p ∷ ps) cut.pool_is;
  all_dropped = (e, cut.all_dropped);
  usable = cut.usable;
  conn_is = cut.conn_is;
}
below_dropped now probe p pool (none, rest) e (drops, empty) = ((e, drops), empty)

take_pooled-Taken :
    (now : ℕ) (probe : ℕ → Probe) (pool : Pool) → Taken now probe pool (take_pooled now probe pool)
unfolding take_pooled
take_pooled-Taken now probe [] = (tt, refl)
take_pooled-Taken now probe (p ∷ pool) =
    let later = take_pooled-Taken now probe pool in
    elim (Bool-cases (is_kept now probe p)) [
      | inl e ↦ rw e (record {
        dropped = [];
        taken = p;
        pool_is = refl;
        all_dropped = tt;
        usable = (is_kept_iff now probe p).0 e;
        conn_is = refl;
      })
      | inr e ↦ rw e (
          below_dropped now probe p pool (take_pooled now probe pool) (not_kept now probe p e)
            later)
    ]

acquired-ok :
    (now : ℕ) (probe : ℕ → Probe) (pool : Pool) (r : Option ℕ × Pool) (made : Result ℕ) (c : ℕ)
    (rest : Pool)
    → Taken now probe pool r
    → acquired r made ≡ (ok c, rest)
    → Cut now probe pool c rest ⊎ (Drops now probe pool × (rest ≡ []) × (made ≡ ok c))
unfolding acquired
acquired-ok now probe pool (some d, left) made c rest cut h =
    let same : d ≡ c = ok-injective (ap (λ x. x.0) h) in
    let left_is : left ≡ rest = ap (λ x. x.1) h in inl (rw (← same, ← left_is) cut)
acquired-ok now probe pool (none, left) made c rest (drops, empty) h =
    inr (drops, sym (ap (λ x. x.1) h) ∙ empty, ap (λ x. x.0) h)

acquired-IsNew :
    (s : Surroundings) (pool : Pool) (c : ℕ) (rest : Pool)
    → (Cut s.now s.probe pool c rest
        ⊎ (Drops s.now s.probe pool
            × (rest ≡ [])
            × (new_connection s.conn_type s.connect s.permit ≡ ok c)))
    → Cut s.now s.probe pool c rest
      ⊎ (Drops s.now s.probe pool × (rest ≡ []) × IsNew s.permit s.connect c)
acquired-IsNew s pool c rest (inl cut) = inl cut
acquired-IsNew s pool c rest (inr (drops, empty, made)) =
    inr (drops, empty, new_connection-IsNew s.conn_type s.connect s.permit c made)

-- An acquired connection is the first one of the pool that was used less than 35 seconds ago and is
-- neither closed nor broken, those before it being dropped and those behind it left; or none of the pool
-- is such a one, the pool is then empty, and the connection is a new one, made under a permit by the
-- first of at most three attempts that works.
pub acquire_connection-ok :
    (s : Surroundings) (pool : Pool) (c : ℕ) (rest : Pool)
    → acquire_connection s pool ≡ (ok c, rest)
    → Cut s.now s.probe pool c rest
      ⊎ (Drops s.now s.probe pool × (rest ≡ []) × IsNew s.permit s.connect c)
unfolding acquire_connection
acquire_connection-ok s pool c rest h = acquired-IsNew s pool c rest (
    acquired-ok s.now s.probe pool (take_pooled s.now s.probe pool)
      (new_connection s.conn_type s.connect s.permit) c rest (take_pooled-Taken s.now s.probe pool)
      h)

abbrev pub IsBounded : Pool → Type 0
IsBounded pool = length pool ≤ max_pool_size

take_pooled-length :
    (now : ℕ) (probe : ℕ → Probe) (pool : Pool)
    → length (take_pooled now probe pool).1 ≤ length pool
unfolding take_pooled
take_pooled-length now probe [] = omega arith
take_pooled-length now probe (p ∷ pool) =
    let later = take_pooled-length now probe pool in
    elim (Bool-cases (is_kept now probe p)) [
      | inl e ↦ rw e (omega arith)
      | inr e ↦ rw e (omega arith)
    ]

acquired-rest : (r : Option ℕ × Pool) (made : Result ℕ) → (acquired r made).1 ≡ r.1
unfolding acquired
acquired-rest (some c, pool) made = refl
acquired-rest (none, pool) made = refl

pub acquire-IsBounded :
    (s : Surroundings) (pool : Pool) → IsBounded pool → IsBounded (acquire_connection s pool).1
unfolding acquire_connection
acquire-IsBounded s pool h =
    let made = new_connection s.conn_type s.connect s.permit in
    let fewer = take_pooled-length s.now s.probe pool in
    rw (acquired-rest (take_pooled s.now s.probe pool) made) (omega arith)

pub release-IsBounded :
    (now c : ℕ) (pool : Pool) → IsBounded pool → IsBounded (release_connection now c pool)
unfolding release_connection
release-IsBounded now c pool h = elim (Bool-cases (ltb (length pool) max_pool_size)) [
  | inl e ↦
      let l = ltb→lt (length pool) max_pool_size e in
      rw e (rw (length-append pool (record { conn = c; last_used = now } ∷ [])) (omega arith))
  | inr e ↦ rw e h
]

filter-length : {A : Type 0} (p : A → Bool) (xs : List A) → length (filter p xs) ≤ length xs
filter-length p [] = omega arith
filter-length p (x ∷ xs) =
    let later = filter-length p xs in
    elim (Bool-cases (p x)) [ inl e ↦ rw e (omega arith) | inr e ↦ rw e (omega arith) ]

pub health_check-IsBounded :
    (locked : Bool) (now : ℕ) (probe : ℕ → Probe) (pool : Pool)
    → IsBounded pool
    → IsBounded (health_check locked now probe pool)
unfolding health_check
health_check-IsBounded true now probe pool h = h
health_check-IsBounded false now probe pool h =
    let fewer = filter-length (is_kept now probe) pool in omega arith
