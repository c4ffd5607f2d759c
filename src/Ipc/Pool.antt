-- ===== src/Ipc/Pool.antt =====
-- client.rs: the pool of connections. A connection is known by a number, a time is in milliseconds;
-- whether an idle connection is still clean is what `try_read` says of it.
pub mod Owners
use stelliberty_m.Base.{
  ℕ, ◌-◌, ◌<◌, ◌≡◌, String, Bool, true, false, ◌&&◌, List, [], ◌∷◌, ◌++◌, Option, none, some,
  Result, ok, err, ltb, leb, eqb, length, if◌then◌else◌,
}

abbrev pub max_pool_size : ℕ
max_pool_size = 30

abbrev pub idle_timeout_ms : ℕ
idle_timeout_ms = 35000

-- `try_read` into a buffer of one byte.
pub data Probe : Type 0 where
  closed has_data would_block broken : Probe

pub record PooledConnection : Type 0 where
  pub conn : ℕ
  pub last_used : ℕ

abbrev pub Pool : Type 0
Pool = List PooledConnection

unfoldable pub is_clean : Probe → Bool
is_clean closed = false
is_clean has_data = false
is_clean would_block = true
is_clean broken = false

unfoldable pub is_usable : ℕ → (ℕ → Probe) → PooledConnection → Bool
unfolding is_clean
is_usable now probe p = ltb (now - p.last_used) idle_timeout_ms && is_clean (probe p.conn)

-- The idle connections are tried from the front, and those that do not serve are dropped; `none` says
-- that a new connection is made.
unfoldable pub take_idle : ℕ → (ℕ → Probe) → Pool → Option ℕ × Pool
take_idle now probe [] = (none, [])
take_idle now probe (p ∷ pool) =
    let rest = take_idle now probe pool in
    if is_usable now probe p then (some p.conn, pool) else rest

connected : Result ℕ → Option ℕ × Pool → Result ℕ × Pool
connected made (some c, pool) = (ok c, pool)
connected made (none, pool) = (made, pool)

-- `made` is what `connect` gives.
unfoldable pub acquire_connection : ℕ → (ℕ → Probe) → Result ℕ → Pool → Result ℕ × Pool
unfolding take_idle connected
acquire_connection now probe made pool = connected made (take_idle now probe pool)

unfoldable pub release_connection : ℕ → ℕ → Pool → Pool
release_connection now c pool =
    if ltb (length pool) max_pool_size
    then pool ++ record { conn = c; last_used = now } ∷ []
    else pool

-- `get` and `get_with_pool` on the response.
unfoldable pub body_of : ℕ → String → Result String
body_of status_code body =
    if leb 200 status_code && ltb status_code 300 then ok body else err "HTTP "

-- Several requests at a time: the idle connections, and those that a request holds.
pub record Shared : Type 0 where
  pub idle : Pool
  pub held : List ℕ

without_one : ℕ → List ℕ → List ℕ
without_one c [] = []
without_one c (d ∷ ds) = let rest = without_one c ds in if eqb c d then ds else d ∷ rest

holding : Result ℕ × Pool → List ℕ → Shared
holding (err e, pool) held = record { idle = pool; held = held }
holding (ok c, pool) held = record { idle = pool; held = c ∷ held }

-- The start of a request, and its end: the connection goes back where the response was read, and is
-- dropped else.
unfoldable pub begin : ℕ → (ℕ → Probe) → Result ℕ → Shared → Shared
unfolding acquire_connection holding
begin now probe made s = holding (acquire_connection now probe made s.idle) s.held

unfoldable pub finish : ℕ → ℕ → Bool → Shared → Shared
unfolding release_connection without_one
finish now c works s = record {
  idle = if works then release_connection now c s.idle else s.idle;
  held = without_one c s.held;
}
