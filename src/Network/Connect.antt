-- ===== src/Network/Connect.antt =====
-- connection.rs and handlers.rs: making a connection, the pool of them, and its clean-up. A connection
-- is known by a number, a time is in milliseconds. The loop over the pool is one step: no other task
-- takes the lock between two of its rounds.
pub mod Bound
use Prim.Native.String
use stelliberty_m.Base.{
  ℕ, zero, suc, ◌-◌, String, Bool, true, false, ◌&&◌, List, [], ◌∷◌, ◌++◌, Option, none, some,
  Result, ok, err, ◌>>=◌, map_err, ltb, length, filter, if◌then◌else◌,
}
use stelliberty_m.Ipc.Pool.{Probe, closed, has_data, would_block, broken, PooledConnection, Pool}

-- `ClientOptions::open`, whose error may be `ERROR_PIPE_BUSY`.
pub data Opening : Type 0 where
  opened : ℕ → Opening
  busy : Opening
  refused : String → Opening

abbrev pub max_pipe_busy_retries : ℕ
max_pipe_busy_retries = 2

busy_error : String → String
busy_error path = String.◌++◌ "Named Pipe 连接超时：管道繁忙，重试 2 次后仍无法连接（" (String.◌++◌ path "）")

pipe_opened : String → Opening → Result ℕ → Result ℕ
pipe_opened path (opened c) again = ok c
pipe_opened path busy again = again
pipe_opened path (refused e) again = err (String.◌++◌ "连接 Named Pipe 失败：" e)

-- `n` retries are left, and the next call of `open` is the call `i`.
unfoldable pub pipe_from : (ℕ → Opening) → String → ℕ → ℕ → Result ℕ
unfolding busy_error pipe_opened
pipe_from opens path zero i = pipe_opened path (opens i) (err (busy_error path))
pipe_from opens path (suc n) i = pipe_opened path (opens i) (pipe_from opens path n (suc i))

unfoldable pub connect_named_pipe : (ℕ → Opening) → String → Result ℕ
unfolding pipe_from
connect_named_pipe opens path = pipe_from opens path max_pipe_busy_retries 0

-- `made` is what `UnixStream::connect` gives.
unfoldable pub connect_unix_socket : Result ℕ → Result ℕ
connect_unix_socket made = map_err "连接 Unix Socket 失败：" made

abbrev pub max_pool_size : ℕ
max_pool_size = 30

abbrev pub idle_timeout_ms : ℕ
idle_timeout_ms = 35000

unfoldable pub is_valid : Probe → Bool
is_valid closed = false
is_valid has_data = true
is_valid would_block = true
is_valid broken = false

-- The test that the loop over the pool and the health check share.
unfoldable pub is_kept : ℕ → (ℕ → Probe) → PooledConnection → Bool
unfolding is_valid
is_kept now probe p = ltb (now - p.last_used) idle_timeout_ms && is_valid (probe p.conn)

unfoldable pub take_pooled : ℕ → (ℕ → Probe) → Pool → Option ℕ × Pool
take_pooled now probe [] = (none, [])
take_pooled now probe (p ∷ pool) =
    let rest = take_pooled now probe pool in
    if is_kept now probe p then (some p.conn, pool) else rest

retried : Result ℕ → Result ℕ → Result ℕ
retried (ok c) again = ok c
retried (err e) again = again

-- `n` attempts follow the attempt `i`.
unfoldable pub connect_from : String → (ℕ → Result ℕ) → ℕ → ℕ → Result ℕ
unfolding retried
connect_from conn_type connect zero i =
    map_err (String.◌++◌ conn_type " 连接失败（已重试 3 次）：") (connect i)
connect_from conn_type connect (suc n) i =
    retried (connect i) (connect_from conn_type connect n (suc i))

-- `permit` is what acquiring the semaphore gives.
unfoldable pub new_connection : String → (ℕ → Result ℕ) → Result (Unit {0}) → Result ℕ
unfolding connect_from
new_connection conn_type connect permit = do
  _permit ← map_err "获取连接信号量失败：" permit
  connect_from conn_type connect 2 0

acquired : Option ℕ × Pool → Result ℕ → Result ℕ × Pool
acquired (some c, pool) made = (ok c, pool)
acquired (none, pool) made = (made, pool)

-- What a task sees when it acquires a connection.
pub record Surroundings : Type 0 where
  pub now : ℕ
  pub probe : ℕ → Probe
  pub permit : Result (Unit {0})
  pub conn_type : String
  pub connect : ℕ → Result ℕ

unfoldable pub acquire_connection : Surroundings → Pool → Result ℕ × Pool
unfolding take_pooled new_connection acquired
acquire_connection s pool =
    acquired (take_pooled s.now s.probe pool) (new_connection s.conn_type s.connect s.permit)

-- The connector of each platform: `opens k` and `made k` are what the calls of the attempt `k` give.
abbrev pub on_windows : String → (ℕ → ℕ → Opening) → Surroundings → Surroundings
on_windows path opens s = record s {
  conn_type = "Named Pipe";
  connect = λ k. connect_named_pipe (opens k) path;
}

abbrev pub on_unix : (ℕ → Result ℕ) → Surroundings → Surroundings
on_unix made s = record s { conn_type = "Unix Socket"; connect = λ k. connect_unix_socket (made k) }

unfoldable pub release_connection : ℕ → ℕ → Pool → Pool
release_connection now c pool =
    if ltb (length pool) max_pool_size
    then pool ++ record { conn = c; last_used = now } ∷ []
    else pool

-- A round of the health check; `locked` says that another task holds the lock.
unfoldable pub health_check : Bool → ℕ → (ℕ → Probe) → Pool → Pool
unfolding is_kept
health_check locked now probe pool = if locked then pool else filter (is_kept now probe) pool

unfoldable pub cleanup_ipc_connection_pool : Pool → ℕ × Pool
cleanup_ipc_connection_pool pool = (length pool, [])
