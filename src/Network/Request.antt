-- ===== src/Network/Request.antt =====
-- handlers.rs: the requests of the user interface to the core. Each sends its responses back as signals;
-- the messages of the log are left out.
pub mod Answered
use Prim.Native.String
use stelliberty_m.Base.{
  ℕ, zero, suc, String, Bool, true, false, ◌&&◌, List, [], ◌∷◌, Option, none, some, Result, ok, err,
  leb, ltb, ℤ, if◌then◌else◌,
}
use stelliberty_m.Ipc.Stream.{Stream}
use stelliberty_m.Ipc.Http.{Run, returns, out_of_fuel}
use stelliberty_m.Ipc.Pool.{Pool}
use stelliberty_m.Network.Retry.{can_retry_on_error}
use stelliberty_m.Network.Http.{HttpResponse, request_with_connection}
use stelliberty_m.Network.Connect.{
  Surroundings, acquire_connection, release_connection, cleanup_ipc_connection_pool,
}

pub record IpcResponse : Type 0 where
  pub request_id : ℤ
  pub status_code : ℕ
  pub body : String
  pub is_successful : Bool
  pub error_message : Option String

abbrev pub failed : ℤ → String → IpcResponse
failed id message = record {
  request_id = id;
  status_code = 0;
  body = "";
  is_successful = false;
  error_message = some message;
}

abbrev pub succeeded : ℤ → HttpResponse → IpcResponse
succeeded id r = record {
  request_id = id;
  status_code = r.status_code;
  body = r.body;
  is_successful = true;
  error_message = none;
}

-- What one attempt meets: the surroundings in which it acquires its connection, what the core answers on
-- a connection, what other tasks do to the pool in the meantime, and the time at the end.
pub record Attempt : Type 0 where
  pub surroundings : Surroundings
  pub answers : ℕ → String → Result Stream
  pub others : Pool → Pool
  pub end_time : ℕ

pub record Request : Type 0 where
  pub method : String
  pub path : String
  pub body : Option String
  pub request_id : ℤ

abbrev pub max_retries : ℕ
max_retries = 2

module _ (show : ℕ → String) (fuel : ℕ) where
  unfoldable pub exchanged : Attempt → Request → ℕ → Run HttpResponse
  exchanged a q c = request_with_connection show (a.answers c) fuel q.method q.path q.body

  -- The end of an attempt whose connection is `c`; a run without an end sends nothing.
  on_response :
      Attempt
      → Request
      → ℕ
      → ℕ
      → Pool
      → (Pool → List IpcResponse × Pool)
      → Run HttpResponse
      → List IpcResponse × Pool
  on_response a q i c pool again out_of_fuel = ([], a.others pool)
  on_response a q i c pool again (returns (ok r) s) =
      (succeeded q.request_id r ∷ [], release_connection a.end_time c (a.others pool))
  on_response a q i c pool again (returns (err e) s) =
      let next = again (cleanup_ipc_connection_pool (a.others pool)).1 in
      if can_retry_on_error e i max_retries
      then next
      else (failed q.request_id (String.◌++◌ "IPC 请求失败：" e) ∷ [], a.others pool)

  on_connection :
      Attempt
      → Request
      → ℕ
      → (Pool → List IpcResponse × Pool)
      → Result ℕ × Pool
      → List IpcResponse × Pool
  unfolding exchanged on_response
  on_connection a q i again (err e, pool) =
      (failed q.request_id (String.◌++◌ "获取连接失败：" e) ∷ [], pool)
  on_connection a q i again (ok c, pool) = on_response a q i c pool again (exchanged a q c)

  -- `n` attempts are left, and the next one is the attempt `i`; at most `max_retries` + 1 are made.
  unfoldable pub attempt_from : (ℕ → Attempt) → Request → ℕ → ℕ → Pool → List IpcResponse × Pool
  unfolding on_connection
  attempt_from attempts q zero i pool = ([], pool)
  attempt_from attempts q (suc n) i pool =
      on_connection (attempts i) q i (λ p. attempt_from attempts q n (suc i) p)
        (acquire_connection (attempts i).surroundings pool)

  unfoldable pub handle_ipc_request_with_retry :
      (ℕ → Attempt) → Request → Pool → List IpcResponse × Pool
  unfolding attempt_from
  handle_ipc_request_with_retry attempts q pool = attempt_from attempts q (suc max_retries) 0 pool

  -- The handlers of the signals. `permit` is what acquiring the semaphore of the updates gives.
  unfoldable pub handle_get : (ℕ → Attempt) → ℤ → String → Pool → List IpcResponse × Pool
  unfolding handle_ipc_request_with_retry
  handle_get attempts id path pool =
      handle_ipc_request_with_retry attempts
        (record { method = "GET"; path = path; body = none; request_id = id }) pool

  unfoldable pub handle_post :
      (ℕ → Attempt) → ℤ → String → Option String → Pool → List IpcResponse × Pool
  unfolding handle_ipc_request_with_retry
  handle_post attempts id path body pool =
      handle_ipc_request_with_retry attempts
        (record { method = "POST"; path = path; body = body; request_id = id }) pool

  unfoldable pub handle_put :
      Result (Unit {0})
      → (ℕ → Attempt)
      → ℤ
      → String
      → Option String
      → Pool
      → List IpcResponse × Pool
  unfolding handle_ipc_request_with_retry
  handle_put (err e) attempts id path body pool =
      (failed id (String.◌++◌ "获取配置更新信号量失败：" e) ∷ [], pool)
  handle_put (ok permit) attempts id path body pool =
      handle_ipc_request_with_retry attempts
        (record { method = "PUT"; path = path; body = body; request_id = id }) pool

  unfoldable pub handle_patch :
      (ℕ → Attempt) → ℤ → String → Option String → Pool → List IpcResponse × Pool
  unfolding handle_ipc_request_with_retry
  handle_patch attempts id path body pool =
      handle_ipc_request_with_retry attempts
        (record { method = "PATCH"; path = path; body = body; request_id = id }) pool

  unfoldable pub handle_delete : (ℕ → Attempt) → ℤ → String → Pool → List IpcResponse × Pool
  unfolding handle_ipc_request_with_retry
  handle_delete attempts id path pool =
      handle_ipc_request_with_retry attempts
        (record { method = "DELETE"; path = path; body = none; request_id = id }) pool

  -- `internal_ipc_get`: the result, where the request ends, and the pool.
  status_checked : HttpResponse → Result String
  status_checked r =
      if leb 200 r.status_code && ltb r.status_code 300
      then ok r.body
      else err (String.◌++◌ "HTTP " (show r.status_code))

  got : Attempt → ℕ → Pool → Run HttpResponse → Option (Result String) × Pool
  unfolding status_checked
  got a c pool out_of_fuel = (none, a.others pool)
  got a c pool (returns (ok r) s) =
      (some (status_checked r), release_connection a.end_time c (a.others pool))
  got a c pool (returns (err e) s) = (some (err e), a.others pool)

  get_on : Attempt → String → Result ℕ × Pool → Option (Result String) × Pool
  unfolding got
  get_on a path (err e, pool) = (some (err e), pool)
  get_on a path (ok c, pool) =
      got a c pool (request_with_connection show (a.answers c) fuel "GET" path none)

  unfoldable pub internal_ipc_get : Attempt → String → Pool → Option (Result String) × Pool
  unfolding get_on
  internal_ipc_get a path pool = get_on a path (acquire_connection a.surroundings pool)
