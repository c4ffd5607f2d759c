-- ===== src/Network/Request/Answered.antt =====
-- handlers.rs: what the answer to a request is, and what a request does to the pool.
use Prim.Native.String
use stelliberty_m.Base.{
  ℕ, zero, suc, ◌+◌, ◌≤◌, ◌<◌, ◌≡◌, ◌≢◌, refl, sym, ◌∙◌, String, Bool, true, false, ◌&&◌, List, [],
  ◌∷◌, Result, ok, err, ltb, ltb→lt, arith, Bool-cases, inl, inr,
}
use stelliberty_m.Ipc.Stream.{Stream}
use stelliberty_m.Ipc.Http.{Run, returns, out_of_fuel}
use stelliberty_m.Ipc.Pool.{Pool}
use stelliberty_m.Network.Retry.{can_retry_on_error}
use stelliberty_m.Network.Retry.Texts.{can_retry_of_two, can_retry_on_error_iff}
use stelliberty_m.Network.Http.{HttpResponse}
use stelliberty_m.Network.Connect.{acquire_connection, cleanup_ipc_connection_pool}
use stelliberty_m.Network.Connect.Bound.{IsBounded, acquire-IsBounded, release-IsBounded}
use stelliberty_m.Network.Request.{
  IpcResponse, failed, succeeded, Attempt, Request, max_retries, exchanged, on_response,
  on_connection, attempt_from, handle_ipc_request_with_retry,
}

and-left : (a b : Bool) → (a && b) ≡ true → a ≡ true
and-left true b h = refl
and-left false b h = h

retry-early : (e : String) (i : ℕ) → can_retry_on_error e i max_retries ≡ true → i < max_retries
retry-early e i h =
    ltb→lt i max_retries
      (and-left (ltb i max_retries) _ (sym (can_retry_on_error_iff e i max_retries) ∙ h))

module _ (show : ℕ → String) (fuel : ℕ) (attempts : ℕ → Attempt) (q : Request) where
  -- One response: of the core, in one of the attempts, or a failure.
  pub data Answered : List IpcResponse → Type 0 where
    by_core :
        (i c : ℕ) (r : HttpResponse) (s : Stream)
        → i ≤ max_retries
        → exchanged show fuel (attempts i) q c ≡ returns (ok r) s
        → Answered (succeeded q.request_id r ∷ [])
    by_failure : (message : String) → Answered (failed q.request_id message ∷ [])

  abbrev pub Ends : Type 0
  Ends = (i c : ℕ) → exchanged show fuel (attempts i) q c ≢ out_of_fuel

  on_response-Answered :
      (i c : ℕ) (pool : Pool) (again : Pool → List IpcResponse × Pool) (run : Run HttpResponse)
      → Ends
      → i ≤ max_retries
      → (i < max_retries → (p : Pool) → Answered (again p).0)
      → exchanged show fuel (attempts i) q c ≡ run
      → Answered (on_response show fuel (attempts i) q i c pool again run).0
  unfolding on_response
  on_response-Answered i c pool again out_of_fuel ends le later h = elim (ends i c h) [ ]
  on_response-Answered i c pool again (returns (ok r) s) ends le later h = by_core i c r s le h
  on_response-Answered i c pool again (returns (err e) s) ends le later h =
      elim (Bool-cases (can_retry_on_error e i max_retries)) [
        | inl t ↦
            rw t
              (later (retry-early e i t) (cleanup_ipc_connection_pool ((attempts i).others pool)).1)
        | inr f ↦ rw f (by_failure (String.◌++◌ "IPC 请求失败：" e))
      ]

  on_connection-Answered :
      (i : ℕ) (again : Pool → List IpcResponse × Pool) (r : Result ℕ × Pool)
      → Ends
      → i ≤ max_retries
      → (i < max_retries → (p : Pool) → Answered (again p).0)
      → Answered (on_connection show fuel (attempts i) q i again r).0
  unfolding on_connection
  on_connection-Answered i again (err e, pool) ends le later = by_failure (String.◌++◌ "获取连接失败：" e)
  on_connection-Answered i again (ok c, pool) ends le later =
      on_response-Answered i c pool again (exchanged show fuel (attempts i) q c) ends le later refl

  attempt_from-Answered :
      (n i : ℕ) (pool : Pool)
      → Ends
      → n + i ≡ suc max_retries
      → i ≤ max_retries
      → Answered (attempt_from show fuel attempts q n i pool).0
  unfolding attempt_from
  attempt_from-Answered zero i pool ends sum le = let no : ⊥ = omega arith in elim no [ ]
  attempt_from-Answered (suc n) i pool ends sum le =
      on_connection-Answered i (λ p. attempt_from show fuel attempts q n (suc i) p)
        (acquire_connection (attempts i).surroundings pool) ends le
        (λ lt p. attempt_from-Answered n (suc i) p ends (omega arith) (omega arith))

  -- Where every exchange over a connection comes to an end, with a response or an error: a request is
  -- answered by exactly one response, which has its id. Either an attempt, the first or one of two more,
  -- read it from the core and it has that status and body, or it is a failure with a message.
  pub handle_ipc_request_with_retry-Answered :
      (pool : Pool) → Ends → Answered (handle_ipc_request_with_retry show fuel attempts q pool).0
  unfolding handle_ipc_request_with_retry
  handle_ipc_request_with_retry-Answered pool ends =
      attempt_from-Answered (suc max_retries) 0 pool ends (omega arith) (omega arith)

  -- An exchange whose error has "os error 2" anywhere in it, as "os error 232" of a closed pipe has, ends
  -- the request with a failure: there is no second attempt, and the pool keeps its connections.
  pub handle_not_retried :
      (pool rest : Pool) (c : ℕ) (a b : String) (s : Stream)
      → acquire_connection (attempts 0).surroundings pool ≡ (ok c, rest)
      → exchanged show fuel (attempts 0) q c
        ≡ returns (err (String.◌++◌ a (String.◌++◌ "os error 2" b))) s
      → handle_ipc_request_with_retry show fuel attempts q pool ≡ (
        failed q.request_id (String.◌++◌ "IPC 请求失败：" (String.◌++◌ a (String.◌++◌ "os error 2" b)))
            ∷ [],
        (attempts 0).others rest,
      )
  unfolding handle_ipc_request_with_retry attempt_from on_connection on_response
  handle_not_retried pool rest c a b s acquired fails =
      rw (acquired, fails, can_retry_of_two a b 0 max_retries) refl

  abbrev pub KeepBounds : Type 0
  KeepBounds = (i : ℕ) (pool : Pool) → IsBounded pool → IsBounded ((attempts i).others pool)

  on_response-IsBounded :
      (i c : ℕ) (pool : Pool) (again : Pool → List IpcResponse × Pool) (run : Run HttpResponse)
      → KeepBounds
      → IsBounded pool
      → ((p : Pool) → IsBounded p → IsBounded (again p).1)
      → IsBounded (on_response show fuel (attempts i) q i c pool again run).1
  unfolding on_response cleanup_ipc_connection_pool
  on_response-IsBounded i c pool again out_of_fuel keep h later = keep i pool h
  on_response-IsBounded i c pool again (returns (ok r) s) keep h later =
      release-IsBounded (attempts i).end_time c ((attempts i).others pool) (keep i pool h)
  on_response-IsBounded i c pool again (returns (err e) s) keep h later =
      elim (Bool-cases (can_retry_on_error e i max_retries)) [
        | inl t ↦ rw t (later [] (omega arith))
        | inr f ↦ rw f (keep i pool h)
      ]

  on_connection-IsBounded :
      (i : ℕ) (again : Pool → List IpcResponse × Pool) (r : Result ℕ × Pool)
      → KeepBounds
      → IsBounded r.1
      → ((p : Pool) → IsBounded p → IsBounded (again p).1)
      → IsBounded (on_connection show fuel (attempts i) q i again r).1
  unfolding on_connection
  on_connection-IsBounded i again (err e, pool) keep h later = h
  on_connection-IsBounded i again (ok c, pool) keep h later =
      on_response-IsBounded i c pool again (exchanged show fuel (attempts i) q c) keep h later

  attempt_from-IsBounded :
      (n i : ℕ) (pool : Pool)
      → KeepBounds
      → IsBounded pool
      → IsBounded (attempt_from show fuel attempts q n i pool).1
  unfolding attempt_from
  attempt_from-IsBounded zero i pool keep h = h
  attempt_from-IsBounded (suc n) i pool keep h =
      on_connection-IsBounded i (λ p. attempt_from show fuel attempts q n (suc i) p)
        (acquire_connection (attempts i).surroundings pool) keep
        (acquire-IsBounded (attempts i).surroundings pool h)
        (λ p b. attempt_from-IsBounded n (suc i) p keep b)

  -- A request, whatever its attempts meet and whether it ends or not, leaves at most 30 connections in a
  -- pool of at most 30, where what other tasks do to the pool in the meantime keeps that bound.
  pub handle_ipc_request_with_retry-IsBounded :
      (pool : Pool)
      → KeepBounds
      → IsBounded pool
      → IsBounded (handle_ipc_request_with_retry show fuel attempts q pool).1
  unfolding handle_ipc_request_with_retry
  handle_ipc_request_with_retry-IsBounded pool keep h =
      attempt_from-IsBounded (suc max_retries) 0 pool keep h
