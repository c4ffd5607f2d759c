-- ===== src/Network/Tests.antt =====
-- Runs of the code of the network handlers and of their theorems on small pools and short histories.
use stelliberty_m.Base.{
  ℕ, zero, suc, ◌≡◌, ◌≢◌, refl, sym, ◌∙◌, ◌⊎◌, not, ◌&&◌, ◌||◌, String, Bool, true, false, [], ◌∷◌,
  Option, some, none, Result, ok, err, pos, contains, ltb, arith,
}
use stelliberty_m.Ipc.Stream.{Stream}
use stelliberty_m.Ipc.Utf8.{from_utf8}
use stelliberty_m.Ipc.Http.{Run, returns, out_of_fuel}
use stelliberty_m.Ipc.Pool.{has_data, PooledConnection}
use stelliberty_m.Network.Connect.{
  Opening, opened, busy, connect_named_pipe, new_connection, Surroundings, acquire_connection,
}
use stelliberty_m.Network.Connect.Bound.{Cut, Drops, IsNew, acquire_connection-ok, IsBounded}
use stelliberty_m.Network.Http.{request_with_connection}
use stelliberty_m.Network.Request.{
  Attempt, Request, failed, exchanged, handle_ipc_request_with_retry,
}
use stelliberty_m.Network.Request.Answered.{
  Answered, Ends, KeepBounds, handle_ipc_request_with_retry-Answered, handle_not_retried,
  handle_ipc_request_with_retry-IsBounded,
}
use stelliberty_m.Network.Socket.{Dial, dialled}
use stelliberty_m.Network.Streams.{Hub, traffic, log, worked, start, stop, id_of, cleanup_ws_client}
use stelliberty_m.Network.Streams.Running.{Reach, first, step, started, cleanup_ws_client-Idle}
use stelliberty_m.Network.Streams.Stale.{stop-start, stop-start_twice, stop_stale}

-- A pipe that is busy three times.
busy_run : connect_named_pipe (λ k. busy) "p" ≡ err "Named Pipe 连接超时：管道繁忙，重试 2 次后仍无法连接（p）"
unfolding connect_named_pipe
busy_run = refl

abbrev early : PooledConnection
early = record { conn = 1; last_used = 0 }

abbrev late : PooledConnection
late = record { conn = 2; last_used = 90000 }

abbrev surroundings : Surroundings
surroundings = record {
  now = 100000;
  probe = λ c. has_data;
  permit = ok tt;
  conn_type = "Unix Socket";
  connect = λ k. ok 9;
}

acquired_late : acquire_connection surroundings (early ∷ late ∷ early ∷ []) ≡ (ok 2, early ∷ [])
unfolding acquire_connection stelliberty_m.Network.Connect.is_kept
acquired_late = refl

acquire_connection-ok_example :
    Cut 100000 (λ c. has_data) (early ∷ late ∷ early ∷ []) 2 (early ∷ [])
    ⊎ (Drops 100000 (λ c. has_data) (early ∷ late ∷ early ∷ [])
        × ((early ∷ []) ≡ [])
        × IsNew (ok tt) (λ k. ok 9) 2)
acquire_connection-ok_example =
    acquire_connection-ok surroundings (early ∷ late ∷ early ∷ []) 2 (early ∷ []) acquired_late

abbrev response : Stream
response = record {
  bytes = b'H' ∷ b' ' ∷ b'2' ∷ b'0' ∷ b'0' ∷ b'\r' ∷ b'\n' ∷ b'\r' ∷ b'\n' ∷ [];
  failure = none;
}

abbrev attempt_of : Result Stream → Attempt
attempt_of answer = record {
  surroundings = surroundings;
  answers = λ c request. answer;
  others = λ pool. pool;
  end_time = 100200;
}

-- The first exchange fails and the next ones work.
abbrev attempts : ℕ → Attempt
attempts zero = attempt_of (err "os error 109")
attempts (suc n) = attempt_of (ok response)

abbrev attempts_of_two : ℕ → Attempt
attempts_of_two n = attempt_of (err "os error 232")

abbrev request : Request
request = record { method = "GET"; path = "/proxies"; body = none; request_id = pos 7 }

abbrev show : ℕ → String
show n = "n"

exchanged_run :
    (i c : ℕ)
    → exchanged show 9 (attempts (suc i)) request c
      ≡ returns
          (ok (record { status_code = 200; body = "" }))
          (record { bytes = []; failure = none })
unfolding exchanged request_with_connection from_utf8 stelliberty_m.Ipc.Http.read_headers
    stelliberty_m.Ipc.Stream.read_line stelliberty_m.Ipc.Http.parse_status_code
    stelliberty_m.Base.split_whitespace stelliberty_m.Base.parse_unsigned
    stelliberty_m.Ipc.Http.parse_headers
exchanged_run i c = refl

request_ends : Ends show 9 attempts request
unfolding exchanged request_with_connection from_utf8
request_ends zero c h = cc
request_ends (suc i) c h = let r = sym (exchanged_run i c) ∙ h in cc

handle_ipc_request_with_retry-Answered_example :
    Answered show 9 attempts request
      (handle_ipc_request_with_retry show 9 attempts request (early ∷ [])).0
handle_ipc_request_with_retry-Answered_example =
    handle_ipc_request_with_retry-Answered show 9 attempts request (early ∷ []) request_ends

not_retried_exchange :
    exchanged show 9 (attempts_of_two 0) request 2
    ≡ returns (err "发送请求失败：os error 232") (record { bytes = []; failure = none })
unfolding exchanged request_with_connection
not_retried_exchange = refl

handle_not_retried_example :
    handle_ipc_request_with_retry show 9 attempts_of_two request (early ∷ late ∷ early ∷ [])
    ≡ (failed (pos 7) "IPC 请求失败：发送请求失败：os error 232" ∷ [], early ∷ [])
handle_not_retried_example =
    handle_not_retried show 9 attempts_of_two request (early ∷ late ∷ early ∷ []) (early ∷ []) 2
      "发送请求失败：" "32" (record { bytes = []; failure = none }) acquired_late not_retried_exchange

no_others : KeepBounds show 9 attempts request
no_others zero pool h = h
no_others (suc i) pool h = h

handle_ipc_request_with_retry-IsBounded_example :
    IsBounded (handle_ipc_request_with_retry show 9 attempts request (early ∷ [])).1
handle_ipc_request_with_retry-IsBounded_example =
    handle_ipc_request_with_retry-IsBounded show 9 attempts request (early ∷ []) no_others
      (omega arith)

abbrev hub : Hub
hub = record {
  client = none;
  traffic_connection_id = none;
  log_connection_id = none;
  memory_connection_id = none;
  connection_stream_id = none;
  runtime = record { running = []; next_task = 5 };
}

abbrev dial : Dial
dial = record { stream = ok 1; request = ok tt; handshake = ok tt }

abbrev one_stream : Hub
one_stream = (start "p" traffic dial hub).1

one_stream-Reach : Reach "p" one_stream
one_stream-Reach = step (first hub refl refl) (started traffic dial tt)

one_stream_run : one_stream.runtime.running ≡ 5 ∷ []
unfolding start dialled stelliberty_m.Network.Socket.connect
one_stream_run = refl

cleanup_ws_client-Idle_example :
    let after = (cleanup_ws_client one_stream).1 in
    (after.runtime.running ≡ []) × (after.client ≡ none)
cleanup_ws_client-Idle_example = cleanup_ws_client-Idle "p" one_stream one_stream-Reach

stop-start_example :
    (stop log (start "p" log dial one_stream).1).1.runtime.running ≡ one_stream.runtime.running
unfolding dialled
stop-start_example = stop-start "p" one_stream one_stream-Reach dial refl log

stop-start_twice_example :
    let after = (stop log (start "p" log dial (start "p" log dial hub).1).1).1 in
    (after.runtime.running ≡ 5 ∷ []) × (id_of log after ≡ none)
unfolding dialled
stop-start_twice_example = stop-start_twice "p" hub log dial dial (first hub refl refl) tt refl refl

one_stream_id : id_of traffic one_stream ≡ some 1
unfolding start dialled id_of stelliberty_m.Network.Socket.connect stelliberty_m.Network.Socket.new
one_stream_id = refl

traffic-log : traffic ≢ log
traffic-log h = cc

stop_stale_example :
    let begun = start "p" log dial (cleanup_ws_client one_stream).1 in
    let after = (stop traffic begun.1).1 in
    (begun.0 ≡ worked ∷ []) × (id_of log after ≡ some 1) × (after.runtime.running ≡ [])
unfolding dialled
stop_stale_example =
    stop_stale "p" one_stream traffic log dial one_stream-Reach one_stream_id traffic-log refl
