-- ===== src/Service/Wire.antt =====
-- native/stelliberty_service/src/ipc: client.rs, server.rs and error.rs. A message is its length in four
-- bytes, the lowest first, and its JSON. What the socket and serde_json do is an argument.
pub mod Exchange
mod Tests
use stelliberty_m.Base.{
  ℕ, zero, suc, ◌+◌, ◌*◌, ◌^◌, ◌%◌, ◌/◌, ◌≡◌, String, Bool, true, false, List, [], ◌∷◌, ◌++◌,
  Option, none, some, length, ltb, if◌then◌else◌,
}
use stelliberty_m.Ipc.Stream.{Bytes, take_exact}
use stelliberty_m.Service.Manager.{ClashError}
use stelliberty_m.Service.Protocol.{
  IpcCommand, stream_logs, IpcResponse, success, error, log_stream,
}

pub data IpcError : Type 0 where
  connection_failed serialization_error io_error other : String → IpcError
  timeout service_not_running : IpcError
  service_error : ℕ → ClashError → IpcError

pub data IpcResult (A : Type 0) : Type 0 where
  ok : A → IpcResult A
  err : IpcError → IpcResult A

infixl 5 ◌>>=◌
abbrev pub ◌>>=◌ : {A B : Type 0} → IpcResult A → (A → IpcResult B) → IpcResult B
err e >>= continue = err e
ok a >>= continue = continue a

pub record Codec : Type 0 where
  pub command_to_json : IpcCommand → IpcResult Bytes
  pub command_from_json : Bytes → IpcResult IpcCommand
  pub response_to_json : IpcResponse → IpcResult Bytes
  pub response_from_json : Bytes → IpcResult IpcResponse

-- `(len as u32).to_le_bytes()` and `u32::from_le_bytes`.
unfoldable pub to_le_bytes : ℕ → Bytes
to_le_bytes n = n % 256 ∷ (n / 256) % 256 ∷ (n / 65536) % 256 ∷ (n / 16777216) % 256 ∷ []

unfoldable pub from_le_bytes : Bytes → ℕ
from_le_bytes (a ∷ b ∷ c ∷ d ∷ []) = a + 256 * b + 65536 * c + 16777216 * d
from_le_bytes _ = 0

unfoldable pub frame : Bytes → Bytes
unfolding to_le_bytes
frame bytes = to_le_bytes (length bytes % (2 ^ 32)) ++ bytes

-- `read_exact` on what has arrived.
unfoldable pub read_bytes : ℕ → Bytes → IpcResult (Bytes × Bytes)
read_bytes n bytes = arrived (take_exact n bytes)
  where
    arrived : Option (Bytes × Bytes) → IpcResult (Bytes × Bytes)
    arrived none = err (io_error "early eof")
    arrived (some r) = ok r

-- A message of at most `limit` bytes, and what follows it.
unfoldable pub read_message : ℕ → String → Bytes → IpcResult (Bytes × Bytes)
unfolding read_bytes take_exact from_le_bytes
read_message limit too_large bytes = do
  (len_buf, rest) ← read_bytes 4 bytes
  if ltb limit (from_le_bytes len_buf)
      then err (other too_large)
      else read_bytes (from_le_bytes len_buf) rest

-- What a connection has sent when its task ends, and how it ended.
pub record Served : Type 0 where
  pub sent : Bytes
  pub result : IpcResult (Unit {0})

-- `writes` is the error of the writes, if they fail; nothing then arrives as a message.
unfoldable pub send : Option String → IpcResult Bytes → Served
send writes (err e) = record { sent = []; result = err e }
send (some e) (ok json) = record { sent = []; result = err (io_error e) }
send none (ok json) = record { sent = frame json; result = ok tt }

-- What `recv` gives, up to the end of the task: the channel is closed, or a write breaks behind `n` bytes
-- of a line's message, all of it where the flush fails. A task that waits for ever has no such run.
pub data Received : Type 0 where
  line : String → Received → Received
  broken : String → ℕ → Received
  lagged : ℕ → Received → Received
  closed : Received

unfoldable pub before : Bytes → Served → Served
before bytes s = record s { sent = bytes ++ s.sent }

unfoldable pub push_line : IpcResult Bytes → Served → Served
push_line (err e) rest = record { sent = []; result = err e }
push_line (ok json) rest = before (frame json) rest

unfoldable pub take : ℕ → Bytes → Bytes
take zero bytes = []
take (suc n) [] = []
take (suc n) (b ∷ bytes) = b ∷ take n bytes

-- The loop ends at the write that breaks, and its error is only logged.
unfoldable pub push_broken : IpcResult Bytes → ℕ → Served
unfolding take frame
push_broken (err e) n = record { sent = []; result = err e }
push_broken (ok json) n = record { sent = take n (frame json); result = ok tt }

unfoldable pub after_start : Served → Served → Served
after_start first rest = go first.result
  where
    go : IpcResult (Unit {0}) → Served
    go (err e) = first
    go (ok u) = before first.sent rest

module _ (codec : Codec) where
  -- The loop over the lines.
  unfoldable pub push_lines : Received → Served
  unfolding push_line push_broken before frame
  push_lines (line l rest) = push_line (codec.response_to_json (log_stream l)) (push_lines rest)
  push_lines (broken l n) = push_broken (codec.response_to_json (log_stream l)) n
  push_lines (lagged skipped rest) = push_lines rest
  push_lines closed = record { sent = []; result = ok tt }

  unfoldable pub handle_log_stream : Option String → Received → Served
  unfolding send after_start push_lines
  handle_log_stream writes received =
      after_start (send writes (codec.response_to_json (success (some "日志流已启用"))))
        (push_lines received)

  module _ {S : Type 0} (handler : IpcCommand → S → IpcResponse × S) (writes : Option String)
      (received : Received) where
    unfoldable pub answered : IpcResponse × S → Served × S
    answered (response, s) = (send writes (codec.response_to_json response), s)

    unfoldable pub served : IpcResult IpcCommand → S → Served × S
    served (err e) s = (record { sent = []; result = err e }, s)
    served (ok stream_logs) s = (handle_log_stream writes received, s)
    served (ok command) s = answered (handler command s)

    unfoldable pub read_command : Bytes → IpcResult IpcCommand
    read_command bytes = do
      (command_buf, rest) ← read_message 1048576 "命令数据过大" bytes
      codec.command_from_json command_buf

    unfoldable pub handle_client : Bytes → S → Served × S
    unfolding read_message send answered served read_command handle_log_stream
    handle_client bytes s = served (read_command bytes) s

-- One connection of the client: whether it is made, whether the writes fail, what comes back, and
-- whether either of the two reads takes too long.
pub record Link : Type 0 where
  pub connected : IpcResult (Unit {0})
  pub writes : Option String
  pub answers : Bytes → Bytes
  pub length_late : Bool
  pub data_late : Bool

unfoldable pub in_time : {A : Type 0} → Bool → IpcResult A → IpcResult A
in_time true r = err timeout
in_time false r = r

unfoldable pub written : Option String → IpcResult (Unit {0})
written none = ok tt
written (some e) = err (io_error e)

module _ (codec : Codec) where
  unfoldable pub try_send_command : Link → IpcCommand → IpcResult IpcResponse
  unfolding frame in_time written read_bytes
  try_send_command link command = do
    command_bytes ← codec.command_to_json command
    stream ← link.connected
    sent ← written link.writes
    (len_buf, rest) ← in_time link.length_late (read_bytes 4 (link.answers (frame command_bytes)))
    (response_buf, behind) ←
        if ltb 10485760 (from_le_bytes len_buf)
        then err (other "响应数据过大")
        else in_time link.data_late (read_bytes (from_le_bytes len_buf) rest)
    codec.response_from_json response_buf

  -- A response that arrived, which may be an error of the service.
  unfoldable pub checked : IpcResponse → IpcResult IpcResponse
  checked (error code message) = err (service_error code message)
  checked response = ok response

  last_of : Option IpcError → IpcResult IpcResponse
  last_of none = err (other "IPC 通信失败")
  last_of (some e) = err e

  attempted : IpcResult IpcResponse → (IpcError → IpcResult IpcResponse) → IpcResult IpcResponse
  attempted (ok response) next = checked response
  attempted (err e) next = next e

  -- `n` attempts are left, and the next one is the attempt `i`.
  unfoldable pub attempt_from :
      (ℕ → Link) → IpcCommand → ℕ → ℕ → Option IpcError → IpcResult IpcResponse
  unfolding checked last_of attempted
  attempt_from links command zero i last_error = last_of last_error
  attempt_from links command (suc n) i last_error =
      attempted (try_send_command (links i) command)
        (λ e. attempt_from links command n (suc i) (some e))

  unfoldable pub send_command : ℕ → (ℕ → Link) → IpcCommand → IpcResult IpcResponse
  unfolding attempt_from
  send_command max_retries links command = attempt_from links command (suc max_retries) 0 none
