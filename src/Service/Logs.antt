-- ===== src/Service/Logs.antt =====
-- native/stelliberty_service/src/ipc/client.rs: the client's subscription to the log lines.
pub mod Delivered
mod Tests
use stelliberty_m.Base.{
  ℕ, zero, suc, String, Bool, true, false, Option, none, some, ltb, if◌then◌else◌,
}
use stelliberty_m.Ipc.Stream.{Bytes, take_exact}
use stelliberty_m.Service.Protocol.{IpcResponse, success, error, log_stream, stream_logs}
use stelliberty_m.Service.Wire.{
  IpcError, io_error, other, service_error, IpcResult, ok, err, ◌>>=◌, Codec, from_le_bytes, frame,
  read_bytes, Link, in_time, written,
}

-- How the subscription ended, with the state of the callback; the loop runs on fuel.
pub data Streamed (S : Type 0) : Type 0 where
  finished : IpcResult (Unit {0}) → S → Streamed S
  out_of_fuel : Streamed S

-- The end of the stream, or an error of it.
ended : {S : Type 0} → Option String → S → Streamed S
ended none s = finished (ok tt) s
ended (some e) s = finished (err (io_error e)) s

-- Why data are cut short.
cause : Option String → IpcError → IpcError
cause none e = e
cause (some x) e = io_error x

unfoldable pub went_on : {S : Type 0} → (Bytes → S → Streamed S) → Bytes → Bool × S → Streamed S
went_on more rest (true, s) = more rest s
went_on more rest (false, s) = finished (ok tt) s

module _ {S : Type 0} (codec : Codec) (callback : String → S → Bool × S)
    (failure : Option String) where
  on_response : (Bytes → S → Streamed S) → Bytes → S → IpcResult IpcResponse → Streamed S
  on_response more rest s (err e) = finished (err e) s
  on_response more rest s (ok (log_stream line)) = went_on more rest (callback line s)
  on_response more rest s (ok (error code message)) = finished (err (service_error code message)) s
  on_response more rest s (ok _) = finished (err (other "意外的日志流响应类型")) s

  on_data : (Bytes → S → Streamed S) → S → IpcResult (Bytes × Bytes) → Streamed S
  on_data more s (err e) = finished (err (cause failure e)) s
  on_data more s (ok (log_buf, rest)) = on_response more rest s (codec.response_from_json log_buf)

  on_length : (Bytes → S → Streamed S) → S → Option (Bytes × Bytes) → Streamed S
  on_length more s none = ended failure s
  on_length more s (some (len_buf, rest)) =
      if ltb 1048576 (from_le_bytes len_buf)
      then finished (err (other "单条日志数据过大")) s
      else on_data more s (read_bytes (from_le_bytes len_buf) rest)

  unfoldable pub receive_logs : ℕ → Bytes → S → Streamed S
  unfolding ended cause went_on on_response on_data on_length
  receive_logs zero bytes s = out_of_fuel
  receive_logs (suc fuel) bytes s = on_length (λ b t. receive_logs fuel b t) s (take_exact 4 bytes)

  -- The first response has to be a success.
  unfoldable pub on_start : ℕ → Bytes → S → IpcResponse → Streamed S
  on_start fuel rest s (success message) = receive_logs fuel rest s
  on_start fuel rest s (error code message) = finished (err (service_error code message)) s
  on_start fuel rest s _ = finished (err (other "意外的初始响应类型")) s

  unfoldable pub start : Link → IpcResult (IpcResponse × Bytes)
  start link = do
    command_bytes ← codec.command_to_json stream_logs
    stream ← link.connected
    sent ← written link.writes
    (len_buf, rest) ← in_time link.length_late (read_bytes 4 (link.answers (frame command_bytes)))
    (response_buf, behind) ←
        if ltb 10485760 (from_le_bytes len_buf)
        then err (other "响应数据过大")
        else in_time link.data_late (read_bytes (from_le_bytes len_buf) rest)
    initial_response ← codec.response_from_json response_buf
    ok (initial_response, behind)

  unfoldable pub started : ℕ → S → IpcResult (IpcResponse × Bytes) → Streamed S
  started fuel s (err e) = finished (err e) s
  started fuel s (ok (response, rest)) = on_start fuel rest s response

  -- The client's `stream_logs`.
  unfoldable pub subscribe : ℕ → Link → S → Streamed S
  unfolding receive_logs on_start start started
  subscribe fuel link s = started fuel s (start link)
