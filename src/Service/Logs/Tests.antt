-- ===== src/Service/Logs/Tests.antt =====
-- A subscription that gets two lines, between which others were missed.
use stelliberty_m.Base.{
  ℕ, suc, ◌≡◌, refl, arith, String, Bool, true, [], ◌∷◌, none, eqb, if◌then◌else◌,
}
use stelliberty_m.Ipc.Stream.{Bytes}
use stelliberty_m.Service.Protocol.{IpcCommand, stream_logs, IpcResponse, log_stream, heartbeat_ack}
use stelliberty_m.Service.Wire.{IpcResult, ok, err, other, Codec, Received, line, broken, lagged}
use stelliberty_m.Service.Wire.Exchange.{link_to}
use stelliberty_m.Service.Logs.{finished, subscribe}
use stelliberty_m.Service.Logs.Delivered.{
  lines_of, rounds, IsWritten, welcome, deliver, subscribe_lem,
}

abbrev to_json : IpcResponse → IpcResult Bytes
to_json (log_stream l) = ok (1 ∷ [])
to_json _ = ok (0 ∷ [])

abbrev from_json : Bytes → IpcResult IpcResponse
from_json [] = err (other "EOF")
from_json (b ∷ bytes) = if eqb b 1 then ok (log_stream "a") else ok welcome

abbrev codec : Codec
codec = record {
  command_to_json = λ c. ok (2 ∷ []);
  command_from_json = λ bytes. ok stream_logs;
  response_to_json = to_json;
  response_from_json = from_json;
}

abbrev handler : IpcCommand → ℕ → IpcResponse × ℕ
handler command n = (heartbeat_ack, n)

abbrev received : Received
received = line "a" (lagged 3 (line "a" (broken "a" 3)))

abbrev counted : String → ℕ → Bool × ℕ
counted l n = (true, suc n)

welcome-IsWritten : IsWritten codec welcome
welcome-IsWritten = record { json = 0 ∷ []; to_json = refl; from_json = refl; fits = omega arith }

a-IsWritten : IsWritten codec (log_stream "a")
a-IsWritten = record { json = 1 ∷ []; to_json = refl; from_json = refl; fits = omega arith }

subscribe_lem_example :
    subscribe codec counted none (rounds (lines_of received) 0) (link_to codec handler received 7) 0
    ≡ finished (ok tt) (deliver codec counted (lines_of received) 0)
subscribe_lem_example =
    subscribe_lem codec handler 7 counted (2 ∷ []) received 0 0 refl refl (omega arith)
      welcome-IsWritten (omega arith) (a-IsWritten, (a-IsWritten, tt))
