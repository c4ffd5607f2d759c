-- ===== src/Service/Protocol.antt =====
-- native/stelliberty_service/src/ipc/protocol.rs: the commands and the responses. The text of an
-- error response is kept as the error that it formats.
use stelliberty_m.Base.{ℕ, String, Bool, List, Option}
use stelliberty_m.Service.Manager.{StartArgs, ClashError}

pub data IpcCommand : Type 0 where
  start_clash : StartArgs → IpcCommand
  stop_clash get_status stream_logs get_version heartbeat : IpcCommand
  get_logs : ℕ → IpcCommand

pub data IpcResponse : Type 0 where
  success : Option String → IpcResponse
  error : (code : ℕ) → ClashError → IpcResponse
  status : (is_clash_running : Bool) → (clash_pid : Option ℕ) → (service_uptime : ℕ) → IpcResponse
  logs : List String → IpcResponse
  log_stream : String → IpcResponse
  version : String → IpcResponse
  heartbeat_ack : IpcResponse
