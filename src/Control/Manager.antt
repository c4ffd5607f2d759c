-- ===== src/Control/Manager.antt =====
-- service_manager.rs: the state of the service, and the core that the service starts and stops. A command
-- to the service is an argument: its answer, and what it makes of the service.
pub mod Answers
use Prim.Native.String
use stelliberty_m.Base.{
  ℕ, String, Bool, true, false, List, [], ◌∷◌, Option, none, some, Result, ok, err, if◌then◌else◌,
}
use stelliberty_m.Service.Manager.{StartArgs, ClashError}
use stelliberty_m.Service.Protocol
use stelliberty_m.Service.Protocol.{
  IpcCommand, IpcResponse, success, error, status, logs, log_stream, version, heartbeat_ack,
}
use stelliberty_m.Service.Wire
use stelliberty_m.Service.Wire.{IpcResult}
use stelliberty_m.Control.Process.{ClashProcessResult, done, refused}

pub data Host : Type 0 where
  windows linux mac_os : Host

pub data ServiceStatus : Type 0 where
  running : (pid : ℕ) → (uptime : ℕ) → ServiceStatus
  stopped not_installed unknown : ServiceStatus

-- What the platform says of the service, and whether the answer to a heartbeat comes too late.
pub record Probes : Type 0 where
  pub installed : Bool
  pub active : Bool
  pub heartbeat_late : Bool

-- Numbers, errors and responses as the messages print them.
pub record Texts : Type 0 where
  pub show : ℕ → String
  pub show_error : ClashError → String
  pub debug : IpcResponse → String

core_status : Option ℕ → ℕ → ServiceStatus
core_status none uptime = stopped
core_status (some pid) uptime = running pid uptime

-- `otherwise` stands for an answer that is no status.
status_of : ServiceStatus → IpcResult IpcResponse → ServiceStatus
status_of otherwise (Wire.ok (status is_running pid uptime)) = core_status pid uptime
status_of otherwise _ = otherwise

is_ack : IpcResult IpcResponse → Bool
is_ack (Wire.ok heartbeat_ack) = true
is_ack _ = false

pid_of : IpcResult IpcResponse → Option ℕ
pid_of (Wire.ok (status is_running pid uptime)) = pid
pid_of _ = none

module _ {S : Type 0} (texts : Texts) (send : IpcCommand → S → IpcResult IpcResponse × S) where
  with_pid : IpcResult IpcResponse × S → Result (Option ℕ) × S
  with_pid (r, s) = (ok (pid_of r), s)

  start_answered : IpcResult IpcResponse × S → Result (Option ℕ) × S
  start_answered (Wire.err e, s) = (err "发送启动命令失败", s)
  start_answered (Wire.ok (success message), s) = with_pid (send Protocol.get_status s)
  start_answered (Wire.ok (error code message), s) = (
    err (
        String.◌++◌ "Clash 启动失败（code="
          (String.◌++◌ (texts.show code) (String.◌++◌ "）：" (texts.show_error message)))),
    s,
  )
  start_answered (Wire.ok r, s) = (err (String.◌++◌ "收到意外响应：" (texts.debug r)), s)

  unfoldable pub start_clash : StartArgs → S → Result (Option ℕ) × S
  unfolding pid_of with_pid start_answered
  start_clash args s = start_answered (send (Protocol.start_clash args) s)

  stop_answered : IpcResult IpcResponse → Result (Unit {0})
  stop_answered (Wire.err e) = err "发送停止命令失败"
  stop_answered (Wire.ok (success message)) = ok tt
  stop_answered (Wire.ok (error code message)) = err (
      String.◌++◌ "Clash 停止失败（code="
        (String.◌++◌ (texts.show code) (String.◌++◌ "）：" (texts.show_error message))))
  stop_answered (Wire.ok r) = err (String.◌++◌ "收到意外响应：" (texts.debug r))

  stop_of : IpcResult IpcResponse × S → Result (Unit {0}) × S
  stop_of (r, s) = (stop_answered r, s)

  unfoldable pub stop_clash : S → Result (Unit {0}) × S
  unfolding stop_answered stop_of
  stop_clash s = stop_of (send Protocol.stop_clash s)

  -- The handlers of the signals, where `created` is what `ServiceManager::new` gives.
  start_result : Result (Option ℕ) × S → ClashProcessResult × S
  start_result (ok pid, s) = (done pid, s)
  start_result (err e, s) = (refused e, s)

  unfoldable pub handle_start_clash : Result (Unit {0}) → StartArgs → S → ClashProcessResult × S
  unfolding start_clash start_result
  handle_start_clash (err e) args s = (refused (String.◌++◌ "创建服务管理器失败：" e), s)
  handle_start_clash (ok _) args s = start_result (start_clash args s)

  stop_result : Result (Unit {0}) × S → ClashProcessResult × S
  stop_result (ok _, s) = (done none, s)
  stop_result (err e, s) = (refused e, s)

  unfoldable pub handle_stop_clash : Result (Unit {0}) → S → ClashProcessResult × S
  unfolding stop_clash stop_result
  handle_stop_clash (err e) s = (refused (String.◌++◌ "创建服务管理器失败：" e), s)
  handle_stop_clash (ok _) s = stop_result (stop_clash s)

  -- A heartbeat of the hub is sent, and its answer is only logged.
  unfoldable pub handle_heartbeat : S → S
  handle_heartbeat s = (send Protocol.heartbeat s).1

pub record ServiceStatusResponse : Type 0 where
  pub status : String
  pub pid : Option ℕ
  pub uptime : Option ℕ

without_core : String → ServiceStatusResponse
without_core text = record { status = text; pid = none; uptime = none }

unfoldable pub status_response : ServiceStatus → ServiceStatusResponse
unfolding without_core
status_response (running pid uptime) = record {
  status = "running";
  pid = some pid;
  uptime = some uptime;
}
status_response stopped = without_core "stopped"
status_response not_installed = without_core "not_installed"
status_response unknown = without_core "unknown"

module _ {S : Type 0} (send : IpcCommand → S → IpcResult IpcResponse × S) where
  detailed : ServiceStatus → IpcResult IpcResponse × S → ServiceStatus × S
  detailed otherwise (r, s) = (status_of otherwise r, s)

  -- A status where the heartbeat was answered in time.
  if_acknowledged :
      Bool → ServiceStatus → ServiceStatus → IpcResult IpcResponse × S → ServiceStatus × S
  if_acknowledged late silent otherwise (r, s) =
      if (if late then false else is_ack r)
      then detailed otherwise (send Protocol.get_status s)
      else (silent, s)

  -- On the desktop platforms; the service of macOS is known by its answers alone.
  unfoldable pub get_status : Host → Probes → S → ServiceStatus × S
  unfolding core_status status_of is_ack detailed if_acknowledged
  get_status windows p s =
      if p.installed
      then if_acknowledged p.heartbeat_late stopped unknown (send Protocol.heartbeat s)
      else (not_installed, s)
  get_status linux p s =
      if p.installed
      then (if p.active then detailed stopped (send Protocol.get_status s) else (stopped, s))
      else (unknown, s)
  get_status mac_os p s =
      if_acknowledged p.heartbeat_late unknown unknown (send Protocol.heartbeat s)

  answered_status : ServiceStatus × S → ServiceStatusResponse × S
  answered_status (st, s) = (status_response st, s)

  unfoldable pub handle_get_status :
      Result (Unit {0}) → Host → Probes → S → ServiceStatusResponse × S
  unfolding get_status status_response without_core answered_status
  handle_get_status (err e) host p s = (without_core "unknown", s)
  handle_get_status (ok _) host p s = answered_status (get_status host p s)
