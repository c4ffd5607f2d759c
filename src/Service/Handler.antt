-- ===== src/Service/Handler.antt =====
-- native/stelliberty_service/src/service/handler.rs: the handler of the commands, on the manager
-- and the time of the last heartbeat, each of which stands behind a lock of its own.
pub mod Laws
pub mod Answers
use stelliberty_m.Base.{ℕ, String, List, Option, some}
use stelliberty_m.Service.Manager
use stelliberty_m.Service.Manager.{ClashManager, ClashStatus, System, Outcome, ok, err}
use stelliberty_m.Service.Protocol.{
  IpcCommand, start_clash, stop_clash, get_status, stream_logs, get_version, heartbeat, get_logs,
  IpcResponse, success, error, status, logs, version, heartbeat_ack,
}

pub record Service : Type 0 where
  pub manager : ClashManager
  pub last_heartbeat : ℕ

started : Service → Outcome (Unit {0}) × ClashManager → IpcResponse × Service
started s (ok _, m) = (success (some "Clash 启动成功"), record s { manager = m })
started s (err e, m) = (error 1001 e, record s { manager = m })

stopped : Service → Outcome (Unit {0}) × ClashManager → IpcResponse × Service
stopped s (ok _, m) = (success (some "Clash 停止成功"), record s { manager = m })
stopped s (err e, m) = (error 1002 e, record s { manager = m })

reported : Service → ClashStatus × ClashManager → IpcResponse × Service
reported s (st, m) = (status st.is_running st.pid st.uptime, record s { manager = m })

-- `recent_logs` is the logger's `get_recent_logs`, `pkg_version` the version of the build.
module _ (recent_logs : ℕ → List String) (pkg_version : String) where
  unfoldable pub handle : System → IpcCommand → Service → IpcResponse × Service
  unfolding started stopped reported
  handle sys (start_clash a) s = started s (Manager.start sys a s.manager)
  handle sys stop_clash s = stopped s (Manager.stop sys s.manager)
  handle sys get_status s = reported s (Manager.get_status sys s.manager)
  handle sys (get_logs n) s = (logs (recent_logs n), s)
  handle sys get_version s = (version pkg_version, s)
  handle sys stream_logs s = (success (some "日志流已启用"), s)
  handle sys heartbeat s = (heartbeat_ack, record s { last_heartbeat = sys.now })
