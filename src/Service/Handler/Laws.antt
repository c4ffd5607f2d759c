-- ===== src/Service/Handler/Laws.antt =====
-- service/handler.rs: what the commands, in whatever order they come, keep of the service.
use stelliberty_m.Base.{ℕ, String, List, [], ◌∷◌}
use stelliberty_m.Service.Manager
use stelliberty_m.Service.Manager.{ClashManager, ClashStatus, System, Outcome, ok, err}
use stelliberty_m.Service.Manager.Laws.{Timed, start-Timed, stop-Timed, get_status-Timed}
use stelliberty_m.Service.Protocol.{
  IpcCommand, start_clash, stop_clash, get_status, stream_logs, get_version, heartbeat, get_logs,
}
use stelliberty_m.Service.Handler.{Service, started, stopped, reported, handle}

abbrev pub Idle : Service → Type 0
Idle s = Timed s.manager

-- Commands, each with what the system answers while it is handled.
abbrev pub handle_all : (ℕ → List String) → String → List (System × IpcCommand) → Service → Service
handle_all logs v [] s = s
handle_all logs v ((sys, c) ∷ cs) s = handle_all logs v cs (handle logs v sys c s).1

module _ (recent_logs : ℕ → List String) (pkg_version : String) where
  handle-Idle :
      (sys : System) (c : IpcCommand) (s : Service)
      → Idle s
      → Idle (handle recent_logs pkg_version sys c s).1
  unfolding handle started stopped reported
  handle-Idle sys (start_clash a) s h =
      by_start (Manager.start sys a s.manager) (start-Timed sys a s.manager h)
    where
      by_start : (p : Outcome (Unit {0}) × ClashManager) → Timed p.1 → Idle (started s p).1
      by_start (ok u, m) t = t
      by_start (err e, m) t = t
  handle-Idle sys stop_clash s h = by_stop (Manager.stop sys s.manager) (stop-Timed sys s.manager)
    where
      by_stop : (p : Outcome (Unit {0}) × ClashManager) → Timed p.1 → Idle (stopped s p).1
      by_stop (ok u, m) t = t
      by_stop (err e, m) t = t
  handle-Idle sys get_status s h =
      by_status (Manager.get_status sys s.manager) (get_status-Timed sys s.manager h)
    where
      by_status : (p : ClashStatus × ClashManager) → Timed p.1 → Idle (reported s p).1
      by_status (st, m) t = t
  handle-Idle sys (get_logs n) s h = h
  handle-Idle sys get_version s h = h
  handle-Idle sys stream_logs s h = h
  handle-Idle sys heartbeat s h = h

  -- Any sequence of commands keeps that a manager without a start time holds no process.
  pub handle_all-Idle :
      (cs : List (System × IpcCommand)) (s : Service)
      → Idle s
      → Idle (handle_all recent_logs pkg_version cs s)
  handle_all-Idle [] s h = h
  handle_all-Idle ((sys, c) ∷ cs) s h =
      handle_all-Idle cs (handle recent_logs pkg_version sys c s).1 (handle-Idle sys c s h)
