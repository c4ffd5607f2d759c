-- ===== src/Service/Handler/Answers.antt =====
-- service/handler.rs: the answers to a start that works and to the question for a core that runs.
use stelliberty_m.Base.{ℕ, ◌≡◌, ap, String, true, List, some}
use stelliberty_m.Service.Manager
use stelliberty_m.Service.Manager.{System, StartArgs, ok, alive, uptime_at}
use stelliberty_m.Service.Manager.Laws.{get_status-alive}
use stelliberty_m.Service.Protocol.{start_clash, get_status, success, status}
use stelliberty_m.Service.Handler.{Service, started, reported, handle}

-- The state of the service with the manager that a start leaves.
abbrev pub after_start : System → StartArgs → Service → Service
after_start sys a s = record s { manager = (Manager.start sys a s.manager).1 }

module _ (recent_logs : ℕ → List String) (pkg_version : String) (sys : System) where
  pub handle-start_ok :
      (a : StartArgs) (s : Service)
      → (Manager.start sys a s.manager).0 ≡ ok tt
      → handle recent_logs pkg_version sys (start_clash a) s
        ≡ (success (some "Clash 启动成功"), after_start sys a s)
  unfolding handle started
  handle-start_ok a s works = ap (λ r. started s (r, (Manager.start sys a s.manager).1)) works

  pub handle-get_status_alive :
      (s : Service) (pid : ℕ)
      → s.manager.child ≡ some pid
      → sys.try_wait pid ≡ alive
      → handle recent_logs pkg_version sys get_status s
        ≡ (status true (some pid) (uptime_at sys.now s.manager.start_time), s)
  unfolding handle reported
  handle-get_status_alive s pid child lives =
      ap (λ x. reported s x) (get_status-alive sys s.manager pid child lives)
