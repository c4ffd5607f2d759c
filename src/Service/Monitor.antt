-- ===== src/Service/Monitor.antt =====
-- native/stelliberty_service/src/service/runner.rs: the heartbeat monitor, which stops the core when
-- the application has been silent for too long. Times are in milliseconds; one round reads the clock
-- once.
pub mod Laws
use stelliberty_m.Base.{ℕ, ◌-◌, ltb, if◌then◌else◌}
use stelliberty_m.Service.Manager
use stelliberty_m.Service.Manager.{System}
use stelliberty_m.Service.Handler.{Service}

abbrev pub heartbeat_timeout : ℕ
heartbeat_timeout = 70000

-- A longer gap between two rounds is taken for a sleep of the system.
abbrev pub sleep_gap : ℕ
sleep_gap = 60000

pub record Monitor : Type 0 where
  pub service : Service
  pub last_check_time : ℕ

-- The core is stopped, and the time is reset whether that worked or not.
stop_core : System → Service → Service
stop_core sys s = record s { manager = (Manager.stop sys s.manager).1; last_heartbeat = sys.now }

check : System → ℕ → Service → Service
check sys check_elapsed s =
    if ltb sleep_gap check_elapsed
    then record s { last_heartbeat = sys.now }
    else (if ltb heartbeat_timeout (sys.now - s.last_heartbeat) then stop_core sys s else s)

-- One round of the monitor's loop, behind its sleep.
unfoldable pub round : System → Monitor → Monitor
unfolding stop_core check
round sys m = record {
  service = check sys (sys.now - m.last_check_time) m.service;
  last_check_time = sys.now;
}
