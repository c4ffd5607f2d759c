-- ===== src/Service/Manager.antt =====
-- native/stelliberty_service/src/clash/manager.rs: the process of the Clash core. What the system
-- answers in the course of one call is a value of `System`; a process is known by its pid, a time is
-- in milliseconds. Errors are kept as their parts, not as formatted texts. The clean-up of orphaned
-- processes and of the API socket, whose errors are only logged, changes nothing of the manager.
pub mod Laws
use stelliberty_m.Base.{
  ℕ, ◌-◌, ◌/◌, Bool, true, false, List, [], ◌∷◌, Option, none, some, String, if◌then◌else◌,
}

pub data Platform : Type 0 where
  windows unix : Platform

-- `Child::try_wait`.
pub data Poll : Type 0 where
  exited alive poll_failed : Poll

pub data ClashError : Type 0 where
  stop_failed : ℕ → String → ClashError
  no_core no_config : String → ClashError
  spawn_failed : String → List String → ClashError

pub data Outcome (A : Type 0) : Type 0 where
  ok : A → Outcome A
  err : ClashError → Outcome A

pub record System : Type 0 where
  pub platform : Platform
  pub now : ℕ
  pub try_wait : ℕ → Poll
  pub kill : ℕ → Option String
  pub exists : String → Bool
  pub spawn : String → List String → Option ℕ

pub record ClashManager : Type 0 where
  pub core_path : Option String
  pub config_path : Option String
  pub data_dir : Option String
  pub api_host : Option String
  pub api_port : Option ℕ
  pub child : Option ℕ
  pub start_time : Option ℕ

pub record ClashStatus : Type 0 where
  pub is_running : Bool
  pub pid : Option ℕ
  pub uptime : ℕ

unfoldable pub new : ClashManager
new = record {
  core_path = none;
  config_path = none;
  data_dir = none;
  api_host = none;
  api_port = none;
  child = none;
  start_time = none;
}

abbrev pub cleared : ClashManager → ClashManager
cleared m = record m { child = none; start_time = none }

polled : Poll → ClashManager → Bool × ClashManager
polled exited m = (false, cleared m)
polled alive m = (true, m)
polled poll_failed m = (false, cleared m)

poll_child : System → Option ℕ → ClashManager → Bool × ClashManager
poll_child sys none m = (false, m)
poll_child sys (some pid) m = polled (sys.try_wait pid) m

-- `is_running` forgets a process that has ended, or that cannot be asked.
unfoldable pub is_running : System → ClashManager → Bool × ClashManager
unfolding polled poll_child
is_running sys m = poll_child sys m.child m

-- A kill that the system refuses: on Windows the process is killed by force, elsewhere the call
-- fails, with the handle of the process already taken out.
kill_refused : Platform → ℕ → String → ClashManager → Outcome (Unit {0}) × ClashManager
kill_refused windows pid e m = (ok tt, cleared m)
kill_refused unix pid e m = (err (stop_failed pid e), record m { child = none })

killed : System → ℕ → Option String → ClashManager → Outcome (Unit {0}) × ClashManager
killed sys pid none m = (ok tt, cleared m)
killed sys pid (some e) m = kill_refused sys.platform pid e m

stop_child : System → Option ℕ → ClashManager → Outcome (Unit {0}) × ClashManager
stop_child sys none m = (ok tt, m)
stop_child sys (some pid) m = killed sys pid (sys.kill pid) m

unfoldable pub stop : System → ClashManager → Outcome (Unit {0}) × ClashManager
unfolding kill_refused killed stop_child
stop sys m = stop_child sys m.child m

pub record StartArgs : Type 0 where
  pub core_path : String
  pub config_path : String
  pub data_dir : String
  pub external_controller : String

-- The arguments of the core; the controller is passed also where it is empty.
abbrev pub core_args : StartArgs → List String
core_args a = "-d" ∷ a.data_dir ∷ "-f" ∷ a.config_path ∷ "-ext-ctl" ∷ a.external_controller ∷ []

spawned : System → StartArgs → Option ℕ → ClashManager → Outcome (Unit {0}) × ClashManager
spawned sys a none m = (err (spawn_failed a.core_path (core_args a)), m)
spawned sys a (some pid) m = (
  ok tt,
  record {
    core_path = some a.core_path;
    config_path = some a.config_path;
    data_dir = some a.data_dir;
    api_host = none;
    api_port = none;
    child = some pid;
    start_time = some sys.now;
  },
)

launch : System → StartArgs → ClashManager → Outcome (Unit {0}) × ClashManager
launch sys a m =
    if sys.exists a.core_path
    then (if sys.exists a.config_path
        then spawned sys a (sys.spawn a.core_path (core_args a)) m
        else (err (no_config a.config_path), m))
    else (err (no_core a.core_path), m)

launch_after :
    System → StartArgs → Outcome (Unit {0}) × ClashManager → Outcome (Unit {0}) × ClashManager
launch_after sys a (err e, m) = (err e, m)
launch_after sys a (ok _, m) = launch sys a m

start_from : System → StartArgs → Bool × ClashManager → Outcome (Unit {0}) × ClashManager
start_from sys a (true, m) = launch_after sys a (stop sys m)
start_from sys a (false, m) = launch sys a m

-- A core that runs is stopped first.
unfoldable pub start : System → StartArgs → ClashManager → Outcome (Unit {0}) × ClashManager
unfolding is_running stop spawned launch launch_after start_from
start sys a m = start_from sys a (is_running sys m)

-- Whole seconds since the start.
abbrev pub uptime_at : ℕ → Option ℕ → ℕ
uptime_at now none = 0
uptime_at now (some t) = (now - t) / 1000

status_from : System → Bool × ClashManager → ClashStatus × ClashManager
status_from sys (true, m) =
    (record { is_running = true; pid = m.child; uptime = uptime_at sys.now m.start_time }, m)
status_from sys (false, m) = (record { is_running = false; pid = none; uptime = 0 }, m)

unfoldable pub get_status : System → ClashManager → ClashStatus × ClashManager
unfolding is_running status_from
get_status sys m = status_from sys (is_running sys m)
