-- ===== src/Service/Tests.antt =====
-- Runs of the service's code and of its theorems on one core.
use stelliberty_m.Base.{ℕ, refl, true, List, [], ◌∷◌, none, some}
use stelliberty_m.Service.Manager
use stelliberty_m.Service.Manager.{
  unix, alive, stop_failed, ok, err, System, ClashManager, StartArgs, start, stop, get_status,
}
use stelliberty_m.Service.Protocol
use stelliberty_m.Service.Protocol.{IpcCommand}
use stelliberty_m.Service.Handler.{Service}
use stelliberty_m.Service.Handler.Laws.{Idle, handle_all, handle_all-Idle}

-- A system at a time, which gives out process 42 and kills everything.
abbrev at : ℕ → System
at t = record {
  platform = unix;
  now = t;
  try_wait = λ pid. alive;
  kill = λ pid. none;
  exists = λ path. true;
  spawn = λ path args. some 42;
}

-- The same with a kill that is refused.
abbrev guarded : ℕ → System
guarded t = record {
  platform = unix;
  now = t;
  try_wait = λ pid. alive;
  kill = λ pid. some "EPERM";
  exists = λ path. true;
  spawn = λ path args. some 42;
}

abbrev args : StartArgs
args = record {
  core_path = "/opt/core";
  config_path = "/tmp/config.yaml";
  data_dir = "/tmp";
  external_controller = "";
}

abbrev fresh : Service
fresh = record { manager = Manager.new; last_heartbeat = 1 }

abbrev commands : List (System × IpcCommand)
commands =
    (at 5, Protocol.start_clash args)
    ∷ (at 6, Protocol.heartbeat)
    ∷ (guarded 7, Protocol.stop_clash)
    ∷ []

fresh-Idle : Idle fresh
unfolding Manager.new
fresh-Idle = λ e. refl

handle_all-Idle_example : Idle (handle_all (λ n. []) "1.0" commands fresh)
handle_all-Idle_example = handle_all-Idle (λ n. []) "1.0" commands fresh fresh-Idle
