-- ===== src/Control/Tests.antt =====
-- Runs of the control of the core and of the service, and of the theorems on them.
use stelliberty_m.Base.{
  ℕ, zero, suc, ◌≡◌, ◌≤◌, refl, ◌↔◌, ◌⊎◌, String, Bool, true, false, [], ◌∷◌, Option, some, none,
  Result, ok, err, pos, arith,
}
use stelliberty_m.Ipc.Pool.{Pool}
use stelliberty_m.Network.Streams.{Hub, traffic, start}
use stelliberty_m.Network.Streams.Running
use stelliberty_m.Network.Socket.{Dial}
use stelliberty_m.Service.Manager
use stelliberty_m.Service.Manager.{unix, alive, no_core, System, StartArgs}
use stelliberty_m.Service.Protocol
use stelliberty_m.Service.Protocol.{IpcCommand, IpcResponse, status, error, success, heartbeat_ack}
use stelliberty_m.Service.Handler.{Service}
use stelliberty_m.Service.Handler.Answers.{after_start}
use stelliberty_m.Service.Wire
use stelliberty_m.Service.Wire.{IpcResult, Codec, frame, Link, try_send_command, send_command}
use stelliberty_m.Control.Process.{
  done, refused, ClashProcess, World, stop_windows, handle_start, handle_stop,
}
use stelliberty_m.Control.Process.Windows.{
  Calls, Left, command_line, start_windows, start_windows-Left,
}
use stelliberty_m.Control.Process.Held.{
  Held, Works, Reach, first, step, started, elsewhere, Reach-Held, handle_stop-Idle,
}
use stelliberty_m.Control.Manager.{
  windows, linux, Probes, Texts, handle_get_status, handle_start_clash,
}
use stelliberty_m.Control.Manager.Answers.{
  service, handle_start_clash-pid, handle_start_clash_loses,
}
use stelliberty_m.Control.Install.{Output, Platform, handle_uninstall, succeeded}
use stelliberty_m.Control.Install.Outcome.{WorksOn, Removable, handle_uninstall_iff}

command_run :
    command_line "C:\\core.exe" ("-d" ∷ "C:\\My data" ∷ []) ≡ "\"C:\\core.exe\" -d \"C:\\My data\""
unfolding command_line stelliberty_m.Base.contains
command_run = refl

-- The thread of the new process cannot be resumed.
abbrev stuck : Calls
stuck = record {
  create_job = true;
  set_information = true;
  create_process = λ line. some 77;
  assign = true;
  resume = false;
  terminate = true;
  close_job = true;
  close_process = false;
  close_thread = true;
}

start_windows-Left_example : Left stuck (start_windows stuck "core" [])
start_windows-Left_example = start_windows-Left stuck "core" []

abbrev hub : Hub
hub = record {
  client = none;
  traffic_connection_id = none;
  log_connection_id = none;
  memory_connection_id = none;
  connection_stream_id = none;
  runtime = record { running = []; next_task = 5 };
}

abbrev dial : Dial
dial = record { stream = ok 1; request = ok tt; handshake = ok tt }

abbrev one_stream : Hub
one_stream = (start "p" traffic dial hub).1

one_stream-Reach : Running.Reach "p" one_stream
one_stream-Reach = Running.step (Running.first hub refl refl) (Running.started traffic dial tt)

abbrev idle : Hub × Pool
idle = (hub, [])

abbrev busy : Hub × Pool
busy = (one_stream, record { conn = 3; last_used = 0 } ∷ [])

abbrev core : ClashProcess
core = record { pid = 42 }

abbrev begun : World
begun = (handle_start (ok core) (record { process_manager = none; alive = []; network = idle })).1

begun-Reach : Reach begun
begun-Reach = step (first idle) (started (ok core))

abbrev online : World
online = record begun { network = busy }

Reach-Held_example : Held begun.process_manager begun.alive
Reach-Held_example = Reach-Held begun begun-Reach

stop_windows-Works : Works stop_windows
unfolding stop_windows
stop_windows-Works p pids = refl

handle_stop-Idle_example :
    let (sent, after) = handle_stop stop_windows online in
    (sent ≡ done none ∷ [])
    × (after.alive ≡ [])
    × (after.network.0.runtime.running ≡ [])
    × (after.network.1 ≡ [])
handle_stop-Idle_example =
    handle_stop-Idle stop_windows "p" online stop_windows-Works (step begun-Reach (elsewhere busy))
      one_stream-Reach

-- A service that runs process 42.
abbrev runs : IpcCommand → ℕ → IpcResult IpcResponse × ℕ
runs Protocol.heartbeat n = (Wire.ok heartbeat_ack, suc n)
runs command n = (Wire.ok (status true (some 42) 9), suc n)

abbrev probes : Probes
probes = record { installed = true; active = true; heartbeat_late = false }

status_run : (handle_get_status runs (ok tt) windows probes 0).0.pid ≡ some 42
unfolding handle_get_status
status_run = refl

abbrev system : System
system = record {
  platform = unix;
  now = 5;
  try_wait = λ pid. alive;
  kill = λ pid. none;
  exists = λ path. true;
  spawn = λ path args. some 42;
}

abbrev args : StartArgs
args = record {
  core_path = "/opt/core";
  config_path = "/tmp/config.yaml";
  data_dir = "/tmp";
  external_controller = "";
}

abbrev fresh : Service
fresh = record { manager = Manager.new; last_heartbeat = 1 }

abbrev texts : Texts
texts = record { show = λ n. "n"; show_error = λ e. "e"; debug = λ r. "r" }

-- The service answers every command by an error.
abbrev codec : Codec
codec = record {
  command_to_json = λ c. Wire.ok (b'"' ∷ b'v' ∷ b'"' ∷ []);
  command_from_json = λ bytes. Wire.ok Protocol.get_version;
  response_to_json = λ r. Wire.ok (b'{' ∷ b'}' ∷ []);
  response_from_json = λ bytes. Wire.ok (error 1001 (no_core "/opt/core"));
}

start_works : (Manager.start system args Manager.new).0 ≡ Manager.ok tt
unfolding Manager.start Manager.new
start_works = refl

handle_start_clash-pid_example :
    (pid : ℕ) × (system.spawn "/opt/core" (Manager.core_args args) ≡ some pid)
    × (handle_start_clash texts (service (λ n. []) "1.0" codec system) (ok tt) args fresh
        ≡ (done (some pid), after_start system args fresh))
    × ((after_start system args fresh).manager.child ≡ some pid)
handle_start_clash-pid_example =
    handle_start_clash-pid (λ n. []) "1.0" codec system texts args fresh start_works (λ q. refl)

abbrev link : Link
link = record {
  connected = Wire.ok tt;
  writes = none;
  answers = λ bytes. frame (b'{' ∷ b'}' ∷ []);
  length_late = false;
  data_late = false;
}

abbrev send : IpcCommand → ℕ → IpcResult IpcResponse × ℕ
send command n = (send_command codec 2 (λ i. link) command, n)

error_run :
    try_send_command codec link (Protocol.start_clash args)
    ≡ Wire.ok (error 1001 (no_core "/opt/core"))
unfolding try_send_command stelliberty_m.Ipc.Stream.take_exact Wire.from_le_bytes
error_run = refl

handle_start_clash_loses_example :
    (handle_start_clash texts send (ok tt) args 0).0 ≡ refused "发送启动命令失败"
handle_start_clash_loses_example =
    handle_start_clash_loses texts send codec 2 (λ i. link) args 0 1001 (no_core "/opt/core") refl
      error_run

abbrev worked : Output
worked = record { success = true; code = some (pos 0); stdout = ""; stderr = "" }

abbrev as_root : Platform
as_root = record {
  host = linux;
  has_root = true;
  direct = ok worked;
  pkexec = err "no pkexec";
  shell = record { path_text = none; binary_exists = false; execute = pos 0; found = λ i. false };
}

handle_uninstall_iff_example :
    ((handle_uninstall (λ v. "v") as_root false (λ i. false) "/b" (ok tt) begun).0.operation
      ≡ succeeded)
    ↔ (WorksOn linux as_root × Removable false (λ i. false))
handle_uninstall_iff_example = handle_uninstall_iff (λ v. "v") as_root false (λ i. false) "/b" begun
