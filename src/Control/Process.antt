-- ===== src/Control/Process.antt =====
-- process_manager.rs: the core as a process of the hub. A process is known by its pid; what the system
-- answers in the course of one call is an argument.
pub mod Windows
pub mod Held
use Prim.Native.String
use stelliberty_m.Base.{
  ℕ, String, Bool, true, false, not, List, [], ◌∷◌, Option, none, some, Result, ok, err, map_err,
  eqb, filter,
}
use stelliberty_m.Ipc.Pool.{Pool}
use stelliberty_m.Network.Streams.{Hub, cleanup_all_network_resources}

pub record ClashProcessResult : Type 0 where
  pub is_successful : Bool
  pub error_message : Option String
  pub pid : Option ℕ

abbrev pub done : Option ℕ → ClashProcessResult
done pid = record { is_successful = true; error_message = none; pid = pid }

abbrev pub refused : String → ClashProcessResult
refused e = record { is_successful = false; error_message = some e; pid = none }

pub record ClashProcess : Type 0 where
  pub pid : ℕ

-- The manager, the processes started here that were not seen to end, and what the network keeps.
pub record World : Type 0 where
  pub process_manager : Option ClashProcess
  pub alive : List ℕ
  pub network : Hub × Pool

abbrev pub without_pid : ℕ → List ℕ → List ℕ
without_pid pid pids = filter (λ q. not (eqb pid q)) pids

-- `start` on Unix, where `spawned` is what `spawn` gives.
unfoldable pub start_unix : Result ℕ → Result ClashProcess
start_unix (err e) = err (String.◌++◌ "启动进程失败：" e)
start_unix (ok pid) = ok (record { pid = pid })

-- `stop` on Unix: a signal that cannot be sent is passed over, `waited` is the error of the wait.
unfoldable pub stop_unix : Option String → ClashProcess → List ℕ → Result (Unit {0}) × List ℕ
stop_unix none p alive = (ok tt, without_pid p.pid alive)
stop_unix (some e) p alive = (err (String.◌++◌ "等待进程退出失败：" e), alive)

-- `stop` on Windows: the closed job ends its process, and a late end is not waited for.
unfoldable pub stop_windows : ClashProcess → List ℕ → Result (Unit {0}) × List ℕ
stop_windows p alive = (ok tt, without_pid p.pid alive)

-- A platform's `stop`, on the processes.
abbrev pub Stop : Type 0
Stop = ClashProcess → List ℕ → Result (Unit {0}) × List ℕ

begun : Result ClashProcess → World → List ClashProcessResult × World
begun (ok p) w =
    (done (some p.pid) ∷ [], record w { process_manager = some p; alive = p.pid ∷ w.alive })
begun (err e) w = (refused e ∷ [], w)

start_if_none : Option ClashProcess → Result ClashProcess → World → List ClashProcessResult × World
start_if_none (some p) started w = (refused "进程已在运行" ∷ [], w)
start_if_none none started w = begun started w

-- `started` is what `ClashProcess::start` gives.
unfoldable pub handle_start : Result ClashProcess → World → List ClashProcessResult × World
unfolding begun start_if_none
handle_start started w = start_if_none w.process_manager started w

told : Result (Unit {0}) → ClashProcessResult
told (ok _) = done none
told (err e) = refused e

-- The process is taken out of the manager before it is stopped.
taken : Stop → Option ClashProcess → World → Option (Result (Unit {0})) × World
taken stop none w = (none, w)
taken stop (some p) w =
    let (result, left) = stop p w.alive in
    (some result, record w { process_manager = none; alive = left })

stop_told : Option (Result (Unit {0})) × World → List ClashProcessResult × World
stop_told (none, w) = (done none ∷ [], w)
stop_told (some result, w) = (told result ∷ [], w)

unfoldable pub handle_stop : Stop → World → List ClashProcessResult × World
unfolding told taken stop_told
handle_stop stop w =
    let clean = record w { network = cleanup_all_network_resources w.network } in
    stop_told (taken stop clean.process_manager clean)

-- `cleanup`, when the application ends.
unfoldable pub cleanup : Stop → World → World
unfolding taken
cleanup stop w = (taken stop w.process_manager w).1

-- The process of the manager is dropped, not stopped.
unfoldable pub cleanup_process_manager : World → World
cleanup_process_manager w = record w { process_manager = none }
