-- ===== src/Control/Manager/Answers.antt =====
-- service_manager.rs, with the handler of the service and the client of its protocol: what the answers to
-- the user interface rest on.
use stelliberty_m.Base.{
  ℕ, ◌≡◌, refl, sym, ap, ◌∙◌, String, Bool, true, false, List, none, some, Result, ok, err, arith,
  if◌then◌else◌,
}
use stelliberty_m.Service.Manager
use stelliberty_m.Service.Manager.{System, StartArgs, ClashError, ClashManager, alive}
use stelliberty_m.Service.Manager.Laws.{start-Launched}
use stelliberty_m.Service.Protocol
use stelliberty_m.Service.Protocol.{
  IpcCommand, IpcResponse, success, error, status, logs, log_stream, version, heartbeat_ack,
}
use stelliberty_m.Service.Handler.{Service, handle}
use stelliberty_m.Service.Handler.Answers.{after_start, handle-start_ok, handle-get_status_alive}
use stelliberty_m.Service.Wire
use stelliberty_m.Service.Wire.{
  IpcResult, Codec, Link, checked, try_send_command, send_command, attempt_from,
}
use stelliberty_m.Service.Wire.Exchange.{send_command-first}
use stelliberty_m.Control.Process.{done, refused}
use stelliberty_m.Control.Manager.{
  Host, windows, linux, mac_os, ServiceStatus, stopped, not_installed, unknown, Probes, Texts,
  status_of, core_status, is_ack, ServiceStatusResponse, status_response, detailed, if_acknowledged,
  get_status, answered_status, handle_get_status, without_core, start_answered, start_clash,
  start_result, handle_start_clash, pid_of, with_pid,
}

-- A response that names a process rests on a status of the service.
abbrev pub FromStatus :
    {S : Type 0} → (IpcCommand → S → IpcResult IpcResponse × S) → ℕ → ServiceStatusResponse → Type 0
FromStatus {S} send p response =
    (asked : S) × (is_running : Bool) × (uptime : ℕ) × ((send Protocol.get_status asked).0
      ≡ Wire.ok (status is_running (some p) uptime))
    × (response ≡ record { status = "running"; pid = some p; uptime = some uptime })

module _ {S : Type 0} (send : IpcCommand → S → IpcResult IpcResponse × S) (p : ℕ) where
  abbrev NoPid : ServiceStatus → Type 0
  NoPid st = (status_response st).pid ≡ none

  of_status :
      (otherwise : ServiceStatus) (r : IpcResult IpcResponse)
      → NoPid otherwise
      → (status_response (status_of otherwise r)).pid ≡ some p
      → (is_running : Bool) × (uptime : ℕ) × (r ≡ Wire.ok (status is_running (some p) uptime))
        × (status_response (status_of otherwise r)
            ≡ record { status = "running"; pid = some p; uptime = some uptime })
  unfolding status_of core_status status_response
  of_status otherwise (Wire.ok (status b none up)) n h = cc
  of_status otherwise (Wire.ok (status b (some q) up)) n h =
      let same : q ≡ p = cc in
      (
        b,
        up,
        ap (λ x. Wire.ok (status b (some x) up)) same,
        ap (λ x. record { status = "running"; pid = some x; uptime = some up }) same,
      )
  of_status otherwise (Wire.ok (success m)) n h = let e = sym n ∙ h in cc
  of_status otherwise (Wire.ok (error c m)) n h = let e = sym n ∙ h in cc
  of_status otherwise (Wire.ok (logs l)) n h = let e = sym n ∙ h in cc
  of_status otherwise (Wire.ok (log_stream l)) n h = let e = sym n ∙ h in cc
  of_status otherwise (Wire.ok (version v)) n h = let e = sym n ∙ h in cc
  of_status otherwise (Wire.ok heartbeat_ack) n h = let e = sym n ∙ h in cc
  of_status otherwise (Wire.err e) n h = let e' = sym n ∙ h in cc

  Names : ServiceStatus × S → Type 0
  Names x = (status_response x.0).pid ≡ some p → FromStatus send p (status_response x.0)

  not_none : none ≡ some p → ⊥
  not_none h = cc

  of_none : (st : ServiceStatus) (s : S) → NoPid st → Names (st, s)
  unfolding Names
  of_none st s n h = elim (not_none (sym n ∙ h)) [ ]

  of_either : (b : Bool) (x y : ServiceStatus × S) → Names x → Names y → Names (if b then x else y)
  of_either true x y f g = f
  of_either false x y f g = g

  of_detailed :
      (otherwise : ServiceStatus) (s : S)
      → NoPid otherwise
      → Names (detailed send otherwise (send Protocol.get_status s))
  unfolding detailed Names
  of_detailed otherwise s n h =
      let (b, up, r_is, response_is) = of_status otherwise (send Protocol.get_status s).0 n h in
      (s, b, up, r_is, response_is)

  of_acknowledged :
      (late : Bool) (silent otherwise : ServiceStatus) (x : IpcResult IpcResponse × S)
      → NoPid silent
      → NoPid otherwise
      → Names (if_acknowledged send late silent otherwise x)
  unfolding if_acknowledged
  of_acknowledged late silent otherwise (r, s) n n' =
      of_either (if late then false else is_ack r)
        (detailed send otherwise (send Protocol.get_status s)) (silent, s)
        (of_detailed otherwise s n') (of_none silent s n)

  of_get_status : (host : Host) (probes : Probes) (s : S) → Names (get_status send host probes s)
  unfolding get_status status_response
  of_get_status windows probes s =
      of_either probes.installed
        (if_acknowledged send probes.heartbeat_late stopped unknown (send Protocol.heartbeat s))
        (not_installed, s)
        (of_acknowledged probes.heartbeat_late stopped unknown (send Protocol.heartbeat s) refl
          refl)
        (of_none not_installed s refl)
  of_get_status linux probes s =
      let active = detailed send stopped (send Protocol.get_status s) in
      of_either probes.installed (if probes.active then active else (stopped, s)) (unknown, s)
        (of_either probes.active active (stopped, s) (of_detailed stopped s refl)
          (of_none stopped s refl))
        (of_none unknown s refl)
  of_get_status mac_os probes s =
      of_acknowledged probes.heartbeat_late unknown unknown (send Protocol.heartbeat s) refl refl

-- On every desktop platform: an answer to the question for the state of the service that names a process
-- says "running", and the process and the uptime are those of a status that the service answered.
pub handle_get_status-FromStatus :
    {S : Type 0} (send : IpcCommand → S → IpcResult IpcResponse × S) (created : Result (Unit {0}))
    (host : Host) (probes : Probes) (s : S) (p : ℕ)
    → (handle_get_status send created host probes s).0.pid ≡ some p
    → FromStatus send p (handle_get_status send created host probes s).0
unfolding handle_get_status answered_status without_core Names
handle_get_status-FromStatus send (err e) host probes s p h = elim (not_none send p h) [ ]
handle_get_status-FromStatus send (ok u) host probes s p h = of_get_status send p host probes s h

-- The service behind the protocol: the handler's response, as the client passes it on, and its state.
module _ (recent_logs : ℕ → List String) (pkg_version : String) (codec : Codec) (sys : System) where
  abbrev passed : IpcResponse × Service → IpcResult IpcResponse × Service
  passed (r, s) = (checked codec r, s)

  abbrev pub service : IpcCommand → Service → IpcResult IpcResponse × Service
  service command s = passed (handle recent_logs pkg_version sys command s)

  -- Where the manager of the service can start the core with what the handler was given, and the process
  -- is alive when it is asked for: the answer to the user interface is success with the pid of that process,
  -- which the manager then holds.
  pub handle_start_clash-pid :
      (texts : Texts) (args : StartArgs) (s : Service)
      → (Manager.start sys args s.manager).0 ≡ Manager.ok tt
      → ((q : ℕ) → sys.try_wait q ≡ alive)
      → (pid : ℕ) × (sys.spawn args.core_path (Manager.core_args args) ≡ some pid)
        × (handle_start_clash texts service (ok tt) args s
            ≡ (done (some pid), after_start sys args s))
        × ((after_start sys args s).manager.child ≡ some pid)
  unfolding handle_start_clash start_clash start_answered with_pid pid_of start_result checked
  handle_start_clash-pid texts args s works lives =
      let l = start-Launched sys args s.manager works in
      let next = after_start sys args s in
      let begun = ap passed (handle-start_ok recent_logs pkg_version sys args s works) in
      let asked =
        ap passed (
          handle-get_status_alive recent_logs pkg_version sys next l.pid l.child_is
            (lives l.pid)) in
      (
        l.pid,
        l.given,
        ap (λ x. start_result texts service (start_answered texts service x)) begun
            ∙ ap (λ x. start_result texts service (with_pid texts service x)) asked,
        l.child_is,
      )

-- A command whose first attempt over the protocol is answered by an error of the service: the user
-- interface is told that the command could not be sent, whatever the code and the error of the service.
pub handle_start_clash_loses :
    {S : Type 0} (texts : Texts) (send : IpcCommand → S → IpcResult IpcResponse × S) (codec : Codec)
    (max_retries : ℕ) (links : ℕ → Link) (args : StartArgs) (s : S) (code : ℕ)
    (message : ClashError)
    → (send (Protocol.start_clash args) s).0
      ≡ send_command codec max_retries links (Protocol.start_clash args)
    → try_send_command codec (links 0) (Protocol.start_clash args) ≡ Wire.ok (error code message)
    → (handle_start_clash texts send (ok tt) args s).0 ≡ refused "发送启动命令失败"
unfolding handle_start_clash start_clash start_answered start_result checked
handle_start_clash_loses texts send codec max_retries links args s code message sends answers =
    let sent = send (Protocol.start_clash args) s in
    let first =
      send_command-first codec links (Protocol.start_clash args) max_retries 0 (error code message)
        (omega arith) (λ j l. let no : ⊥ = omega arith in elim no [ ]) answers in
    ap (λ r. (start_result texts send (start_answered texts send (r, sent.1))).0) (sends ∙ first)
