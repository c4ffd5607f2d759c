-- ===== src/Control/Process/Held.antt =====
-- process_manager.rs: the process that the manager holds and those that run, over the requests.
use stelliberty_m.Base.{
  ℕ, ◌≡◌, refl, ap, ◌∙◌, String, List, [], ◌∷◌, Option, none, some, Result, ok, err, eqb, eqb_iff,
  ◌⊎◌, inl, inr, Bool-cases,
}
use stelliberty_m.Ipc.Pool.{Pool}
use stelliberty_m.Network.Connect.{cleanup_ipc_connection_pool}
use stelliberty_m.Network.Streams.{Hub, cleanup_all_network_resources}
use stelliberty_m.Network.Streams.Running
use stelliberty_m.Network.Streams.Running.{cleanup_ws_client-Idle}
use stelliberty_m.Control.Process.{
  done, ClashProcess, World, without_pid, Stop, begun, start_if_none, handle_start, told, taken,
  stop_told, handle_stop, cleanup, cleanup_process_manager,
}

abbrev pub Held : Option ClashProcess → List ℕ → Type 0
Held none alive = alive ≡ []
Held (some p) alive = (alive ≡ p.pid ∷ []) ⊎ (alive ≡ [])

-- A `stop` whose process has ended when it returns.
abbrev pub Works : Stop → Type 0
Works stop = (p : ClashProcess) (alive : List ℕ) → stop p alive ≡ (ok tt, without_pid p.pid alive)

abbrev pub ends : ℕ → World → World
ends pid w = record w { alive = without_pid pid w.alive }

-- A start, which may fail, a stop or the end of the application that works, or the end of a process on its
-- own, while the network does what it does.
pub data Step (w : World) : World → Type 0 where
  started : (s : Result ClashProcess) → Step w (handle_start s w).1
  stopped : (stop : Stop) → Works stop → Step w (handle_stop stop w).1
  closed : (stop : Stop) → Works stop → Step w (cleanup stop w)
  ended : (pid : ℕ) → Step w (ends pid w)
  elsewhere : (network : Hub × Pool) → Step w (record w { network = network })

pub data Reach : World → Type 0 where
  first :
      (network : Hub × Pool)
      → Reach (record { process_manager = none; alive = []; network = network })
  step : {w next : World} → Reach w → Step w next → Reach next

abbrev HeldIn : World → Type 0
HeldIn w = Held w.process_manager w.alive

without_own : (pid : ℕ) → without_pid pid (pid ∷ []) ≡ []
without_own pid = rw ((eqb_iff pid pid).1 refl) refl

start-Held :
    (o : Option ClashProcess) (s : Result ClashProcess) (w : World)
    → w.process_manager ≡ o
    → HeldIn w
    → HeldIn (start_if_none o s w).1
unfolding start_if_none begun
start-Held (some p) s w e h = h
start-Held none (err m) w e h = h
start-Held none (ok q) w e h = inl (ap (λ l. q.pid ∷ l) (rw e at h))

-- What a `stop` that works leaves of what the manager held.
taken-none :
    (stop : Stop) (o : Option ClashProcess) (w : World)
    → Works stop
    → w.process_manager ≡ o
    → HeldIn w
    → let after = (taken stop o w).1 in (after.process_manager ≡ none) × (after.alive ≡ [])
unfolding taken
taken-none stop none w works e h = (e, rw e at h)
taken-none stop (some p) w works e h = (refl, rw (works p w.alive) (gone (rw e at h)))
  where
    gone : Held (some p) w.alive → without_pid p.pid w.alive ≡ []
    gone (inl one) = ap (without_pid p.pid) one ∙ without_own p.pid
    gone (inr nothing) = ap (without_pid p.pid) nothing

stop_told-world : (x : Option (Result (Unit {0})) × World) → (stop_told x).1 ≡ x.1
unfolding stop_told
stop_told-world (none, w) = refl
stop_told-world (some r, w) = refl

-- A stop that works, on what it finds once the network is cleaned up.
stop-none :
    (stop : Stop) (w : World)
    → Works stop
    → HeldIn w
    → let after = (handle_stop stop w).1 in (after.process_manager ≡ none) × (after.alive ≡ [])
unfolding handle_stop
stop-none stop w works h =
    let clean = record w { network = cleanup_all_network_resources w.network } in
    rw (stop_told-world (taken stop clean.process_manager clean))
      (taken-none stop clean.process_manager clean works refl h)

of_none : (w : World) → w.process_manager ≡ none → w.alive ≡ [] → HeldIn w
of_none w e h = rw e h

ends-Held :
    (o : Option ClashProcess) (pid : ℕ) (alive : List ℕ)
    → Held o alive
    → Held o (without_pid pid alive)
ends-Held none pid alive h = ap (without_pid pid) h
ends-Held (some p) pid alive (inr h) = inr (ap (without_pid pid) h)
ends-Held (some p) pid alive (inl h) = elim (Bool-cases (eqb pid p.pid)) [
  | inl e ↦ inr (ap (without_pid pid) h ∙ rw e refl)
  | inr e ↦ inl (ap (without_pid pid) h ∙ rw e refl)
]

Step-Held : (w next : World) → Step w next → HeldIn w → HeldIn next
unfolding handle_start cleanup
Step-Held w next (started s) h = start-Held w.process_manager s w refl h
Step-Held w next (stopped stop works) h =
    let (e, a) = stop-none stop w works h in of_none (handle_stop stop w).1 e a
Step-Held w next (closed stop works) h =
    let (e, a) = taken-none stop w.process_manager w works refl h in of_none (cleanup stop w) e a
Step-Held w next (ended pid) h = ends-Held w.process_manager pid w.alive h
Step-Held w next (elsewhere network) h = h

-- Over any sequence of starts, which may fail, of stops and ends of the application that work, and of
-- processes that end on their own: at most one process runs, and where one runs the manager holds it.
pub Reach-Held : (w : World) → Reach w → Held w.process_manager w.alive
Reach-Held w (first network) = refl
Reach-Held next (step {w} before s) = Step-Held w next s (Reach-Held w before)

taken-network :
    (stop : Stop) (o : Option ClashProcess) (w : World) → (taken stop o w).1.network ≡ w.network
unfolding taken
taken-network stop none w = refl
taken-network stop (some p) w = refl

taken-done :
    (stop : Stop) (o : Option ClashProcess) (w : World)
    → Works stop
    → (stop_told (taken stop o w)).0 ≡ done none ∷ []
unfolding taken stop_told told
taken-done stop none w works = refl
taken-done stop (some p) w works = rw (works p w.alive) refl

stop-network :
    (stop : Stop) (w : World)
    → (handle_stop stop w).1.network ≡ cleanup_all_network_resources w.network
unfolding handle_stop
stop-network stop w =
    let clean = record w { network = cleanup_all_network_resources w.network } in
    ap (λ x. x.network) (stop_told-world (taken stop clean.process_manager clean))
    ∙ taken-network stop clean.process_manager clean

-- In a state that requests lead to, and the network too, a stop that works answers once, with success, and
-- leaves no process, no task that reads a stream and no connection in the pool.
pub handle_stop-Idle :
    (stop : Stop) (ipc_path : String) (w : World)
    → Works stop
    → Reach w
    → Running.Reach ipc_path w.network.0
    → let (sent, after) = handle_stop stop w in
      (sent ≡ done none ∷ [])
      × (after.alive ≡ [])
      × (after.network.0.runtime.running ≡ [])
      × (after.network.1 ≡ [])
unfolding handle_stop cleanup_all_network_resources cleanup_ipc_connection_pool
handle_stop-Idle stop ipc_path w works reached online =
    let clean = record w { network = cleanup_all_network_resources w.network } in
    let kept = stop-network stop w in
    let (idle, _none) = cleanup_ws_client-Idle ipc_path w.network.0 online in
    (
      taken-done stop clean.process_manager clean works,
      (stop-none stop w works (Reach-Held w reached)).1,
      ap (λ n. n.0.runtime.running) kept ∙ idle,
      ap (λ n. n.1) kept,
    )

-- The clean-up behind the removal of the service drops a process without a stop: it stays alive, and the
-- start that follows, if it works, makes a second one.
pub start_behind_cleanup :
    (w : World) (p q : ClashProcess)
    → w.process_manager ≡ some p
    → w.alive ≡ p.pid ∷ []
    → let (sent, after) = handle_start (ok q) (cleanup_process_manager w) in
      (sent ≡ done (some q.pid) ∷ []) × (after.alive ≡ q.pid ∷ p.pid ∷ [])
unfolding handle_start begun start_if_none cleanup_process_manager
start_behind_cleanup w p q held alive = (refl, ap (λ l. q.pid ∷ l) alive)
