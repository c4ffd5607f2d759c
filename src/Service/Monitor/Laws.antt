-- ===== src/Service/Monitor/Laws.antt =====
-- service/runner.rs: when the heartbeat monitor stops the core, and when it leaves it alone.
use stelliberty_m.Base.{
  ℕ, ◌-◌, ◌+◌, ◌≤◌, ◌<◌, ltb, arith, Bool-cases, true, false, ◌≡◌, refl, ◌∙◌, List, [], ◌∷◌, inl,
  inr, All,
}
use stelliberty_m.Service.Manager
use stelliberty_m.Service.Manager.{System}
use stelliberty_m.Service.Monitor.{heartbeat_timeout, sleep_gap, Monitor, stop_core, check, round}

-- A round that comes in time and finds the application silent for longer than the timeout runs the
-- manager's stop, and counts the silence anew from there.
pub round_silent :
    (sys : System) (m : Monitor)
    → sys.now - m.last_check_time ≤ sleep_gap
    → heartbeat_timeout < sys.now - m.service.last_heartbeat
    → let s = (round sys m).service in
      (s.manager ≡ (Manager.stop sys m.service.manager).1) × (s.last_heartbeat ≡ sys.now)
unfolding round check stop_core
round_silent sys m early late =
    let e : ltb sleep_gap (sys.now - m.last_check_time) ≡ false = ground arith in
    let t : ltb heartbeat_timeout (sys.now - m.service.last_heartbeat) ≡ true = ground arith in
    rw (e, t) (refl, refl)

-- A round that comes late, as after a sleep of the system, leaves the manager as it is however long
-- the application has been silent, and counts the silence anew.
pub round_late :
    (sys : System) (m : Monitor)
    → sleep_gap < sys.now - m.last_check_time
    → let s = (round sys m).service in
      (s.manager ≡ m.service.manager) × (s.last_heartbeat ≡ sys.now)
unfolding round check
round_late sys m late =
    let e : ltb sleep_gap (sys.now - m.last_check_time) ≡ true = ground arith in rw e (refl, refl)

abbrev pub rounds : List System → Monitor → Monitor
rounds [] m = m
rounds (sys ∷ later) m = rounds later (round sys m)

-- What a round at most `heartbeat_timeout` behind `beat` keeps.
record Kept (beat : ℕ) (m m' : Monitor) : Type 0 where
  pub manager_kept : m'.service.manager ≡ m.service.manager
  pub beat_kept : beat ≤ m'.service.last_heartbeat

abbrev pub Within : ℕ → System → Type 0
Within beat sys = (beat ≤ sys.now) × (sys.now ≤ beat + heartbeat_timeout)

round-Kept :
    (beat : ℕ) (sys : System) (m : Monitor)
    → Within beat sys
    → beat ≤ m.service.last_heartbeat
    → Kept beat m (round sys m)
unfolding round check
round-Kept beat sys m (lo, hi) b = elim (Bool-cases (ltb sleep_gap (sys.now - m.last_check_time))) [
  | inl e ↦ rw e record { manager_kept = refl; beat_kept = lo }
  | inr e ↦
      let t : ltb heartbeat_timeout (sys.now - m.service.last_heartbeat) ≡ false = ground arith in
      rw (e, t) record { manager_kept = refl; beat_kept = b }
]

rounds-kept :
    (beat : ℕ) (syss : List System) (m : Monitor)
    → All (Within beat) syss
    → beat ≤ m.service.last_heartbeat
    → (rounds syss m).service.manager ≡ m.service.manager
rounds-kept beat [] m all b = refl
rounds-kept beat (sys ∷ later) m (w, all) b =
    let k = round-Kept beat sys m w b in
    rounds-kept beat later (round sys m) all k.beat_kept ∙ k.manager_kept

-- Rounds at times between the last heartbeat and `heartbeat_timeout` after it, as many as there are
-- and with sleeps of the system among them, never touch the manager.
pub rounds_in_time :
    (syss : List System) (m : Monitor)
    → All (Within m.service.last_heartbeat) syss
    → (rounds syss m).service.manager ≡ m.service.manager
rounds_in_time syss m all = rounds-kept m.service.last_heartbeat syss m all (omega arith)
