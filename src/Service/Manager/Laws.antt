-- ===== src/Service/Manager/Laws.antt =====
-- clash/manager.rs: what a start, a stop and a status leave behind.
use stelliberty_m.Base.{
  ℕ, Bool, true, false, Bool-cases, String, Option, none, some, Option-cases, ◌≡◌, refl, sym, ap,
  ◌∙◌, if◌then◌else◌, inl, inr, is_some,
}
use stelliberty_m.Service.Manager.{
  Platform, windows, unix, Poll, exited, alive, poll_failed, stop_failed, Outcome, ok, err, System,
  ClashManager, is_running, uptime_at, polled, poll_child, stop, stop_child, killed, kill_refused,
  StartArgs, core_args, start, start_from, launch, launch_after, spawned, get_status, status_from,
}

-- A manager that has no start time has no process.
abbrev pub Timed : ClashManager → Type 0
Timed m = m.start_time ≡ none → m.child ≡ none

polled-Timed : (p : Poll) (m : ClashManager) → Timed m → Timed (polled p m).1
unfolding polled
polled-Timed exited m h = λ _. refl
polled-Timed alive m h = h
polled-Timed poll_failed m h = λ _. refl

is_running-Timed : (sys : System) (m : ClashManager) → Timed m → Timed (is_running sys m).1
unfolding is_running poll_child
is_running-Timed sys m h = by_child m.child
  where
    by_child : (c : Option ℕ) → Timed (poll_child sys c m).1
    by_child none = h
    by_child (some pid) = polled-Timed (sys.try_wait pid) m h

kill_refused-child :
    (p : Platform) (pid : ℕ) (e : String) (m : ClashManager)
    → (kill_refused p pid e m).1.child ≡ none
unfolding kill_refused
kill_refused-child windows pid e m = refl
kill_refused-child unix pid e m = refl

killed-child :
    (sys : System) (pid : ℕ) (o : Option String) (m : ClashManager)
    → (killed sys pid o m).1.child ≡ none
unfolding killed
killed-child sys pid none m = refl
killed-child sys pid (some e) m = kill_refused-child sys.platform pid e m

stop_child-child :
    (sys : System) (c : Option ℕ) (m : ClashManager)
    → m.child ≡ c
    → (stop_child sys c m).1.child ≡ none
unfolding stop_child
stop_child-child sys none m h = h
stop_child-child sys (some pid) m h = killed-child sys pid (sys.kill pid) m

-- A stop leaves no process in the manager, whether it works or not.
pub stop-child : (sys : System) (m : ClashManager) → (stop sys m).1.child ≡ none
unfolding stop
stop-child sys m = stop_child-child sys m.child m refl

-- Where a system that is not Windows refuses to kill the process, the stop fails and takes the
-- handle of the process out with it: the next stop reports a success without asking the system, and
-- the start time stays.
pub stop_refused :
    (sys : System) (m : ClashManager) {pid : ℕ} {e : String}
    → sys.platform ≡ unix
    → m.child ≡ some pid
    → sys.kill pid ≡ some e
    → let (r, m') = stop sys m in
      (r ≡ err (stop_failed pid e)) × ((stop sys m').0 ≡ ok tt) × (m'.start_time ≡ m.start_time)
unfolding stop
stop_refused sys m u c k =
    rw (c, stop_child, k, killed, u, kill_refused, stop_child) (refl, refl, refl)

-- What a start that worked leaves: the process that the system gave out for these paths, its paths,
-- the time of the start, and no API address.
pub record Launched (sys : System) (a : StartArgs) (m : ClashManager) : Type 0 where
  pub pid : ℕ
  pub given : sys.spawn a.core_path (core_args a) ≡ some pid
  pub core_there : sys.exists a.core_path ≡ true
  pub config_there : sys.exists a.config_path ≡ true
  pub child_is : m.child ≡ some pid
  pub core_is : m.core_path ≡ some a.core_path
  pub config_is : m.config_path ≡ some a.config_path
  pub time_is : m.start_time ≡ some sys.now

launch-Launched :
    (sys : System) (a : StartArgs) (m : ClashManager)
    → (launch sys a m).0 ≡ ok tt
    → Launched sys a (launch sys a m).1
unfolding launch spawned
launch-Launched sys a m h = elim (Bool-cases (sys.exists a.core_path)) [
  | inr c ↦ let g = rw (c, if◌then◌else◌) at h in cc
  | inl c ↦ elim (Bool-cases (sys.exists a.config_path)) [
    | inr d ↦ let g = rw (c, d, if◌then◌else◌) at h in cc
    | inl d ↦ elim (Option-cases (sys.spawn a.core_path (core_args a))) [
      | inl e ↦ let g = rw (c, d, e, spawned, if◌then◌else◌) at h in cc
      | inr (pid, e) ↦
          rw (c, d, e, spawned, if◌then◌else◌)
            record {
              pid = pid;
              given = e;
              core_there = c;
              config_there = d;
              child_is = refl;
              core_is = refl;
              config_is = refl;
              time_is = refl;
            }
    ]
  ]
]

poll_child-child :
    (sys : System) (c : Option ℕ) (m : ClashManager)
    → m.child ≡ c
    → let (b, m') = poll_child sys c m in is_some m'.child ≡ b
unfolding poll_child polled
poll_child-child sys none m h = rw h refl
poll_child-child sys (some pid) m h = by_poll (sys.try_wait pid)
  where
    by_poll : (p : Poll) → is_some (polled p m).1.child ≡ (polled p m).0
    by_poll exited = refl
    by_poll alive = rw h refl
    by_poll poll_failed = refl

status_from-child :
    (sys : System) (p : Bool × ClashManager)
    → is_some p.1.child ≡ p.0
    → let (st, m) = status_from sys p in (st.pid ≡ m.child) × (st.is_running ≡ is_some m.child)
unfolding status_from
status_from-child sys (true, m) h = (refl, sym h)
status_from-child sys (false, m) h = (sym (is_none m.child h), sym h)
  where
    is_none : (o : Option ℕ) → is_some o ≡ false → o ≡ none
    is_none none e = refl
    is_none (some x) e = cc

-- The start of a core, whatever ran before, leaves on success what `Launched` says.
pub start-Launched :
    (sys : System) (a : StartArgs) (m : ClashManager)
    → (start sys a m).0 ≡ ok tt
    → Launched sys a (start sys a m).1
unfolding start launch_after start_from
start-Launched sys a m = by_running (is_running sys m)
  where
    by_stop :
        (p : Outcome (Unit {0}) × ClashManager)
        → (launch_after sys a p).0 ≡ ok tt
        → Launched sys a (launch_after sys a p).1
    by_stop (err e, n) h = cc
    by_stop (ok u, n) h = launch-Launched sys a n h

    by_running :
        (p : Bool × ClashManager)
        → (start_from sys a p).0 ≡ ok tt
        → Launched sys a (start_from sys a p).1
    by_running (true, n) h = by_stop (stop sys n) h
    by_running (false, n) h = launch-Launched sys a n h

-- A status names the process that the manager still holds behind it, and says that the core runs
-- exactly where there is one.
pub get_status_lem :
    (sys : System) (m : ClashManager)
    → let (st, m') = get_status sys m in (st.pid ≡ m'.child) × (st.is_running ≡ is_some m'.child)
unfolding get_status is_running
get_status_lem sys m = status_from-child sys _ (poll_child-child sys m.child m refl)

launch-Timed :
    (sys : System) (a : StartArgs) (m : ClashManager) → Timed m → Timed (launch sys a m).1
unfolding launch spawned
launch-Timed sys a m h = elim (Bool-cases (sys.exists a.core_path)) [
  | inr c ↦ rw (c, if◌then◌else◌) h
  | inl c ↦ elim (Bool-cases (sys.exists a.config_path)) [
    | inr d ↦ rw (c, d, if◌then◌else◌) h
    | inl d ↦ elim (Option-cases (sys.spawn a.core_path (core_args a))) [
      | inl e ↦ rw (c, d, e, spawned, if◌then◌else◌) h
      | inr (pid, e) ↦ rw (c, d, e, spawned, if◌then◌else◌) (λ t. cc)
    ]
  ]
]

-- The operations of the manager keep the invariant.
pub stop-Timed : (sys : System) (m : ClashManager) → Timed (stop sys m).1
stop-Timed sys m = λ _. stop-child sys m

pub start-Timed :
    (sys : System) (a : StartArgs) (m : ClashManager) → Timed m → Timed (start sys a m).1
unfolding start launch_after start_from
start-Timed sys a m t = by_running (is_running sys m) (is_running-Timed sys m t)
  where
    by_stop : (p : Outcome (Unit {0}) × ClashManager) → Timed p.1 → Timed (launch_after sys a p).1
    by_stop (err e, n) h = h
    by_stop (ok u, n) h = launch-Timed sys a n h

    by_running : (p : Bool × ClashManager) → Timed p.1 → Timed (start_from sys a p).1
    by_running (true, n) h = by_stop (stop sys n) (stop-Timed sys n)
    by_running (false, n) h = launch-Timed sys a n h

pub get_status-Timed : (sys : System) (m : ClashManager) → Timed m → Timed (get_status sys m).1
unfolding get_status status_from
get_status-Timed sys m t = by_running (is_running sys m) (is_running-Timed sys m t)
  where
    by_running : (p : Bool × ClashManager) → Timed p.1 → Timed (status_from sys p).1
    by_running (true, n) h = h
    by_running (false, n) h = h

-- The status of a core that still runs.
pub get_status-alive :
    (sys : System) (m : ClashManager) (pid : ℕ)
    → m.child ≡ some pid
    → sys.try_wait pid ≡ alive
    → get_status sys m
      ≡ (record { is_running = true; pid = some pid; uptime = uptime_at sys.now m.start_time }, m)
unfolding get_status is_running poll_child polled status_from
get_status-alive sys m pid child lives =
    ap (λ o. status_from sys (poll_child sys o m)) child
    ∙ ap (λ x. status_from sys (polled x m)) lives
    ∙ ap (λ o. (record { is_running = true; pid = o; uptime = uptime_at sys.now m.start_time }, m))
        child
