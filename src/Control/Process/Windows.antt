-- ===== src/Control/Process/Windows.antt =====
-- process_manager.rs: the start of a process on Windows, call by call, with the handles that it opens. The
-- text of the command line is what the call gets; its coding in 16 bits is left out.
use Prim.Native.String
use stelliberty_m.Base.{
  ℕ, String, Bool, true, false, List, [], ◌∷◌, Option, none, some, Result, ok, err, contains,
  if◌then◌else◌, ◌≡◌, refl, ◌&&◌, ◌||◌, not,
}
use stelliberty_m.Control.Process.{ClashProcess}

pub data Child : Type 0 where
  no_child : Child
  suspended resumed terminated : ℕ → Child

-- Which of the handles of one start are open, and what became of its process.
pub record Kernel : Type 0 where
  pub job : Bool
  pub process : Bool
  pub thread : Bool
  pub child : Child

-- What the system answers to the calls; the results of the last four are dropped.
pub record Calls : Type 0 where
  pub create_job : Bool
  pub set_information : Bool
  pub create_process : String → Option ℕ
  pub assign : Bool
  pub resume : Bool
  pub terminate : Bool
  pub close_job : Bool
  pub close_process : Bool
  pub close_thread : Bool

argument : String → String
argument arg = if contains arg " " then String.◌++◌ "\"" (String.◌++◌ arg "\"") else arg

arguments : List String → String
unfolding argument
arguments [] = ""
arguments (arg ∷ args) = String.◌++◌ " " (String.◌++◌ (argument arg) (arguments args))

unfoldable pub command_line : String → List String → String
unfolding arguments
command_line path args = String.◌++◌ "\"" (String.◌++◌ path (String.◌++◌ "\"" (arguments args)))

abbrev pub untouched : Kernel
untouched = record { job = false; process = false; thread = false; child = no_child }

-- A `CloseHandle`, whose result is dropped.
still_open : Bool → Bool → Bool
still_open works was_open = was_open && not works

-- The job is made to kill its processes where its last handle is closed.
ended : Bool → Bool → Bool → ℕ → Child
ended in_job terminate close_job pid =
    if terminate || (in_job && close_job) then terminated pid else suspended pid

-- The clean-up behind a failed assignment, or a failed resumption of a process in the job.
unfoldable pub given_up : Bool → Calls → ℕ → Kernel → Kernel
unfolding still_open ended
given_up in_job c pid k = record {
  job = still_open c.close_job k.job;
  process = still_open c.close_process k.process;
  thread = still_open c.close_thread k.thread;
  child = ended in_job c.terminate c.close_job pid;
}

run_resume : Bool → Calls → ℕ → Kernel → Result ClashProcess × Kernel
unfolding given_up
run_resume false c pid k = (err "恢复进程线程失败", given_up true c pid k)
run_resume true c pid k = (
  ok (record { pid = pid }),
  record k { thread = still_open c.close_thread k.thread; child = resumed pid },
)

run_assign : Bool → Calls → ℕ → Kernel → Result ClashProcess × Kernel
run_assign false c pid k = (err "分配进程到 Job Object 失败", given_up false c pid k)
run_assign true c pid k = run_resume c.resume c pid k

run_create : Option ℕ → Calls → Kernel → Result ClashProcess × Kernel
run_create none c k = (err "创建进程失败", record k { job = still_open c.close_job k.job })
run_create (some pid) c k =
    run_assign c.assign c pid (record k { process = true; thread = true; child = suspended pid })

run_set : Bool → Calls → String → Kernel → Result ClashProcess × Kernel
run_set false c line k = (err "设置 Job Object 信息失败", record k { job = still_open c.close_job k.job })
run_set true c line k = run_create (c.create_process line) c k

run_job : Bool → Calls → String → Result ClashProcess × Kernel
run_job false c line = (err "创建 Job Object 失败", untouched)
run_job true c line = run_set c.set_information c line (record untouched { job = true })

unfoldable pub start_windows : Calls → String → List String → Result ClashProcess × Kernel
unfolding command_line run_resume run_assign run_create run_set run_job
start_windows c path args = run_job c.create_job c (command_line path args)

-- What is left of the process of a start that failed.
abbrev pub ChildLeft : Bool → Child → Type 0
ChildLeft terminate no_child = Unit
ChildLeft terminate (suspended pid) = terminate ≡ false
ChildLeft terminate (resumed pid) = ⊥
ChildLeft terminate (terminated pid) = Unit

-- A handle that is open is one whose closing failed.
abbrev pub OpenOnlyIf : Bool → Bool → Type 0
OpenOnlyIf is_open works = is_open ≡ true → works ≡ false

abbrev pub Left : Calls → Result ClashProcess × Kernel → Type 0
Left c (ok p, k) =
    (k.child ≡ resumed p.pid)
    × (k.job ≡ true)
    × (k.process ≡ true)
    × OpenOnlyIf k.thread c.close_thread
Left c (err e, k) =
    OpenOnlyIf k.job c.close_job
    × OpenOnlyIf k.process c.close_process
    × OpenOnlyIf k.thread c.close_thread
    × ChildLeft c.terminate k.child

still_open_lem : (works was_open : Bool) → OpenOnlyIf (still_open works was_open) works
unfolding still_open
still_open_lem true true h = cc
still_open_lem true false h = cc
still_open_lem false was_open h = refl

child_left :
    (in_job terminate close_job : Bool) (pid : ℕ)
    → ChildLeft terminate (ended in_job terminate close_job pid)
unfolding ended
child_left in_job true close_job pid = tt
child_left true false true pid = tt
child_left true false false pid = refl
child_left false false close_job pid = refl

given_up-Left :
    (in_job : Bool) (c : Calls) (pid : ℕ) (k : Kernel) (e : String)
    → Left c (err e, given_up in_job c pid k)
unfolding given_up
given_up-Left in_job c pid k e = (
  still_open_lem c.close_job k.job,
  still_open_lem c.close_process k.process,
  still_open_lem c.close_thread k.thread,
  child_left in_job c.terminate c.close_job pid,
)

run_resume-Left :
    (b : Bool) (c : Calls) (pid : ℕ) (k : Kernel)
    → k.job ≡ true
    → k.process ≡ true
    → Left c (run_resume b c pid k)
unfolding run_resume
run_resume-Left false c pid k j p = given_up-Left true c pid k "恢复进程线程失败"
run_resume-Left true c pid k j p = (refl, j, p, still_open_lem c.close_thread k.thread)

run_assign-Left :
    (b : Bool) (c : Calls) (pid : ℕ) (k : Kernel)
    → k.job ≡ true
    → k.process ≡ true
    → Left c (run_assign b c pid k)
unfolding run_assign
run_assign-Left false c pid k j p = given_up-Left false c pid k "分配进程到 Job Object 失败"
run_assign-Left true c pid k j p = run_resume-Left c.resume c pid k j p

not_open : (works : Bool) → OpenOnlyIf false works
not_open works h = cc

run_create-Left :
    (o : Option ℕ) (c : Calls) → Left c (run_create o c (record untouched { job = true }))
unfolding run_create
run_create-Left none c =
    (still_open_lem c.close_job true, not_open c.close_process, not_open c.close_thread, tt)
run_create-Left (some pid) c = run_assign-Left c.assign c pid _ refl refl

run_set-Left :
    (b : Bool) (c : Calls) (line : String)
    → Left c (run_set b c line (record untouched { job = true }))
unfolding run_set
run_set-Left false c line =
    (still_open_lem c.close_job true, not_open c.close_process, not_open c.close_thread, tt)
run_set-Left true c line = run_create-Left (c.create_process line) c

run_job-Left : (b : Bool) (c : Calls) (line : String) → Left c (run_job b c line)
unfolding run_job
run_job-Left false c line =
    (not_open c.close_job, not_open c.close_process, not_open c.close_thread, tt)
run_job-Left true c line = run_set-Left c.set_information c line

-- Whichever of the system's calls fails, a start on Windows that fails leaves a handle open only where
-- closing that handle failed, and its process waiting only where terminating it failed, and never running.
-- One that works leaves its process running, with the handles of the process and of the job open, and
-- that of the thread open only where closing it failed.
pub start_windows-Left :
    (c : Calls) (path : String) (args : List String) → Left c (start_windows c path args)
unfolding start_windows
start_windows-Left c path args = run_job-Left c.create_job c (command_line path args)
