-- ===== src/DelayTest/Batch.antt =====
-- tester.rs, `batch_test_delays` and `handle_batch_delay_test_request`: the sliding window of tests.
-- The tasks of the `JoinSet` end in any order and with any report, and a cancellation may come
-- between any two steps of the loop, so the loop is a step relation. `lost` lists the nodes whose
-- end is only logged.
pub mod Invariant
pub mod Ending
pub mod Report
use stelliberty_m.Base.{
  ℕ, suc, ◌+◌, ◌*◌, ◌%◌, ◌^◌, min, max, ◌≡◌, Bool, true, false, not, ◌&&◌, List, [], ◌∷◌, ◌++◌,
  Option, none, ltb, length, filter, if◌then◌else◌, String, ℤ, is_positive,
}

pub data Phase : Type 0 where
  filling joining ended : Phase

pub record BatchTestResult : Type 0 where
  pub node_name : String
  pub delay_ms : ℤ

-- How a task of the set ended: with a delay, cancelled, or by a panic.
pub data BatchNodeTestOutcome : Type 0 where
  completed : ℤ → BatchNodeTestOutcome
  cancelled failed : BatchNodeTestOutcome

pub record Window : Type 0 where
  pub concurrency : ℕ
  pub remaining_nodes : List String
  pub pending_tasks : List String
  pub results : List BatchTestResult
  pub progress : List BatchTestResult
  pub lost : List String
  pub is_cancelled : Bool
  pub phase : Phase

-- No loop is entered for an empty list of nodes.
abbrev first_phase : List String → Phase
first_phase [] = ended
first_phase (n ∷ ns) = filling

unfoldable pub start : ℕ → List String → Window
start concurrency nodes = record {
  concurrency = concurrency;
  remaining_nodes = nodes;
  pending_tasks = [];
  results = [];
  progress = [];
  lost = [];
  is_cancelled = false;
  phase = first_phase nodes;
}

spawn_next : List String → Window → Window
spawn_next [] w = record w { phase = joining }
spawn_next (n ∷ ns) w = record w { remaining_nodes = ns; pending_tasks = w.pending_tasks ++ n ∷ [] }

-- One round of the inner `while`.
unfoldable pub fill_step : Window → Window
unfolding spawn_next
fill_step w =
    if ltb (length w.pending_tasks) w.concurrency && not w.is_cancelled
    then spawn_next w.remaining_nodes w
    else record w { phase = joining }

-- `on_progress` sends no signal once the session is cancelled.
report_progress : BatchTestResult → Window → Window
report_progress r w = record w {
  progress = if w.is_cancelled then w.progress else w.progress ++ r ∷ [];
}

unfoldable pub handle_join : String → BatchNodeTestOutcome → Window → Window
unfolding report_progress
handle_join n (completed d) w =
    let r : BatchTestResult = record { node_name = n; delay_ms = d } in
    let w' = report_progress r w in record w' { results = w'.results ++ r ∷ [] }
handle_join n cancelled w = record w { lost = w.lost ++ n ∷ [] }
handle_join n failed w = record w { lost = w.lost ++ n ∷ [] }

abbrev pub joined : List String → Window → Window
joined rest w = record w { pending_tasks = rest; phase = filling }

abbrev pub cancel : Window → Window
cancel w = record w { is_cancelled = true }

pub data Step (w : Window) : Window → Type 0 where
  fill : w.phase ≡ filling → Step w (fill_step w)
  join :
      (xs ys : List String) (n : String) (o : BatchNodeTestOutcome)
      → w.phase ≡ joining
      → w.pending_tasks ≡ xs ++ n ∷ ys
      → Step w (handle_join n o (joined (xs ++ ys) w))
  leave : w.phase ≡ joining → w.pending_tasks ≡ [] → Step w (record w { phase = ended })
  interrupt : Step w (cancel w)

pub data Reach (w : Window) : Window → Type 0 where
  here : Reach w w
  next : {u v : Window} → Reach w u → Step u v → Reach w v

-- The window's width in `handle_batch_delay_test_request`.
unfoldable pub actual_concurrency : ℕ → List String → ℕ
actual_concurrency concurrency nodes = min (max concurrency 1) (max (length nodes) 1)

pub record BatchDelayTestComplete : Type 0 where
  pub request_id : ℕ
  pub is_successful : Bool
  pub is_cancelled : Bool
  pub total_count : ℕ
  pub success_count : ℕ
  pub error_message : Option String

abbrev pub u32 : ℕ → ℕ
u32 n = n % 2 ^ 32

-- The message at the end, from the results and the session's flag.
unfoldable pub complete : ℕ → List String → List BatchTestResult → Bool → BatchDelayTestComplete
complete id nodes results flag = record {
  request_id = id;
  is_successful = not flag;
  is_cancelled = flag;
  total_count = u32 (length nodes);
  success_count = u32 (length (filter (λ r. is_positive r.delay_ms) results));
  error_message = none;
}
