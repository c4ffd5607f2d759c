-- ===== src/DelayTest/Batch/Report.antt =====
-- tester.rs, `handle_batch_delay_test_request`: the width of the window and the counts at the end.
use stelliberty_m.Base.{
  ℕ, ◌+◌, ◌≤◌, ◌<◌, max, ◌≡◌, refl, ap, ◌∙◌, Bool, not, ◌&&◌, List, [], ◌∷◌, ◌++◌, arith, ltb,
  length, length-append, filter, String, is_positive, Bool-cases, inl, inr,
}
use stelliberty_m.DelayTest.Batch.{
  BatchTestResult, BatchNodeTestOutcome, completed, cancelled, failed, Window, start, spawn_next,
  fill_step, handle_join, joined, Step, fill, join, leave, interrupt, Reach, here, next,
  actual_concurrency, complete,
}

-- The width is at least one, at most the number of nodes (or one), and at most what was asked (or
-- one).
pub actual_concurrency_bounds :
    (c : ℕ) (nodes : List String)
    → (1 ≤ actual_concurrency c nodes)
      × (actual_concurrency c nodes ≤ max (length nodes) 1)
      × (actual_concurrency c nodes ≤ max c 1)
unfolding actual_concurrency
actual_concurrency_bounds c nodes = omega arith

abbrev sizes : Window → ℕ
sizes w = length w.results + length w.lost + length w.pending_tasks + length w.remaining_nodes

spawn-sizes :
    (w : Window) (rs : List String) → w.remaining_nodes ≡ rs → sizes (spawn_next rs w) ≡ sizes w
unfolding spawn_next
spawn-sizes w [] e = refl
spawn-sizes w (n ∷ ns) e = omega (arith, ap length e, length-append w.pending_tasks (n ∷ []))

fill-sizes : (w : Window) → sizes (fill_step w) ≡ sizes w
unfolding fill_step
fill-sizes w =
    elim (Bool-cases (ltb (length w.pending_tasks) w.concurrency && not w.is_cancelled)) [
      | inl e ↦ rw e (spawn-sizes w w.remaining_nodes refl)
      | inr e ↦ rw e
    ]

join-sizes :
    (w : Window) (xs ys : List String) (n : String) (o : BatchNodeTestOutcome)
    → w.pending_tasks ≡ xs ++ n ∷ ys
    → sizes (handle_join n o (joined (xs ++ ys) w)) ≡ sizes w
unfolding handle_join
join-sizes w xs ys n (completed d) e =
    let r : BatchTestResult = record { node_name = n; delay_ms = d } in
    omega (
      arith,
      ap length e,
      length-append xs ys,
      length-append xs (n ∷ ys),
      length-append w.results (r ∷ []),
    )
join-sizes w xs ys n cancelled e = omega (
  arith,
  ap length e,
  length-append xs ys,
  length-append xs (n ∷ ys),
  length-append w.lost (n ∷ []),
)
join-sizes w xs ys n failed e = omega (
  arith,
  ap length e,
  length-append xs ys,
  length-append xs (n ∷ ys),
  length-append w.lost (n ∷ []),
)

Step-sizes : {w u : Window} → Step w u → sizes u ≡ sizes w
Step-sizes {w} (fill h) = fill-sizes w
Step-sizes {w} (join xs ys n o h e) = join-sizes w xs ys n o e
Step-sizes {w} (leave h e) = refl
Step-sizes {w} interrupt = refl

Reach-sizes : {w u : Window} → Reach w u → sizes u ≡ sizes w
Reach-sizes here = refl
Reach-sizes (next r s) = Step-sizes s ∙ Reach-sizes r

start-sizes : (c : ℕ) (nodes : List String) → sizes (start c nodes) ≡ length nodes
unfolding start
start-sizes c nodes = omega arith

length-filter-le :
    (xs : List BatchTestResult) → length (filter (λ r. is_positive r.delay_ms) xs) ≤ length xs
length-filter-le [] = omega arith
length-filter-le (x ∷ xs) = ground (arith, length-filter-le xs)

-- The message at the end counts no more successes than nodes, if the nodes' number fits a `u32`.
pub complete_counts :
    (c id : ℕ) (nodes : List String) (flag : Bool) (w : Window)
    → length nodes < 4294967296
    → Reach (start c nodes) w
    → let message = complete id nodes w.results flag in
      (message.total_count ≡ length nodes) × (message.success_count ≤ message.total_count)
unfolding complete
complete_counts c id nodes flag w h r =
    let s = Reach-sizes r ∙ start-sizes c nodes in omega (arith, length-filter-le w.results)
