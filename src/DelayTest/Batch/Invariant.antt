-- ===== src/DelayTest/Batch/Invariant.antt =====
-- tester.rs: what holds of the window between two steps.
use stelliberty_m.Base.{
  ℕ, suc, ◌+◌, ◌≤◌, ◌<◌, ◌≡◌, refl, ap, ◌∙◌, false, not, ◌&&◌, List, [], ◌∷◌, ◌++◌, arith, ltb,
  length, length-append, if◌then◌else◌, String, ◌==◌, Bool-cases, inl, inr,
}
use stelliberty_m.DelayTest.Batch.{
  filling, joining, ended, BatchTestResult, BatchNodeTestOutcome, completed, cancelled, failed,
  Window, start, spawn_next, fill_step, handle_join, joined, cancel, Step, fill, join, leave,
  interrupt, Reach, here, next,
}

-- How often a name stands in a list.
abbrev pub count : String → List String → ℕ
count n [] = 0
count n (x ∷ xs) = let k = count n xs in if x == n then suc k else k

pub count-append : (n : String) (xs ys : List String) → count n (xs ++ ys) ≡ count n xs + count n ys
count-append n [] ys = omega arith
count-append n (x ∷ xs) ys = ground (arith, count-append n xs ys)

abbrev pub names : List BatchTestResult → List String
names [] = []
names (r ∷ rs) = r.node_name ∷ names rs

names-append : (xs ys : List BatchTestResult) → names (xs ++ ys) ≡ names xs ++ names ys
names-append [] ys = refl
names-append (x ∷ xs) ys = ap (λ l. x.node_name ∷ l) (names-append xs ys)

-- Where each name of the request is.
abbrev pub places : String → Window → ℕ
places n w =
    count n (names w.results) + count n w.lost + count n w.pending_tasks + count n w.remaining_nodes

pub record Inv (nodes : List String) (w : Window) : Type 0 where
  pub positive : 1 ≤ w.concurrency
  pub bounded : length w.pending_tasks ≤ w.concurrency
  pub accounted : (n : String) → places n w ≡ count n nodes
  pub signalled : w.is_cancelled ≡ false → w.progress ≡ w.results
  pub drained :
      w.phase ≡ joining → w.is_cancelled ≡ false → w.pending_tasks ≡ [] → w.remaining_nodes ≡ []
  pub empty : w.phase ≡ ended → w.pending_tasks ≡ []
  pub all_tested : w.phase ≡ ended → w.is_cancelled ≡ false → w.remaining_nodes ≡ []

start-Inv : (c : ℕ) (nodes : List String) → 1 ≤ c → Inv nodes (start c nodes)
unfolding start
start-Inv c [] h = ground arith
start-Inv c (n ∷ ns) h = ground arith

module _ (w : Window) where
  spawn-accounted :
      (n : String) (rs : List String)
      → w.remaining_nodes ≡ rs
      → places n (spawn_next rs w) ≡ places n w
  unfolding spawn_next
  spawn-accounted n [] e = refl
  spawn-accounted n (m ∷ ms) e =
      ground (arith, count-append n w.pending_tasks (m ∷ []), ap (count n) e)

  fill-accounted : (n : String) → places n (fill_step w) ≡ places n w
  unfolding fill_step
  fill-accounted n =
      elim (Bool-cases (ltb (length w.pending_tasks) w.concurrency && not w.is_cancelled)) [
        | inl e ↦ rw e (spawn-accounted n w.remaining_nodes refl)
        | inr e ↦ rw e
      ]

  join-accounted :
      (n m : String) (xs ys : List String) (o : BatchNodeTestOutcome)
      → w.pending_tasks ≡ xs ++ m ∷ ys
      → places n (handle_join m o (joined (xs ++ ys) w)) ≡ places n w
  unfolding handle_join
  join-accounted n m xs ys (completed d) e =
      let r : BatchTestResult = record { node_name = m; delay_ms = d } in
      rw (names-append w.results (r ∷ [])) (
        ground (
          arith,
          count-append n (names w.results) (m ∷ []),
          count-append n xs ys,
          count-append n xs (m ∷ ys),
          ap (count n) e,
        ))
  join-accounted n m xs ys cancelled e = ground (
    arith,
    count-append n w.lost (m ∷ []),
    count-append n xs ys,
    count-append n xs (m ∷ ys),
    ap (count n) e,
  )
  join-accounted n m xs ys failed e = ground (
    arith,
    count-append n w.lost (m ∷ []),
    count-append n xs ys,
    count-append n xs (m ∷ ys),
    ap (count n) e,
  )

module _ (nodes : List String) (w : Window) (i : Inv nodes w) where
  spawn-Inv :
      (rs : List String)
      → w.remaining_nodes ≡ rs
      → w.phase ≡ filling
      → length w.pending_tasks < w.concurrency
      → Inv nodes (spawn_next rs w)
  spawn-Inv [] e h lt = record {
    positive = unfold spawn_next in i.positive;
    bounded = unfold spawn_next in i.bounded;
    accounted = λ n. spawn-accounted w n [] e ∙ i.accounted n;
    signalled = unfold spawn_next in i.signalled;
    drained = unfold spawn_next in λ p c q. e;
    empty = unfold spawn_next in λ p. cc;
    all_tested = unfold spawn_next in λ p. cc;
  }
  spawn-Inv (m ∷ ms) e h lt = record {
    positive = unfold spawn_next in i.positive;
    bounded = unfold spawn_next in omega (arith, length-append w.pending_tasks (m ∷ []));
    accounted = λ n. spawn-accounted w n (m ∷ ms) e ∙ i.accounted n;
    signalled = unfold spawn_next in i.signalled;
    drained = unfold spawn_next in λ p. cc;
    empty = unfold spawn_next in λ p. cc;
    all_tested = unfold spawn_next in λ p. cc;
  }

  lost-Inv :
      (xs ys : List String) (m : String)
      → w.pending_tasks ≡ xs ++ m ∷ ys
      → Inv nodes (record (joined (xs ++ ys) w) { lost = w.lost ++ m ∷ [] })
  lost-Inv xs ys m e = record {
    positive = i.positive;
    bounded = omega (arith, i.bounded, ap length e, length-append xs ys, length-append xs (m ∷ ys));
    accounted = λ n. unfold handle_join in join-accounted w n m xs ys failed e ∙ i.accounted n;
    signalled = i.signalled;
    drained = λ p. cc;
    empty = λ p. cc;
    all_tested = λ p. cc;
  }

  fill-Inv : w.phase ≡ filling → Inv nodes (fill_step w)
  unfolding fill_step
  fill-Inv h =
      elim (Bool-cases (ltb (length w.pending_tasks) w.concurrency && not w.is_cancelled)) [
        | inl e ↦ rw e (spawn-Inv w.remaining_nodes refl h (ground arith))
        | inr e ↦ rw e (record {
          positive = i.positive;
          bounded = i.bounded;
          accounted = i.accounted;
          signalled = i.signalled;
          drained = λ p c q. let z = ap length q in let o = i.positive in ground arith;
          empty = λ p. cc;
          all_tested = λ p. cc;
        })
      ]

  join-Inv :
      (xs ys : List String) (m : String) (o : BatchNodeTestOutcome)
      → w.phase ≡ joining
      → w.pending_tasks ≡ xs ++ m ∷ ys
      → Inv nodes (handle_join m o (joined (xs ++ ys) w))
  unfolding handle_join
  join-Inv xs ys m (completed d) h e = record {
    positive = i.positive;
    bounded = omega (arith, i.bounded, ap length e, length-append xs ys, length-append xs (m ∷ ys));
    accounted = λ n. join-accounted w n m xs ys (completed d) e ∙ i.accounted n;
    signalled =
        λ c. rw c (ap (λ rs. rs ++ record { node_name = m; delay_ms = d } ∷ []) (i.signalled c));
    drained = λ p. cc;
    empty = λ p. cc;
    all_tested = λ p. cc;
  }
  join-Inv xs ys m cancelled h e = lost-Inv xs ys m e
  join-Inv xs ys m failed h e = lost-Inv xs ys m e

  leave-Inv : w.phase ≡ joining → w.pending_tasks ≡ [] → Inv nodes (record w { phase = ended })
  leave-Inv h e = record {
    positive = i.positive;
    bounded = i.bounded;
    accounted = i.accounted;
    signalled = i.signalled;
    drained = λ p. cc;
    empty = λ p. e;
    all_tested = λ p c. i.drained h c e;
  }

  interrupt-Inv : Inv nodes (cancel w)
  interrupt-Inv = record {
    positive = i.positive;
    bounded = i.bounded;
    accounted = i.accounted;
    signalled = λ c. cc;
    drained = λ p c. cc;
    empty = i.empty;
    all_tested = λ p c. cc;
  }

-- One step keeps the invariant.
pub Step-Inv : (nodes : List String) {w u : Window} → Step w u → Inv nodes w → Inv nodes u
Step-Inv nodes {w} (fill h) i = fill-Inv nodes w i h
Step-Inv nodes {w} (join xs ys m o h e) i = join-Inv nodes w i xs ys m o h e
Step-Inv nodes {w} (leave h e) i = leave-Inv nodes w i h e
Step-Inv nodes {w} interrupt i = interrupt-Inv nodes w i

Reach-keeps : (nodes : List String) {w u : Window} → Reach w u → Inv nodes w → Inv nodes u
Reach-keeps nodes here i = i
Reach-keeps nodes (next r s) i = Step-Inv nodes s (Reach-keeps nodes r i)

-- At every moment of a batch of width at least one: no more tasks than the width allows, each name
-- of the request as often in the results, the lost, the pending and the remaining nodes as in the
-- request, every result signalled unless the batch is cancelled, a loop that waits without a task
-- and a cancellation has no node left, and at the end no task is pending and, without a
-- cancellation, no node untested.
pub Reach-Inv :
    (c : ℕ) (nodes : List String) (w : Window) → 1 ≤ c → Reach (start c nodes) w → Inv nodes w
Reach-Inv c nodes w h r = Reach-keeps nodes r (start-Inv c nodes h)
