-- ===== src/DelayTest/Tests.antt =====
-- Runs of the delay tests' code and of its theorems on two nodes and on one session.
use stelliberty_m.Base.{
  ℕ, ◌≤◌, negsuc, ◌≡◌, refl, arith, String, true, false, List, [], ◌∷◌, none, pos,
}
use stelliberty_m.DelayTest.Node.{answered, delay, test_single_node}
use stelliberty_m.DelayTest.Sessions.{
  DelayTestSessionHandle, DelayTestSessionState, Store, single, batch, find,
  register_delay_test_session, cancel_delay_test_session, is_cancelled, wait_returns, end_single,
  end_batch,
}
use stelliberty_m.DelayTest.Sessions
use stelliberty_m.DelayTest.Sessions.Single.{Inside, handle_single_lem}
use stelliberty_m.DelayTest.Batch
use stelliberty_m.DelayTest.Batch.{
  Window, filling, ended, joining, start, fill_step, Step, fill, Reach, here, next,
  actual_concurrency, complete,
}
use stelliberty_m.DelayTest.Batch.Invariant.{Inv, Reach-Inv}
use stelliberty_m.DelayTest.Batch.Ending.{Course, work, Course-ended}

abbrev nodes : List String
nodes = "a" ∷ "b" ∷ []

abbrev begun : Window
begun = start 1 nodes

begun-filling : begun.phase ≡ filling
unfolding start
begun-filling = refl

-- One task is running.
abbrev running : Window
running = fill_step begun

to_running : Reach begun running
to_running = next here (fill begun-filling)

Reach-Inv_example : Inv nodes running
Reach-Inv_example = Reach-Inv 1 nodes running (omega arith) to_running

abbrev outcome : String → Batch.BatchNodeTestOutcome
outcome name = Batch.completed (pos 120)

Course-ended_example :
    ((n : ℕ) × (v : Window) × Course outcome begun n v × (v.phase ≡ ended) × (n ≤ work begun))
    × ((n : ℕ) (v : Window) → Course outcome begun n v → n ≤ work begun)
Course-ended_example = Course-ended outcome begun

abbrev no_sessions : Store
no_sessions = record { sessions = []; channels = [] }

-- A store with the session of request 7, and its handle.
abbrev opened : Store
opened = (register_delay_test_session 7 single no_sessions).0

abbrev handle : DelayTestSessionHandle
handle = (register_delay_test_session 7 single no_sessions).1

abbrev stopped : Store
stopped = cancel_delay_test_session 7 opened

no_sessions-Inside : Inside no_sessions
no_sessions-Inside = λ id t e. cc

handle_single_lem_example :
    let response = answered (delay (pos 120)) in
    let (alone, result) = Sessions.handle_single 7 "a" response (λ t. t) no_sessions in
    let stopped =
      (Sessions.handle_single 7 "a" response (cancel_delay_test_session 7) no_sessions).1 in
    (result.delay_ms ≡ test_single_node response)
    × (result.is_cancelled ≡ false)
    × (find 7 alone.sessions ≡ none)
    × (stopped.delay_ms ≡ negsuc 0)
    × (stopped.is_cancelled ≡ true)
handle_single_lem_example =
    handle_single_lem 7 "a" (answered (delay (pos 120))) no_sessions no_sessions-Inside
