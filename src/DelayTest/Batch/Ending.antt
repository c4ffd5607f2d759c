-- ===== src/DelayTest/Batch/Ending.antt =====
-- tester.rs: the loop never hangs while its tasks end, and ends after a bounded number of rounds.
use stelliberty_m.Base.{
  ℕ, zero, suc, ◌+◌, ◌*◌, ◌<◌, ◌≤◌, ◌≡◌, refl, ap, not, ◌&&◌, List, [], ◌∷◌, ◌++◌, arith, ltb,
  length, length-append, String, Bool-cases, inl, inr, ◌⊎◌,
}
use stelliberty_m.DelayTest.Batch.{
  Phase, filling, joining, ended, BatchNodeTestOutcome, completed, cancelled, failed, Window,
  spawn_next, fill_step, handle_join, joined, cancel, Step, fill, join, leave, interrupt,
}

abbrev pub weight : Phase → ℕ
weight filling = 2
weight joining = 1
weight ended = 0

-- The work that is left: it falls with every step but a cancellation.
abbrev pub work : Window → ℕ
work w = 3 * length w.remaining_nodes + 2 * length w.pending_tasks + weight w.phase

spawn-work :
    (w : Window) (rs : List String)
    → w.remaining_nodes ≡ rs
    → w.phase ≡ filling
    → work (spawn_next rs w) < work w
unfolding spawn_next
spawn-work w [] e h = omega (arith, ap weight h)
spawn-work w (n ∷ ns) e h =
    omega (arith, ap weight h, ap length e, length-append w.pending_tasks (n ∷ []))

fill-work : (w : Window) → w.phase ≡ filling → work (fill_step w) < work w
unfolding fill_step
fill-work w h =
    elim (Bool-cases (ltb (length w.pending_tasks) w.concurrency && not w.is_cancelled)) [
      | inl e ↦ rw e (spawn-work w w.remaining_nodes refl h)
      | inr e ↦ rw e (omega (arith, ap weight h))
    ]

join-work :
    (w : Window) (xs ys : List String) (n : String) (o : BatchNodeTestOutcome)
    → w.phase ≡ joining
    → w.pending_tasks ≡ xs ++ n ∷ ys
    → work (handle_join n o (joined (xs ++ ys) w)) < work w
unfolding handle_join
join-work w xs ys n (completed d) h e =
    omega (arith, ap weight h, ap length e, length-append xs ys, length-append xs (n ∷ ys))
join-work w xs ys n cancelled h e =
    omega (arith, ap weight h, ap length e, length-append xs ys, length-append xs (n ∷ ys))
join-work w xs ys n failed h e =
    omega (arith, ap weight h, ap length e, length-append xs ys, length-append xs (n ∷ ys))

-- Every step lowers the work that is left, or is the cancellation.
pub Step-work : {w u : Window} → Step w u → (work u < work w) ⊎ (u ≡ cancel w)
Step-work {w} (fill h) = inl (fill-work w h)
Step-work {w} (join xs ys n o h e) = inl (join-work w xs ys n o h e)
Step-work {w} (leave h e) = inl (omega (arith, ap weight h))
Step-work {w} interrupt = inr refl

-- The steps of a batch in which the tasks report what `outcome` says, and which nobody cancels; the index
-- counts them.
pub data Course (outcome : String → BatchNodeTestOutcome) (w : Window) : ℕ → Window → Type 0 where
  rest : Course outcome w 0 w
  fills :
      {n : ℕ} {u : Window}
      → Course outcome w n u
      → u.phase ≡ filling
      → Course outcome w (suc n) (fill_step u)
  joins :
      {n : ℕ} {u : Window} (xs ys : List String) (name : String)
      → Course outcome w n u
      → u.phase ≡ joining
      → u.pending_tasks ≡ xs ++ name ∷ ys
      → Course outcome w (suc n) (handle_join name (outcome name) (joined (xs ++ ys) u))
  leaves :
      {n : ℕ} {u : Window}
      → Course outcome w n u
      → u.phase ≡ joining
      → u.pending_tasks ≡ []
      → Course outcome w (suc n) (record u { phase = ended })

-- A path has no more steps than the work that it takes away.
pub Course-bound :
    {outcome : String → BatchNodeTestOutcome} {w u : Window} {n : ℕ}
    → Course outcome w n u
    → n + work u ≤ work w
Course-bound {outcome} {w} rest = omega arith
Course-bound {outcome} {w} (fills {n} {u} p h) =
    let before = Course-bound p in let less = fill-work u h in omega arith
Course-bound {outcome} {w} (joins {n} {u} xs ys name p h e) =
    let before = Course-bound p in
    let less = join-work u xs ys name (outcome name) h e in omega arith
Course-bound {outcome} {w} (leaves {n} {u} p h e) =
    let before = Course-bound p in omega (arith, ap weight h)

-- A path goes on by one step until the loop has ended, whatever task is the first of the set.
longer :
    (outcome : String → BatchNodeTestOutcome) (w u : Window) (n : ℕ) (ps : List String) (p : Phase)
    → Course outcome w n u
    → u.phase ≡ p
    → u.pending_tasks ≡ ps
    → (u.phase ≡ ended) ⊎ ((v : Window) × Course outcome w (suc n) v)
longer outcome w u n ps filling path h e = inr (_, fills path h)
longer outcome w u n [] joining path h e = inr (_, leaves path h e)
longer outcome w u n (name ∷ ps) joining path h e = inr (_, joins [] ps name path h e)
longer outcome w u n ps ended path h e = inl h

run_down :
    (k : ℕ) (outcome : String → BatchNodeTestOutcome) (w u : Window) (n : ℕ)
    → Course outcome w n u
    → work w < n + k
    → (m : ℕ) × (v : Window) × Course outcome w m v × (v.phase ≡ ended)
run_down zero outcome w u n path h =
    let b = Course-bound path in let no : 1 ≤ 0 = omega arith in elim no [ ]
run_down (suc k) outcome w u n path h =
    elim (longer outcome w u n u.pending_tasks u.phase path refl refl) [
      | inl e ↦ (n, u, path, e)
      | inr (v, on) ↦ run_down k outcome w v (suc n) on (omega arith)
    ]

-- From every window, and whatever each task reports, a batch that nobody cancels comes to its end within as
-- many steps as the window has work left; and no run of it, in whatever order the tasks end, has more.
pub Course-ended :
    (outcome : String → BatchNodeTestOutcome) (w : Window)
    → ((n : ℕ) × (v : Window) × Course outcome w n v × (v.phase ≡ ended) × (n ≤ work w))
      × ((n : ℕ) (v : Window) → Course outcome w n v → n ≤ work w)
Course-ended outcome w = (
  let (n, v, path, e) = run_down (suc (work w)) outcome w w 0 rest (omega arith) in
      let b = Course-bound path in (n, v, path, e, omega arith),
  λ n v path. let b = Course-bound path in omega arith,
)
