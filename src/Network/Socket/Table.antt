-- ===== src/Network/Socket/Table.antt =====
-- ws_client.rs: the table of the connections and the tasks that read them.
use stelliberty_m.Base.{
  ℕ, suc, ◌≤◌, ◌<◌, ◌≡◌, refl, sym, ap, ◌∙◌, true, false, not, List, [], ◌∷◌, map, none, some, eqb,
  eqb_iff, filter, arith, Bool-cases, inl, inr,
}
use stelliberty_m.Network.Socket.{
  ConnectionId, Connections, Runtime, get, remove, insert, spawn, abort, abort_all,
}

-- The newer of two entries stands in front and has the greater id and the greater task.
abbrev pub Ordered : ConnectionId → ℕ → Connections → Type 0
Ordered n m [] = Unit
Ordered n m ((k, t) ∷ rest) = (k < n) × (t < m) × Ordered k t rest

abbrev pub handles : Connections → List ℕ
handles connections = map (λ e. e.1) connections

abbrev pub without : ℕ → List ℕ → List ℕ
without t ts = filter (λ u. not (eqb t u)) ts

pub weaken :
    {k n t m : ℕ} (connections : Connections)
    → Ordered k t connections
    → k ≤ n
    → t ≤ m
    → Ordered n m connections
weaken [] o a b = tt
weaken ((k, t) ∷ rest) (lk, lt, o) a b = (omega arith, omega arith, o)

pub other : (a b : ℕ) → b < a → eqb a b ≡ false
other a b l = elim (Bool-cases (eqb a b)) [
  | inl e ↦ let same = (eqb_iff a b).0 e in let no : ⊥ = omega arith in elim no [ ]
  | inr e ↦ e
]

older : (a b : ℕ) → a < b → eqb a b ≡ false
older a b l = elim (Bool-cases (eqb a b)) [
  | inl e ↦ let same = (eqb_iff a b).0 e in let no : ⊥ = omega arith in elim no [ ]
  | inr e ↦ e
]

pub same_one : (a : ℕ) → eqb a a ≡ true
same_one a = (eqb_iff a a).1 refl

pub get-new :
    (id m n : ℕ) (connections : Connections)
    → Ordered n m connections
    → n ≤ id
    → get id connections ≡ none
unfolding get
get-new id m n [] o le = refl
get-new id m n ((k, t) ∷ rest) (lk, lt, o) le =
    rw (other id k (omega arith)) (get-new id t k rest o (omega arith))

pub remove-new :
    (id m n : ℕ) (connections : Connections)
    → Ordered n m connections
    → n ≤ id
    → remove id connections ≡ connections
unfolding remove
remove-new id m n [] o le = refl
remove-new id m n ((k, t) ∷ rest) (lk, lt, o) le =
    rw (other id k (omega arith)) (ap (λ r. (k, t) ∷ r) (remove-new id t k rest o (omega arith)))

pub without-new :
    (u m n : ℕ) (connections : Connections)
    → Ordered n m connections
    → m ≤ u
    → without u (handles connections) ≡ handles connections
without-new u m n [] o le = refl
without-new u m n ((k, t) ∷ rest) (lk, lt, o) le =
    rw (other u t (omega arith)) (ap (λ r. t ∷ r) (without-new u t k rest o (omega arith)))

pub remove-Ordered :
    (id n m : ℕ) (connections : Connections)
    → Ordered n m connections
    → Ordered n m (remove id connections)
unfolding remove
remove-Ordered id n m [] o = tt
remove-Ordered id n m ((k, t) ∷ rest) (lk, lt, o) =
    let later = remove-Ordered id k t rest o in
    elim (Bool-cases (eqb id k)) [
      | inl e ↦ rw e (weaken (remove id rest) later (omega arith) (omega arith))
      | inr e ↦ rw e (lk, lt, later)
    ]

-- Behind the entry of an id there is none of it, and no task that is as new.
got-below :
    (id n m t : ℕ) (connections : Connections)
    → Ordered n m connections
    → get id connections ≡ some t
    → (id < n) × (t < m)
unfolding get
got-below id n m t [] o h = cc
got-below id n m t ((k, u) ∷ rest) (lk, lu, o) h = elim (Bool-cases (eqb id k)) [
  | inl e ↦
      let same = (eqb_iff id k).0 e in
      let found = rw e at h in let g : u ≡ t = cc in (omega arith, omega arith)
  | inr e ↦ let (a, b) = got-below id k u t rest o (rw e at h) in (omega arith, omega arith)
]

pub without-remove :
    (id n m t : ℕ) (connections : Connections)
    → Ordered n m connections
    → get id connections ≡ some t
    → without t (handles connections) ≡ handles (remove id connections)
unfolding get remove
without-remove id n m t [] o h = cc
without-remove id n m t ((k, u) ∷ rest) (lk, lu, o) h = elim (Bool-cases (eqb id k)) [
  | inl e ↦
      let same = (eqb_iff id k).0 e in
      let found = rw e at h in
      let g : u ≡ t = cc in
      rw (e, g, same_one t)
        (without-new t u k rest o (omega arith)
          ∙ ap handles (sym (remove-new id u k rest o (omega arith))))
  | inr e ↦
      let below = got-below id k u t rest o (rw e at h) in
      rw (e, older t u below.1) (ap (λ r. u ∷ r) (without-remove id k u t rest o (rw e at h)))
]

pub abort_all-handles :
    (n m : ℕ) (connections : Connections) (r : Runtime)
    → Ordered n m connections
    → r.running ≡ handles connections
    → (abort_all (handles connections) r).running ≡ []
unfolding abort_all abort
abort_all-handles n m [] r o h = h
abort_all-handles n m ((k, t) ∷ rest) r (lk, lt, o) h =
    abort_all-handles k t rest (abort t r) o
      (ap (without t) h ∙ rw (same_one t) (without-new t t k rest o (omega arith)))

pub insert-handles :
    (n : ℕ) (connections : Connections) (r : Runtime)
    → Ordered n r.next_task connections
    → r.running ≡ handles connections
    → (spawn r).running ≡ handles (insert n r.next_task connections)
unfolding insert spawn
insert-handles n connections r o h =
    ap (λ ts. r.next_task ∷ ts)
      (h ∙ ap handles (sym (remove-new n r.next_task n connections o (omega arith))))

pub insert-Ordered :
    (n : ℕ) (connections : Connections) (t : ℕ)
    → Ordered n t connections
    → Ordered (suc n) (suc t) (insert n t connections)
unfolding insert
insert-Ordered n connections t o =
    (omega arith, omega arith, rw (remove-new n t n connections o (omega arith)) o)

pub get-insert : (id t : ℕ) (connections : Connections) → get id (insert id t connections) ≡ some t
unfolding get insert
get-insert id t connections = rw (same_one id) refl
