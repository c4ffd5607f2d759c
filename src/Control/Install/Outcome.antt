-- ===== src/Control/Install/Outcome.antt =====
-- service_manager.rs: when an installation and a removal are reported as successful.
use stelliberty_m.Base.{
  ℕ, zero, suc, ◌+◌, ◌≤◌, ◌<◌, ◌≡◌, refl, ap, ◌∙◌, String, Bool, true, false, [], ◌∷◌, none, Result,
  ok, err, ℤ, pos, negsuc, Option, some, unwrap_or, ok-injective, Bool-cases, ◌⊎◌, ◌↔◌, inl, inr,
  arith,
}
use stelliberty_m.Control.Process.{done, World}
use stelliberty_m.Control.Manager.{Host, windows, linux, mac_os}
use stelliberty_m.Control.Install.{
  Operation, uninstall, Output, Shell, Platform, run_directly, ended_directly, run_pkexec,
  ended_pkexec, is_denied, both_streams, shell_taken, run_elevated_command, without_look,
  run_operation, removal_error, remove_from, remove_service_binary_from_private, uninstalled,
  uninstall_service, succeeded, failed, removal_told, handle_uninstall,
}

-- One of the attempts from `i` on works; `n` follow the attempt `i`.
abbrev pub Removes : (ℕ → Bool) → ℕ → ℕ → Type 0
Removes removes n i = (k : ℕ) × (k ≤ n) × (removes (i + k) ≡ true)

err_not_ok : {e : String} → ◌≡◌ {A = Result (Unit {0})} (err e) (ok tt) → ⊥
err_not_ok h = cc

remove_from-works :
    (removes : ℕ → Bool) (path : String) (n i : ℕ)
    → remove_from removes path n i ≡ ok tt
    → Removes removes n i
unfolding remove_from
remove_from-works removes path zero i h = elim (Bool-cases (removes i)) [
  | inl e ↦ let z : i + 0 ≡ i = omega arith in (0, omega arith, ap removes z ∙ e)
  | inr e ↦ let no = rw e at h in elim (err_not_ok no) [ ]
]
remove_from-works removes path (suc n) i h = elim (Bool-cases (removes i)) [
  | inl e ↦ let z : i + 0 ≡ i = omega arith in (0, omega arith, ap removes z ∙ e)
  | inr e ↦
      let (k, le, r) = remove_from-works removes path n (suc i) (rw e at h) in
      let z : i + suc k ≡ suc i + k = omega arith in (suc k, omega arith, ap removes z ∙ r)
]

works-remove_from :
    (removes : ℕ → Bool) (path : String) (n i : ℕ)
    → Removes removes n i
    → remove_from removes path n i ≡ ok tt
unfolding remove_from
works-remove_from removes path zero i (k, le, r) =
    let z : i ≡ i + k = omega arith in rw (ap removes z ∙ r) refl
works-remove_from removes path (suc n) i (zero, le, r) =
    let z : i ≡ i + 0 = omega arith in rw (ap removes z ∙ r) refl
works-remove_from removes path (suc n) i (suc k, le, r) =
    let z : suc i + k ≡ i + suc k = omega arith in
    let later = works-remove_from removes path n (suc i) (k, omega arith, ap removes z ∙ r) in
    elim (Bool-cases (removes i)) [ inl e ↦ rw e refl | inr e ↦ rw e later ]

-- The private copy of the service is gone: there was none, or one of 16 attempts removes it.
abbrev pub Removable : Bool → (ℕ → Bool) → Type 0
Removable exists removes = (exists ≡ false) ⊎ ((k : ℕ) × (k ≤ 15) × (removes k ≡ true))

remove-works :
    (exists : Bool) (removes : ℕ → Bool) (path : String)
    → remove_service_binary_from_private exists removes path ≡ ok tt
    → Removable exists removes
unfolding remove_service_binary_from_private
remove-works false removes path h = inl refl
remove-works true removes path h =
    let (k, le, r) = remove_from-works removes path 15 0 h in
    let z : k ≡ 0 + k = omega arith in inr (k, le, ap removes z ∙ r)

works-remove :
    (exists : Bool) (removes : ℕ → Bool) (path : String)
    → Removable exists removes
    → remove_service_binary_from_private exists removes path ≡ ok tt
unfolding remove_service_binary_from_private
works-remove false removes path h = refl
works-remove true removes path (inl e) = cc
works-remove true removes path (inr (k, le, r)) =
    let z : 0 + k ≡ k = omega arith in works-remove_from removes path 15 0 (k, le, ap removes z ∙ r)

not_failed : {e : String} → failed e ≡ succeeded → ⊥
not_failed h = let no = ap (λ r. r.is_successful) h in cc

told-works :
    (r removal : Result (Unit {0})) (w : World)
    → (removal_told (uninstalled r removal) w).0.operation ≡ succeeded
    → (r ≡ ok tt) × (removal ≡ ok tt)
unfolding removal_told uninstalled
told-works (err e) removal w h = elim (not_failed h) [ ]
told-works (ok u) (err e) w h = elim (not_failed h) [ ]
told-works (ok u) (ok v) w h = (refl, refl)

-- A command that ran and ended with success.
abbrev pub Ran : Result Output → Type 0
Ran r = (o : Output) × (r ≡ ok o) × (o.success ≡ true)

-- What makes the command of each platform work: on Windows a program that is there and that the shell
-- takes, by an answer over 32; on Linux the service's own command for root, and pkexec for others.
abbrev pub WorksOn : Host → Platform → Type 0
WorksOn windows p =
    (path : String) × (n : ℕ) × (p.shell.path_text ≡ some path)
    × (p.shell.binary_exists ≡ true)
    × (p.shell.execute ≡ pos n)
    × (32 < n)
WorksOn linux p = ((p.has_root ≡ true) × Ran p.direct) ⊎ ((p.has_root ≡ false) × Ran p.pkexec)
WorksOn mac_os p = Ran p.direct

run_directly_iff :
    (op : Operation) (text : Output → String) (r : Result Output)
    → (run_directly op text r ≡ ok tt) ↔ Ran r
unfolding run_directly ended_directly
run_directly_iff op text (err e) = (λ h. cc, λ (o, h, s). cc)
run_directly_iff op text (ok o) = elim (Bool-cases o.success) [
  | inl e ↦ (λ h. (o, refl, e), λ x. rw e refl)
  | inr e ↦ (
    λ h. let no = rw e at h in elim (err_not_ok no) [ ],
    λ (q, same, s). let eq : o ≡ q = ok-injective same in cc,
  )
]

run_pkexec_iff : (op : Operation) (r : Result Output) → (run_pkexec op r ≡ ok tt) ↔ Ran r
unfolding run_pkexec ended_pkexec
run_pkexec_iff op (err e) = (λ h. cc, λ (o, h, s). cc)
run_pkexec_iff op (ok o) = elim (Bool-cases o.success) [
  | inl e ↦ (λ h. (o, refl, e), λ x. rw e refl)
  | inr e ↦ (
    λ h. elim (Bool-cases (is_denied (unwrap_or o.code (negsuc 0)))) [
      | inl d ↦ let no = rw (e, d) at h in elim (err_not_ok no) [ ]
      | inr d ↦ let no = rw (e, d) at h in elim (err_not_ok no) [ ]
    ],
    λ (q, same, s). let eq : o ≡ q = ok-injective same in cc,
  )
]

shell_taken_iff : (v : ℤ) → (shell_taken v ≡ true) ↔ ((n : ℕ) × (v ≡ pos n) × (32 < n))
unfolding shell_taken
shell_taken_iff (negsuc n) = (λ h. cc, λ (m, e, l). cc)
shell_taken_iff (pos n) =
    (λ h. (n, refl, ground arith), λ (m, e, l). let same : n ≡ m = cc in ground arith)

elevated_iff :
    (show_int : ℤ → String) (sh : Shell) (op : Operation) (t : Option String)
    → sh.path_text ≡ t
    → (without_look (run_elevated_command show_int sh op) ≡ ok tt) ↔ (
        (path : String) × (n : ℕ) × (sh.path_text ≡ some path)
        × (sh.binary_exists ≡ true)
        × (sh.execute ≡ pos n)
        × (32 < n))
unfolding run_elevated_command without_look
elevated_iff show_int sh op none e =
    (λ h. let no = rw e at h in elim (err_not_ok no) [ ], λ (path, n, f, x, y, z). cc)
elevated_iff show_int sh op (some path) e = elim (Bool-cases sh.binary_exists) [
  | inl there ↦ elim (Bool-cases (shell_taken sh.execute)) [
    | inl taken ↦ (
      λ h. let (n, v, l) = (shell_taken_iff sh.execute).0 taken in (path, n, e, there, v, l),
      λ x. rw (e, there, taken) refl,
    )
    | inr not_taken ↦ (
      λ h. let no = rw (e, there, not_taken) at h in elim (err_not_ok no) [ ],
      λ (q, n, f, x, v, l). let t = (shell_taken_iff sh.execute).1 (n, v, l) in cc,
    )
  ]
  | inr gone ↦
      (λ h. let no = rw (e, gone) at h in elim (err_not_ok no) [ ], λ (q, n, f, x, v, l). cc)
]

-- Root does not take the way of the others, and they not that of root.
on_root :
    {A B C : Type 0} {b : Bool} → b ≡ true → (A → C) → ((b ≡ true) × A) ⊎ ((b ≡ false) × B) → C
on_root e f (inl (t, a)) = f a
on_root e f (inr (n, x)) = cc

on_plain :
    {A B C : Type 0} {b : Bool} → b ≡ false → (B → C) → ((b ≡ true) × A) ⊎ ((b ≡ false) × B) → C
on_plain e f (inl (t, a)) = cc
on_plain e f (inr (n, x)) = f x

run_operation_iff :
    (show_int : ℤ → String) (p : Platform) (op : Operation) (host : Host)
    → p.host ≡ host
    → (run_operation show_int p op ≡ ok tt) ↔ WorksOn host p
unfolding run_operation
run_operation_iff show_int p op windows e =
    rw e (elevated_iff show_int p.shell op p.shell.path_text refl)
run_operation_iff show_int p op mac_os e = rw e (run_directly_iff op (λ o. o.stderr) p.direct)
run_operation_iff show_int p op linux e = elim (Bool-cases p.has_root) [
  | inl root ↦
      let (there, back) = run_directly_iff op both_streams p.direct in
      rw (e, root) (λ h. inl (refl, there h), on_root refl back)
  | inr plain ↦
      let (there, back) = run_pkexec_iff op p.pkexec in
      rw (e, plain) (λ h. inr (refl, there h), on_plain refl back)
]

-- A removal of the service is reported as successful exactly where the platform's command works, as
-- `WorksOn` says of each platform, and the private copy is not there or one of the 16 attempts removes it.
pub handle_uninstall_iff :
    (show_int : ℤ → String) (p : Platform) (exists : Bool) (removes : ℕ → Bool) (path : String)
    (w : World)
    → ((handle_uninstall show_int p exists removes path (ok tt) w).0.operation ≡ succeeded)
      ↔ (WorksOn p.host p × Removable exists removes)
unfolding handle_uninstall uninstall_service uninstalled removal_told
handle_uninstall_iff show_int p exists removes path w =
    let (works, runs) = run_operation_iff show_int p uninstall p.host refl in
    (
      λ h.
          let (r, removal) =
            told-works (run_operation show_int p uninstall)
              (remove_service_binary_from_private exists removes path) w h in
          (works r, remove-works exists removes path removal),
      λ (r, removable). rw (runs r, works-remove exists removes path removable) refl,
    )

remove_from-fails :
    (removes : ℕ → Bool) (path : String) (n i : ℕ)
    → ((k : ℕ) → removes k ≡ false)
    → remove_from removes path n i ≡ err (removal_error path)
unfolding remove_from
remove_from-fails removes path zero i never = rw (never i) refl
remove_from-fails removes path (suc n) i never =
    rw (never i) (remove_from-fails removes path n (suc i) never)

-- The platform's command works, and the private copy cannot be removed: the core is reported as stopped,
-- the removal as failed, and the process manager keeps what it had, though the service is gone.
pub handle_uninstall_kept :
    (show_int : ℤ → String) (p : Platform) (removes : ℕ → Bool) (path : String) (w : World)
    → run_operation show_int p uninstall ≡ ok tt
    → ((k : ℕ) → removes k ≡ false)
    → handle_uninstall show_int p true removes path (ok tt) w
      ≡ (record { process = done none ∷ []; operation = failed (removal_error path) }, w)
unfolding handle_uninstall uninstall_service uninstalled removal_told
    remove_service_binary_from_private
handle_uninstall_kept show_int p removes path w works never =
    rw (works, remove_from-fails removes path 15 0 never) refl
