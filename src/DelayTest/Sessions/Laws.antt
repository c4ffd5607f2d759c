-- ===== src/DelayTest/Sessions/Laws.antt =====
-- tester.rs: what a cancellation reaches, how long it lasts, and what stays in the table.
use stelliberty_m.Base.{
  ℕ, zero, suc, ◌<◌, ◌≡◌, refl, ap, ◌∙◌, true, false, List, [], ◌∷◌, ◌++◌, Option, none, some,
  eqb_iff, length, length-append, String, ℤ, arith, Bool-cases, Option-cases, inl, inr,
}
use stelliberty_m.DelayTest.Node.{completed, cancelled}
use stelliberty_m.DelayTest.Sessions.{
  DelayTestSessionKind, Channel, DelayTestSessionState, DelayTestSessionHandle, Store, find,
  without, channel_at, send, close, drop_session, open_channel, register_delay_test_session,
  cancel_found, cancel_delay_test_session, shows, is_cancelled, is_ready, wait_returns,
  finish_found, finish_delay_test_session, end_single, end_batch,
}

find-without : (id : ℕ) (l : List (ℕ × DelayTestSessionState)) → find id (without id l) ≡ none
find-without id [] = refl
find-without id ((k, t) ∷ l) = ground (arith, find-without id l)

shows-close :
    (cs : List Channel) (k n : ℕ) → shows (channel_at (close cs k) n) ≡ shows (channel_at cs n)
shows-close [] k n = refl
shows-close (c ∷ cs) zero zero = refl
shows-close (c ∷ cs) zero (suc n) = refl
shows-close (c ∷ cs) (suc k) zero = refl
shows-close (c ∷ cs) (suc k) (suc n) = shows-close cs k n

shows-drop_session :
    (o : Option DelayTestSessionState) (cs : List Channel) (n : ℕ)
    → shows (channel_at (drop_session o cs) n) ≡ shows (channel_at cs n)
shows-drop_session none cs n = refl
shows-drop_session (some t) cs n = shows-close cs t.cancel_tx n

length-close : (cs : List Channel) (k : ℕ) → length (close cs k) ≡ length cs
length-close [] k = refl
length-close (c ∷ cs) zero = refl
length-close (c ∷ cs) (suc k) = ap suc (length-close cs k)

length-drop_session :
    (o : Option DelayTestSessionState) (cs : List Channel) → length (drop_session o cs) ≡ length cs
length-drop_session none cs = refl
length-drop_session (some t) cs = length-close cs t.cancel_tx

pub shows-append_last :
    (cs : List Channel) (c : Channel) → channel_at (cs ++ c ∷ []) (length cs) ≡ some c
shows-append_last [] c = refl
shows-append_last (d ∷ cs) c = shows-append_last cs c

shows-send_self :
    (cs : List Channel) (n : ℕ) → n < length cs → shows (channel_at (send cs n) n) ≡ true
shows-send_self [] n h = elim h [ ]
shows-send_self (c ∷ cs) zero h = refl
shows-send_self (c ∷ cs) (suc n) h = shows-send_self cs n (omega arith)

shows-send :
    (cs : List Channel) (k n : ℕ)
    → shows (channel_at cs n) ≡ true
    → shows (channel_at (send cs k) n) ≡ true
shows-send [] k n h = h
shows-send (c ∷ cs) zero zero h = refl
shows-send (c ∷ cs) zero (suc n) h = h
shows-send (c ∷ cs) (suc k) zero h = h
shows-send (c ∷ cs) (suc k) (suc n) h = shows-send cs k n h

shows-append :
    (cs : List Channel) (c : Channel) (n : ℕ)
    → shows (channel_at cs n) ≡ true
    → shows (channel_at (cs ++ c ∷ []) n) ≡ true
shows-append [] c n h = cc
shows-append (d ∷ cs) c zero h = h
shows-append (d ∷ cs) c (suc n) h = shows-append cs c n h

shows-append_before :
    (cs : List Channel) (c : Channel) (n : ℕ)
    → n < length cs
    → shows (channel_at (cs ++ c ∷ []) n) ≡ shows (channel_at cs n)
shows-append_before [] c n h = elim h [ ]
shows-append_before (d ∷ cs) c zero h = refl
shows-append_before (d ∷ cs) c (suc n) h = shows-append_before cs c n (omega arith)

-- A session that was just registered is not cancelled, and a cancellation of its id reaches its
-- handle.
pub register-cancel :
    (id : ℕ) (kind : DelayTestSessionKind) (s : Store)
    → let (s', h) = register_delay_test_session id kind s in
      (is_cancelled h s' ≡ false) × (is_cancelled h (cancel_delay_test_session id s') ≡ true)
unfolding register_delay_test_session cancel_delay_test_session is_cancelled
register-cancel id kind s =
    let cs = drop_session (find id s.sessions) (s.channels ++ open_channel ∷ []) in
    let long : length s.channels < length cs = omega (
      arith,
      length-drop_session (find id s.sessions) (s.channels ++ open_channel ∷ []),
      length-append s.channels (open_channel ∷ []),
    ) in
    (
      shows-drop_session (find id s.sessions) (s.channels ++ open_channel ∷ []) (length s.channels)
          ∙ ap shows (shows-append_last s.channels open_channel),
      rw ((eqb_iff id id).1 refl) (shows-send_self cs (length s.channels) long),
    )

-- What other tasks may do to the table.
pub data Op : Type 0 where
  register : ℕ → DelayTestSessionKind → Op
  cancel : ℕ → Op
  finish : DelayTestSessionHandle → Op

abbrev pub run_op : Op → Store → Store
run_op (register id kind) s = (register_delay_test_session id kind s).0
run_op (cancel id) s = cancel_delay_test_session id s
run_op (finish h) s = (finish_delay_test_session h s).0

abbrev pub run_ops : List Op → Store → Store
run_ops [] s = s
run_ops (o ∷ os) s = run_ops os (run_op o s)

cancel_found-keeps :
    (h : DelayTestSessionHandle) (id : ℕ) (o : Option DelayTestSessionState) (s : Store)
    → is_cancelled h s ≡ true
    → is_cancelled h (cancel_found id o s) ≡ true
unfolding cancel_found is_cancelled
cancel_found-keeps h id none s e = e
cancel_found-keeps h id (some t) s e = elim (Bool-cases t.is_cancelled) [
  | inl c ↦ rw c e
  | inr c ↦ rw c (shows-send s.channels t.cancel_tx h.cancel_rx e)
]

finish_found-keeps :
    (h g : DelayTestSessionHandle) (o : Option DelayTestSessionState) (s : Store)
    → is_cancelled h s ≡ true
    → is_cancelled h (finish_found g o s).0 ≡ true
unfolding finish_found is_cancelled
finish_found-keeps h g none s e = e
finish_found-keeps h g (some t) s e = shows-close s.channels t.cancel_tx h.cancel_rx ∙ e

run_op-keeps :
    (h : DelayTestSessionHandle) (o : Op) (s : Store)
    → is_cancelled h s ≡ true
    → is_cancelled h (run_op o s) ≡ true
unfolding register_delay_test_session cancel_delay_test_session finish_delay_test_session
run_op-keeps h (register id kind) s e =
    unfold is_cancelled in
    shows-drop_session (find id s.sessions) (s.channels ++ open_channel ∷ []) h.cancel_rx
    ∙ shows-append s.channels open_channel h.cancel_rx e
run_op-keeps h (cancel id) s e = cancel_found-keeps h id (find id s.sessions) s e
run_op-keeps h (finish g) s e = finish_found-keeps h g (find g.request_id s.sessions) s e

-- A handle that is cancelled stays cancelled, whatever other tasks do.
pub run_ops-keeps :
    (h : DelayTestSessionHandle) (os : List Op) (s : Store)
    → is_cancelled h s ≡ true
    → is_cancelled h (run_ops os s) ≡ true
run_ops-keeps h [] s e = e
run_ops-keeps h (o ∷ os) s e = run_ops-keeps h os (run_op o s) (run_op-keeps h o s e)

-- A test that ran to its end takes its session out of the table.
pub end_single-completed :
    (h : DelayTestSessionHandle) (name : String) (d : ℤ) (s : Store)
    → find h.request_id (end_single h name (completed d) s).0.sessions ≡ none
unfolding end_single
end_single-completed h name d s = elim (Option-cases (find h.request_id s.sessions)) [
  | inl e ↦ rw (e, finish_found) e
  | inr (t, e) ↦ rw (e, finish_found) (find-without h.request_id s.sessions)
]

-- Where the table holds a session under the id of a cancelled handle, the end of its test, single
-- and cancelled or batch, leaves that session in the table.
pub cancelled-stays :
    (h : DelayTestSessionHandle) (name : String) (s : Store) {t : DelayTestSessionState}
    → find h.request_id s.sessions ≡ some t
    → is_cancelled h s ≡ true
    → (find h.request_id (end_single h name cancelled s).0.sessions ≡ some t)
      × (find h.request_id (end_batch h s).0.sessions ≡ some t)
unfolding end_single end_batch
cancelled-stays h name s e c = (e, rw c e)

is_ready-close : (cs : List Channel) (n : ℕ) → is_ready (channel_at (close cs n) n) ≡ true
is_ready-close [] n = refl
is_ready-close (c ∷ cs) zero = ground arith
is_ready-close (c ∷ cs) (suc n) = is_ready-close cs n

-- Where the table holds a session under the handle's id whose sender is that of the handle's
-- channel, the channel exists and the handle is not cancelled: registering the id again drops the
-- sender, so that the first test's wait for a cancellation returns, with the handle not cancelled.
pub register-ends_first :
    (h : DelayTestSessionHandle) (kind : DelayTestSessionKind) (s : Store)
    (t : DelayTestSessionState)
    → find h.request_id s.sessions ≡ some t
    → t.cancel_tx ≡ h.cancel_rx
    → h.cancel_rx < length s.channels
    → is_cancelled h s ≡ false
    → let s' = (register_delay_test_session h.request_id kind s).0 in
      (wait_returns h s' ≡ true) × (is_cancelled h s' ≡ false)
unfolding register_delay_test_session wait_returns is_cancelled
register-ends_first h kind s t e same inside c = (
  rw (e, same) (is_ready-close (s.channels ++ open_channel ∷ []) h.cancel_rx),
  shows-drop_session (find h.request_id s.sessions) _ h.cancel_rx
      ∙ shows-append_before s.channels open_channel h.cancel_rx inside
      ∙ c,
)
