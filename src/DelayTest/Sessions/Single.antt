-- ===== src/DelayTest/Sessions/Single.antt =====
-- tester.rs: a whole single test, left alone or cancelled.
use stelliberty_m.Base.{
  ℕ, zero, suc, ◌<◌, ◌≡◌, refl, ap, ◌∙◌, true, false, List, [], ◌∷◌, ◌++◌, Option, none, some,
  eqb_iff, length, String, ℤ, negsuc, arith, Option-cases, inl, inr,
}
use stelliberty_m.DelayTest.Node.{
  Response, test_single_node, test_single_node_with_cancel, completed,
}
use stelliberty_m.DelayTest.Sessions.{
  single, Channel, DelayTestSessionState, Store, find, channel_at, close, drop_session,
  open_channel, register_delay_test_session, cancel_delay_test_session, is_cancelled, is_ready,
  shows, wait_returns, finish_delay_test_session, end_single, handle_single,
}
use stelliberty_m.DelayTest.Sessions.Laws.{end_single-completed, shows-append_last, register-cancel}

-- Every session's sender is that of a channel that exists.
abbrev pub Inside : Store → Type 0
Inside s =
    (id : ℕ) (t : DelayTestSessionState)
    → find id s.sessions ≡ some t
    → t.cancel_tx < length s.channels

channel_at-close :
    (cs : List Channel) (k n : ℕ) → k < n → channel_at (close cs k) n ≡ channel_at cs n
channel_at-close [] k n h = refl
channel_at-close (c ∷ cs) k zero h = elim h [ ]
channel_at-close (c ∷ cs) zero (suc n) h = refl
channel_at-close (c ∷ cs) (suc k) (suc n) h = channel_at-close cs k n (omega arith)

-- The channel of a session that was just registered is open.
register-open :
    (id : ℕ) (s : Store)
    → Inside s
    → channel_at
        (drop_session (find id s.sessions) (s.channels ++ open_channel ∷ []))
        (length s.channels)
      ≡ some open_channel
register-open id s i = elim (Option-cases (find id s.sessions)) [
  | inl e ↦ rw e (shows-append_last s.channels open_channel)
  | inr (t, e) ↦ rw e (
      channel_at-close (s.channels ++ open_channel ∷ []) t.cancel_tx (length s.channels) (i id t e)
      ∙ shows-append_last s.channels open_channel)
]

ready-shows : (o : Option Channel) → shows o ≡ true → is_ready o ≡ true
ready-shows none h = refl
ready-shows (some c) h = rw h refl

waits :
    (id : ℕ) (s : Store)
    → Inside s
    → let (s', h) = register_delay_test_session id single s in wait_returns h s' ≡ false
unfolding register_delay_test_session wait_returns
waits id s i = ap is_ready (register-open id s i)

woken :
    (id : ℕ) (s : Store)
    → let (s', h) = register_delay_test_session id single s in
      wait_returns h (cancel_delay_test_session id s') ≡ true
unfolding wait_returns is_cancelled
woken id s =
    let (s', h) = register_delay_test_session id single s in
    ready-shows (channel_at (cancel_delay_test_session id s').channels h.cancel_rx)
      (register-cancel id single s).1

registered :
    (id : ℕ) (name : String) (d : ℤ) (s : Store)
    → let (s', h) = register_delay_test_session id single s in
      let (after, result) = end_single h name (completed d) s' in
      (result.delay_ms ≡ d) × (result.is_cancelled ≡ false) × (find id after.sessions ≡ none)
unfolding register_delay_test_session end_single finish_delay_test_session
registered id name d s =
    let (s', h) = register_delay_test_session id single s in
    let same = (eqb_iff id id).1 refl in (refl, rw same, end_single-completed h name d s')

-- Where every session's sender is that of a channel that exists, a single test that other tasks leave
-- alone reports what the node's test gave and no cancellation, and takes its session out of the
-- table; one that is cancelled while it waits reports -1 and a cancellation.
pub handle_single_lem :
    (id : ℕ) (name : String) (r : Response) (s : Store)
    → Inside s
    → let (alone, result) = handle_single id name r (λ t. t) s in
      let stopped = (handle_single id name r (cancel_delay_test_session id) s).1 in
      (result.delay_ms ≡ test_single_node r)
      × (result.is_cancelled ≡ false)
      × (find id alone.sessions ≡ none)
      × (stopped.delay_ms ≡ negsuc 0)
      × (stopped.is_cancelled ≡ true)
unfolding handle_single test_single_node_with_cancel end_single
handle_single_lem id name r s i =
    let (reported, lives, gone) = registered id name (test_single_node r) s in
    (
      rw (waits id s i, test_single_node_with_cancel) reported,
      rw (waits id s i, test_single_node_with_cancel) lives,
      rw (waits id s i, test_single_node_with_cancel) gone,
      rw (woken id s, test_single_node_with_cancel) refl,
      rw (woken id s, test_single_node_with_cancel) refl,
    )
