-- ===== src/DelayTest/Sessions.antt =====
-- tester.rs: the table of running sessions and their cancel channels. A `watch` channel is a cell
-- with the value that it shows and whether its sender lives; a session of the table holds a sender,
-- and a handle the number of a channel. A request id (`i64`) is only compared.
pub mod Laws
pub mod Single
use stelliberty_m.Base.{
  ℕ, zero, suc, ◌≡◌, Bool, true, false, ◌||◌, List, [], ◌∷◌, ◌++◌, Option, none, some, eqb, length,
  if◌then◌else◌, String, ℤ, negsuc,
}
use stelliberty_m.DelayTest.Node.{
  Response, NodeDelayTestOutcome, completed, cancelled, test_single_node_with_cancel,
}

pub data DelayTestSessionKind : Type 0 where
  single batch : DelayTestSessionKind

pub record Channel : Type 0 where
  pub value : Bool
  pub has_sender : Bool

pub record DelayTestSessionState : Type 0 where
  pub kind : DelayTestSessionKind
  pub is_cancelled : Bool
  pub cancel_tx : ℕ

pub record DelayTestSessionHandle : Type 0 where
  pub request_id : ℕ
  pub cancel_rx : ℕ

pub record Store : Type 0 where
  pub sessions : List (ℕ × DelayTestSessionState)
  pub channels : List Channel

abbrev pub find : ℕ → List (ℕ × DelayTestSessionState) → Option DelayTestSessionState
find id [] = none
find id ((k, s) ∷ rest) = if eqb k id then some s else find id rest

abbrev pub without : ℕ → List (ℕ × DelayTestSessionState) → List (ℕ × DelayTestSessionState)
without id [] = []
without id ((k, s) ∷ rest) = let r = without id rest in if eqb k id then r else (k, s) ∷ r

abbrev pub channel_at : List Channel → ℕ → Option Channel
channel_at [] n = none
channel_at (c ∷ cs) zero = some c
channel_at (c ∷ cs) (suc n) = channel_at cs n

-- `Sender::send(true)`.
abbrev pub send : List Channel → ℕ → List Channel
send [] n = []
send (c ∷ cs) zero = record c { value = true } ∷ cs
send (c ∷ cs) (suc n) = c ∷ send cs n

-- The sender is dropped with its session.
abbrev pub close : List Channel → ℕ → List Channel
close [] n = []
close (c ∷ cs) zero = record c { has_sender = false } ∷ cs
close (c ∷ cs) (suc n) = c ∷ close cs n

abbrev pub drop_session : Option DelayTestSessionState → List Channel → List Channel
drop_session none cs = cs
drop_session (some s) cs = close cs s.cancel_tx

abbrev pub open_channel : Channel
open_channel = record { value = false; has_sender = true }

-- A session of the same id is replaced, and its sender dropped.
unfoldable pub register_delay_test_session :
    ℕ → DelayTestSessionKind → Store → Store × DelayTestSessionHandle
register_delay_test_session id kind s =
    let n = length s.channels in
    let session : DelayTestSessionState = record {
      kind = kind;
      is_cancelled = false;
      cancel_tx = n;
    } in
    (
      record {
        sessions = (id, session) ∷ without id s.sessions;
        channels = drop_session (find id s.sessions) (s.channels ++ open_channel ∷ []);
      },
      record { request_id = id; cancel_rx = n },
    )

-- `DelayTestSessionState::cancel`: a second call does nothing.
cancel_state : DelayTestSessionState → DelayTestSessionState
cancel_state t = record t { is_cancelled = true }

cancel_found : ℕ → Option DelayTestSessionState → Store → Store
cancel_found id none s = s
cancel_found id (some t) s = if t.is_cancelled then s else record {
  sessions = (id, cancel_state t) ∷ without id s.sessions;
  channels = send s.channels t.cancel_tx;
}

unfoldable pub cancel_delay_test_session : ℕ → Store → Store
unfolding cancel_found cancel_state
cancel_delay_test_session id s = cancel_found id (find id s.sessions) s

abbrev pub shows : Option Channel → Bool
shows none = false
shows (some c) = c.value

-- `DelayTestSessionHandle::is_cancelled`.
unfoldable pub is_cancelled : DelayTestSessionHandle → Store → Bool
is_cancelled h s = shows (channel_at s.channels h.cancel_rx)

abbrev pub is_ready : Option Channel → Bool
is_ready none = true
is_ready (some c) = c.value || (if c.has_sender then false else true)

-- `wait_for_delay_test_cancel` returns: the value is `true`, or the sender is gone.
unfoldable pub wait_returns : DelayTestSessionHandle → Store → Bool
wait_returns h s = is_ready (channel_at s.channels h.cancel_rx)

finish_found : DelayTestSessionHandle → Option DelayTestSessionState → Store → Store × Bool
finish_found h none s = (s, is_cancelled h s)
finish_found h (some t) s = (
  record { sessions = without h.request_id s.sessions; channels = close s.channels t.cancel_tx },
  t.is_cancelled,
)

unfoldable pub finish_delay_test_session : DelayTestSessionHandle → Store → Store × Bool
unfolding finish_found is_cancelled
finish_delay_test_session h s = finish_found h (find h.request_id s.sessions) s

pub record SingleDelayTestResult : Type 0 where
  pub request_id : ℕ
  pub node_name : String
  pub delay_ms : ℤ
  pub is_cancelled : Bool

-- The end of `handle_single_delay_test_request`: `||` does not call the second function where the
-- test was cancelled.
unfoldable pub end_single :
    DelayTestSessionHandle → String → NodeDelayTestOutcome → Store → Store × SingleDelayTestResult
unfolding finish_delay_test_session
end_single h node_name cancelled s = (
  s,
  record {
    request_id = h.request_id;
    node_name = node_name;
    delay_ms = negsuc 0;
    is_cancelled = true;
  },
)
end_single h node_name (completed delay_ms) s =
    let (s', flag) = finish_delay_test_session h s in
    (
      s',
      record {
        request_id = h.request_id;
        node_name = node_name;
        delay_ms = delay_ms;
        is_cancelled = flag;
      },
    )

-- The flag of the end of `handle_batch_delay_test_request`, by the same `||`.
unfoldable pub end_batch : DelayTestSessionHandle → Store → Store × Bool
unfolding finish_delay_test_session is_cancelled
end_batch h s = if is_cancelled h s then (s, true) else finish_delay_test_session h s

-- `handle_single_delay_test_request`: `others` is what other tasks do to the table while the test
-- waits for its response.
unfoldable pub handle_single :
    ℕ → String → Response → (Store → Store) → Store → Store × SingleDelayTestResult
unfolding register_delay_test_session wait_returns end_single
handle_single id node_name response others s =
    let (registered, session) = register_delay_test_session id single s in
    let waited = others registered in
    end_single session node_name
      (test_single_node_with_cancel (wait_returns session waited) response) waited
