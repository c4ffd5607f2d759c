-- ===== src/Network/Streams/Stale.antt =====
-- handlers.rs: which connection a stop ends.
use stelliberty_m.Base.{◌≡◌, ◌≢◌, refl, sym, ap, ◌∙◌, String, [], ◌∷◌, Option, none, some, ok}
use stelliberty_m.Network.Socket.{
  ConnectionId, WebSocketClient, Runtime, Dial, dialled, new, disconnect, spawn,
}
use stelliberty_m.Network.Socket.Tracked.{made_one, connect-ok, disconnect-made_one}
use stelliberty_m.Network.Streams.{
  Stream, traffic, log, memory, connections, worked, Hub, id_of, with_id, ensured,
  ensure_ws_client_initialized, with_client, connected, start_with, start, disconnected, stopped,
  stop, cleaned, cleanup_ws_client,
}
use stelliberty_m.Network.Streams.Running.{
  MayStart, Reach, Reach-Inv, started, cleaned_up, step, ensured-IsTracked, with_id-same,
  cleanup-none,
}

-- The hub behind a start that works.
abbrev pub after_start : String → Stream → Hub → Hub
after_start ipc_path stream h =
    let c = ensured ipc_path h.client in
    with_id stream (some c.next_connection_id)
      (record h { client = some (made_one c h.runtime); runtime = spawn h.runtime })

start-ok :
    (ipc_path : String) (stream : Stream) (d : Dial) (h : Hub)
    → dialled d ≡ ok tt
    → start ipc_path stream d h ≡ (worked ∷ [], after_start ipc_path stream h)
unfolding start start_with ensure_ws_client_initialized connected with_client
start-ok ipc_path stream d h works =
    ap (connected stream (ensure_ws_client_initialized ipc_path h))
      (connect-ok d (ensured ipc_path h.client) h.runtime works)

with_id-id_of :
    (stream : Stream) (id : Option ConnectionId) (h : Hub) → id_of stream (with_id stream id h) ≡ id
unfolding with_id id_of
with_id-id_of traffic id h = refl
with_id-id_of log id h = refl
with_id-id_of memory id h = refl
with_id-id_of connections id h = refl

with_id-other :
    (stream stream' : Stream) (id : Option ConnectionId) (h : Hub)
    → stream ≢ stream'
    → id_of stream (with_id stream' id h) ≡ id_of stream h
unfolding with_id id_of
with_id-other traffic traffic id h n = elim (n refl) [ ]
with_id-other log log id h n = elim (n refl) [ ]
with_id-other memory memory id h n = elim (n refl) [ ]
with_id-other connections connections id h n = elim (n refl) [ ]
with_id-other traffic log id h n = refl
with_id-other traffic memory id h n = refl
with_id-other traffic connections id h n = refl
with_id-other log traffic id h n = refl
with_id-other log memory id h n = refl
with_id-other log connections id h n = refl
with_id-other memory traffic id h n = refl
with_id-other memory log id h n = refl
with_id-other memory connections id h n = refl
with_id-other connections traffic id h n = refl
with_id-other connections log id h n = refl
with_id-other connections memory id h n = refl

stop-runtime :
    (stream : Stream) (h : Hub) (id : ConnectionId) (c : WebSocketClient)
    → id_of stream h ≡ some id
    → h.client ≡ some c
    → (stop stream h).1.runtime ≡ (disconnect id c h.runtime).1
unfolding stop stopped disconnected with_client
stop-runtime stream h id c id_is client =
    let (same_client, same_runtime) = with_id-same stream none h in
    ap (λ o. (stopped o (with_id stream none h)).runtime) id_is
    ∙ ap (λ o. (disconnected id (with_id stream none h) o).runtime) (same_client ∙ client)
    ∙ ap (λ r. (disconnect id c r).1) same_runtime

disconnected-id_of :
    (stream : Stream) (id : ConnectionId) (h : Hub) (o : Option WebSocketClient)
    → id_of stream (disconnected id h o) ≡ id_of stream h
unfolding disconnected with_client id_of
disconnected-id_of traffic id h none = refl
disconnected-id_of log id h none = refl
disconnected-id_of memory id h none = refl
disconnected-id_of connections id h none = refl
disconnected-id_of traffic id h (some c) = refl
disconnected-id_of log id h (some c) = refl
disconnected-id_of memory id h (some c) = refl
disconnected-id_of connections id h (some c) = refl

stopped-id_of :
    (stream : Stream) (o : Option ConnectionId) (h : Hub)
    → id_of stream (stopped o h) ≡ id_of stream h
unfolding stopped
stopped-id_of stream none h = refl
stopped-id_of stream (some id) h = disconnected-id_of stream id h h.client

-- A stop forgets the id of its stream, and keeps those of the others.
stop-id_of :
    (stream stream' : Stream) (h : Hub)
    → id_of stream (stop stream' h).1 ≡ id_of stream (with_id stream' none h)
unfolding stop
stop-id_of stream stream' h = stopped-id_of stream (id_of stream' h) (with_id stream' none h)

module _ (ipc_path : String) (h : Hub) (reached : Reach ipc_path h) (d : Dial)
    (works : dialled d ≡ ok tt) where
  -- The connection of a start that worked is ended by a stop of any stream that has its id.
  stop-after_start :
      (stream stopping : Stream)
      → id_of stopping (after_start ipc_path stream h)
        ≡ some (ensured ipc_path h.client).next_connection_id
      → (stop stopping (start ipc_path stream d h).1).1.runtime.running ≡ h.runtime.running
  stop-after_start stream stopping id_is =
      let c = ensured ipc_path h.client in
      let i = ensured-IsTracked ipc_path h.client h.runtime (Reach-Inv ipc_path h reached) in
      let plain : Hub = record h {
        client = some (made_one c h.runtime);
        runtime = spawn h.runtime;
      } in
      let (client, runtime) = with_id-same stream (some c.next_connection_id) plain in
      rw (start-ok ipc_path stream d h works) (
        ap (λ r. r.running)
          (stop-runtime stopping (after_start ipc_path stream h) c.next_connection_id
            (made_one c h.runtime) id_is client)
        ∙ ap (λ r. (disconnect c.next_connection_id (made_one c h.runtime) r).1.running) runtime
        ∙ disconnect-made_one c h.runtime i)

  -- In any reachable state, where a start works: a stop of the same stream ends the task that the start
  -- made and no other, so that those run that ran before.
  pub stop-start :
      (stream : Stream)
      → (stop stream (start ipc_path stream d h).1).1.runtime.running ≡ h.runtime.running
  stop-start stream = stop-after_start stream stream (with_id-id_of stream _ _)

  start-running :
      (stream : Stream)
      → (start ipc_path stream d h).1.runtime.running ≡ h.runtime.next_task ∷ h.runtime.running
  unfolding spawn
  start-running stream =
      let c = ensured ipc_path h.client in
      let plain : Hub = record h {
        client = some (made_one c h.runtime);
        runtime = spawn h.runtime;
      } in
      rw (start-ok ipc_path stream d h works)
        (ap (λ r. r.running) (with_id-same stream (some c.next_connection_id) plain).1)

-- Where two starts of one stream work, one behind the other: the stop that follows leaves the task of the
-- first start running, and no id is left with which a later stop could end it.
pub stop-start_twice :
    (ipc_path : String) (h : Hub) (stream : Stream) (d d' : Dial)
    → Reach ipc_path h
    → MayStart h.client
    → dialled d ≡ ok tt
    → dialled d' ≡ ok tt
    → let after = (stop stream (start ipc_path stream d' (start ipc_path stream d h).1).1).1 in
      (after.runtime.running ≡ h.runtime.next_task ∷ h.runtime.running)
      × (id_of stream after ≡ none)
stop-start_twice ipc_path h stream d d' reached fits works works' =
    let h₁ = (start ipc_path stream d h).1 in
    (
      stop-start ipc_path h₁ (step reached (started stream d fits)) d' works' stream
          ∙ start-running ipc_path h reached d works stream,
      stop-id_of stream stream (start ipc_path stream d' h₁).1 ∙ with_id-id_of stream none _,
    )

cleaned-id_of :
    (stream : Stream) (h : Hub) (o : Option WebSocketClient)
    → id_of stream (cleaned o h).1 ≡ id_of stream h
unfolding cleaned id_of
cleaned-id_of stream h none = refl
cleaned-id_of traffic h (some c) = refl
cleaned-id_of log h (some c) = refl
cleaned-id_of memory h (some c) = refl
cleaned-id_of connections h (some c) = refl

cleanup-id_of : (stream : Stream) (h : Hub) → id_of stream (cleanup_ws_client h).1 ≡ id_of stream h
unfolding cleanup_ws_client
cleanup-id_of stream h = cleaned-id_of stream h h.client

id_of-plain :
    (stream : Stream) (h : Hub) (o : Option WebSocketClient) (r : Runtime)
    → id_of stream (record h { client = o; runtime = r }) ≡ id_of stream h
unfolding id_of
id_of-plain traffic h o r = refl
id_of-plain log h o r = refl
id_of-plain memory h o r = refl
id_of-plain connections h o r = refl

-- A stream whose connection was the first of its client, a clean-up, and a start of another stream that
-- works: the stop of the old stream, whose id the clean-up kept, ends the new stream's task, while the id
-- of the new stream stays.
pub stop_stale :
    (ipc_path : String) (h : Hub) (old fresh_one : Stream) (d : Dial)
    → Reach ipc_path h
    → id_of old h ≡ some 1
    → old ≢ fresh_one
    → dialled d ≡ ok tt
    → let begun = start ipc_path fresh_one d (cleanup_ws_client h).1 in
      let after = (stop old begun.1).1 in
      (begun.0 ≡ worked ∷ []) × (id_of fresh_one after ≡ some 1) × (after.runtime.running ≡ [])
unfolding ensured new
stop_stale ipc_path h old fresh_one d reached id_is differ works =
    let clean = (cleanup_ws_client h).1 in
    let reached₁ = step reached cleaned_up in
    let (no_client, idle) = cleanup-none h (Reach-Inv ipc_path h reached) in
    let first_id : (ensured ipc_path clean.client).next_connection_id ≡ 1 =
      ap (λ o. (ensured ipc_path o).next_connection_id) no_client in
    let started_is = start-ok ipc_path fresh_one d clean works in
    let begun = (start ipc_path fresh_one d clean).1 in
    let kept =
      with_id-other old fresh_one _ _ differ
      ∙ id_of-plain old clean _ _
      ∙ cleanup-id_of old h
      ∙ id_is
      ∙ ap (λ n. some n) (sym first_id) in
    (
      ap (λ x. x.0) started_is,
      stop-id_of fresh_one old begun
          ∙ with_id-other fresh_one old none begun (λ e. differ (sym e))
          ∙ ap (λ x. id_of fresh_one x.1) started_is
          ∙ with_id-id_of fresh_one _ _
          ∙ ap (λ n. some n) first_id,
      stop-after_start ipc_path clean reached₁ d works fresh_one old kept ∙ idle,
    )
