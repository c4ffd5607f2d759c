-- ===== src/Network/Streams/Running.antt =====
-- handlers.rs and ws_client.rs: the tasks that read the streams, over any sequence of starts, stops, ends
-- of connections and clean-ups.
use stelliberty_m.Base.{ℕ, ◌≡◌, refl, String, [], Option, none, some, Result, ok, err, arith}
use stelliberty_m.Network.Socket.{
  ConnectionId, WebSocketClient, Runtime, Dial, new, get, connect, ended,
}
use stelliberty_m.Network.Socket.Tracked.{
  IsTracked, HasId, TrackedConnect, new-IsTracked, ended-IsTracked, disconnect-IsTracked,
  connect-IsTracked, disconnect_all-empties,
}
use stelliberty_m.Network.Streams.{
  Stream, traffic, log, memory, connections, Hub, id_of, with_id, ensured,
  ensure_ws_client_initialized, with_client, connected, start_with, start, disconnected, stopped,
  stop, cleaned, cleanup_ws_client,
}

abbrev pub Tracked : Option WebSocketClient → Runtime → Type 0
Tracked none r = r.running ≡ []
Tracked (some c) r = IsTracked c r

abbrev pub MayStart : Option WebSocketClient → Type 0
MayStart none = Unit
MayStart (some c) = HasId c

abbrev pub Inv : Hub → Type 0
Inv h = Tracked h.client h.runtime

-- What happens to the hub: a stream is started, as long as the client has ids left, or stopped, a
-- connection ends, or the network is cleaned up.
pub data Step (ipc_path : String) (h : Hub) : Hub → Type 0 where
  started :
      (stream : Stream) (d : Dial)
      → MayStart h.client
      → Step ipc_path h (start ipc_path stream d h).1
  stopped_one : (stream : Stream) → Step ipc_path h (stop stream h).1
  ended_one :
      (id t : ℕ) (c : WebSocketClient)
      → h.client ≡ some c
      → get id c.connections ≡ some t
      → Step ipc_path h (record h {
        client = some (ended id t c h.runtime).0;
        runtime = (ended id t c h.runtime).1;
      })
  cleaned_up : Step ipc_path h (cleanup_ws_client h).1

pub data Reach (ipc_path : String) : Hub → Type 0 where
  first : (h : Hub) → h.client ≡ none → h.runtime.running ≡ [] → Reach ipc_path h
  step : {h next : Hub} → Reach ipc_path h → Step ipc_path h next → Reach ipc_path next

pub ensured-IsTracked :
    (ipc_path : String) (o : Option WebSocketClient) (r : Runtime)
    → Tracked o r
    → IsTracked (ensured ipc_path o) r
unfolding ensured
ensured-IsTracked ipc_path none r i = new-IsTracked ipc_path r i
ensured-IsTracked ipc_path (some c) r i = i

pub ensured-HasId :
    (ipc_path : String) (o : Option WebSocketClient) → MayStart o → HasId (ensured ipc_path o)
unfolding ensured new
ensured-HasId ipc_path none i = omega arith
ensured-HasId ipc_path (some c) i = i

connected-Inv :
    (stream : Stream) (h : Hub) (x : Result ConnectionId × WebSocketClient × Runtime)
    → TrackedConnect x
    → Inv (connected stream h x).1
unfolding connected with_client with_id
connected-Inv stream h (err e, c, r) i = i
connected-Inv traffic h (ok id, c, r) i = i
connected-Inv log h (ok id, c, r) i = i
connected-Inv memory h (ok id, c, r) i = i
connected-Inv connections h (ok id, c, r) i = i

pub start-Inv :
    (ipc_path : String) (stream : Stream) (d : Dial) (h : Hub)
    → MayStart h.client
    → Inv h
    → Inv (start ipc_path stream d h).1
unfolding start start_with ensure_ws_client_initialized
start-Inv ipc_path stream d h fits i =
    connected-Inv stream (ensure_ws_client_initialized ipc_path h)
      (connect d (ensured ipc_path h.client) h.runtime)
      (connect-IsTracked d (ensured ipc_path h.client) h.runtime
        (ensured-HasId ipc_path h.client fits) (ensured-IsTracked ipc_path h.client h.runtime i))

-- `with_id` leaves the client and the tasks.
pub with_id-same :
    (stream : Stream) (id : Option ConnectionId) (h : Hub)
    → ((with_id stream id h).client ≡ h.client) × ((with_id stream id h).runtime ≡ h.runtime)
unfolding with_id
with_id-same traffic id h = (refl, refl)
with_id-same log id h = (refl, refl)
with_id-same memory id h = (refl, refl)
with_id-same connections id h = (refl, refl)

disconnected-Inv :
    (id : ConnectionId) (h : Hub) (o : Option WebSocketClient)
    → h.client ≡ o
    → Inv h
    → Inv (disconnected id h o)
unfolding disconnected with_client
disconnected-Inv id h none e i = i
disconnected-Inv id h (some c) e i = disconnect-IsTracked id c h.runtime (rw e at i)

stopped-Inv : (o : Option ConnectionId) (h : Hub) → Inv h → Inv (stopped o h)
unfolding stopped
stopped-Inv none h i = i
stopped-Inv (some id) h i = disconnected-Inv id h h.client refl i

stop-Inv : (stream : Stream) (h : Hub) → Inv h → Inv (stop stream h).1
unfolding stop
stop-Inv stream h i =
    let (same_client, same_runtime) = with_id-same stream none h in
    stopped-Inv (id_of stream h) (with_id stream none h) (rw (same_client, same_runtime) i)

cleaned-none :
    (h : Hub) (o : Option WebSocketClient)
    → h.client ≡ o
    → Inv h
    → ((cleaned o h).1.client ≡ none) × ((cleaned o h).1.runtime.running ≡ [])
unfolding cleaned
cleaned-none h none e i = (e, rw e at i)
cleaned-none h (some c) e i = (refl, disconnect_all-empties c h.runtime (rw e at i))

pub cleanup-none :
    (h : Hub)
    → Inv h
    → let after = (cleanup_ws_client h).1 in (after.client ≡ none) × (after.runtime.running ≡ [])
unfolding cleanup_ws_client
cleanup-none h i = cleaned-none h h.client refl i

Step-Inv : (ipc_path : String) (h next : Hub) → Step ipc_path h next → Inv h → Inv next
unfolding ended
Step-Inv ipc_path h next (started stream d fits) i = start-Inv ipc_path stream d h fits i
Step-Inv ipc_path h next (stopped_one stream) i = stop-Inv stream h i
Step-Inv ipc_path h next (ended_one id t c e found) i =
    ended-IsTracked id t c h.runtime (rw e at i) found
Step-Inv ipc_path h next cleaned_up i = let (c, r) = cleanup-none h i in rw c r

pub Reach-Inv : (ipc_path : String) (h : Hub) → Reach ipc_path h → Inv h
Reach-Inv ipc_path h (first _ c r) = rw c r
Reach-Inv ipc_path next (step {h} before s) =
    Step-Inv ipc_path h next s (Reach-Inv ipc_path h before)

-- Whatever starts, stops, ends of connections and clean-ups came before, with fewer than 2³² starts by one
-- client: a clean-up leaves no task that reads a stream, and no client.
pub cleanup_ws_client-Idle :
    (ipc_path : String) (h : Hub)
    → Reach ipc_path h
    → let after = (cleanup_ws_client h).1 in (after.runtime.running ≡ []) × (after.client ≡ none)
cleanup_ws_client-Idle ipc_path h reached =
    let (c, r) = cleanup-none h (Reach-Inv ipc_path h reached) in (r, c)
