-- ===== src/Network/Socket/Tracked.antt =====
-- ws_client.rs: the tasks that run and the table of the connections, over the client's operations.
use stelliberty_m.Base.{
  ℕ, suc, ◌+◌, ◌%◌, ◌^◌, ◌<◌, ◌≡◌, refl, ap, sym, ◌∙◌, String, [], Option, none, some, Result, ok,
  err, arith,
}
use stelliberty_m.Network.Socket.{
  ConnectionId, WebSocketClient, Runtime, Dial, dialled, new, allocated, get, insert, spawn, abort,
  removed, disconnect, connect, stored, disconnect_all, ended,
}
use stelliberty_m.Network.Socket.Table.{
  Ordered, handles, without, weaken, remove-Ordered, without-remove, abort_all-handles,
  insert-handles, insert-Ordered, get-insert, without-new, same_one,
}

-- The tasks are those of the table, the newest first.
pub record IsTracked (c : WebSocketClient) (r : Runtime) : Type 0 where
  pub ordered : Ordered c.next_connection_id r.next_task c.connections
  pub all_listed : r.running ≡ handles c.connections

-- The client can give one more id of 32 bits.
abbrev pub HasId : WebSocketClient → Type 0
HasId c = c.next_connection_id + 1 < 2 ^ 32

abbrev pub Tracks : WebSocketClient × Runtime → Type 0
Tracks (c, r) = IsTracked c r

abbrev pub TrackedConnect : Result ConnectionId × WebSocketClient × Runtime → Type 0
TrackedConnect (made, c, r) = IsTracked c r

pub new-IsTracked : (ipc_path : String) (r : Runtime) → r.running ≡ [] → IsTracked (new ipc_path) r
unfolding new
new-IsTracked ipc_path r h = record { ordered = tt; all_listed = h }

pub ended-IsTracked :
    (id t : ℕ) (c : WebSocketClient) (r : Runtime)
    → IsTracked c r
    → get id c.connections ≡ some t
    → Tracks (ended id t c r)
unfolding abort ended
ended-IsTracked id t c r i found = record {
  ordered = remove-Ordered id c.next_connection_id r.next_task c.connections i.ordered;
  all_listed =
      ap (without t) i.all_listed
      ∙ without-remove id c.next_connection_id r.next_task t c.connections i.ordered found;
}

removed-IsTracked :
    (id : ℕ) (c : WebSocketClient) (r : Runtime) (o : Option ℕ)
    → get id c.connections ≡ o
    → IsTracked c r
    → Tracks (removed o id c r)
unfolding removed ended
removed-IsTracked id c r none e i = i
removed-IsTracked id c r (some t) e i = ended-IsTracked id t c r i e

pub disconnect-IsTracked :
    (id : ℕ) (c : WebSocketClient) (r : Runtime) → IsTracked c r → Tracks (disconnect id c r)
unfolding disconnect
disconnect-IsTracked id c r i = removed-IsTracked id c r (get id c.connections) refl i

next_id : (n : ℕ) → n + 1 < 2 ^ 32 → (n + 1) % 2 ^ 32 ≡ suc n
next_id n h = omega arith

stored-IsTracked :
    (o : Result (Unit {0})) (c : WebSocketClient) (r : Runtime)
    → HasId c
    → IsTracked c r
    → TrackedConnect (stored o c r)
unfolding stored allocated spawn
stored-IsTracked (err e) c r fits i = record {
  ordered =
      rw (next_id c.next_connection_id fits)
        (weaken c.connections i.ordered (omega arith) (omega arith));
  all_listed = i.all_listed;
}
stored-IsTracked (ok u) c r fits i = record {
  ordered =
      rw (next_id c.next_connection_id fits)
        (insert-Ordered c.next_connection_id c.connections r.next_task i.ordered);
  all_listed = insert-handles c.next_connection_id c.connections r i.ordered i.all_listed;
}

pub connect-IsTracked :
    (d : Dial) (c : WebSocketClient) (r : Runtime)
    → HasId c
    → IsTracked c r
    → TrackedConnect (connect d c r)
unfolding connect
connect-IsTracked d c r fits i = stored-IsTracked (dialled d) c r fits i

pub disconnect_all-empties :
    (c : WebSocketClient) (r : Runtime) → IsTracked c r → (disconnect_all c r).1.running ≡ []
unfolding disconnect_all
disconnect_all-empties c r i =
    abort_all-handles c.next_connection_id r.next_task c.connections r i.ordered i.all_listed

-- The client with the connection that it makes next.
abbrev pub made_one : WebSocketClient → Runtime → WebSocketClient
made_one c r = record (allocated c) {
  connections = insert c.next_connection_id r.next_task c.connections;
}

pub connect-ok :
    (d : Dial) (c : WebSocketClient) (r : Runtime)
    → dialled d ≡ ok tt
    → connect d c r ≡ (ok c.next_connection_id, made_one c r, spawn r)
unfolding connect stored
connect-ok d c r works = ap (λ o. stored o c r) works

abort-spawn :
    (c : WebSocketClient) (r : Runtime)
    → IsTracked c r
    → (abort r.next_task (spawn r)).running ≡ r.running
unfolding abort spawn
abort-spawn c r i = rw (same_one r.next_task) (
    ap (without r.next_task) i.all_listed
    ∙ without-new r.next_task r.next_task c.next_connection_id c.connections i.ordered (omega arith)
    ∙ sym i.all_listed)

-- A connection just made is ended by its id, and no other is.
pub disconnect-made_one :
    (c : WebSocketClient) (r : Runtime)
    → IsTracked c r
    → (disconnect c.next_connection_id (made_one c r) (spawn r)).1.running ≡ r.running
unfolding disconnect removed
disconnect-made_one c r i =
    rw (get-insert c.next_connection_id r.next_task c.connections) (abort-spawn c r i)
