-- ===== src/Network/Streams.antt =====
-- handlers.rs: the streams of traffic, log lines, memory and connections, and their clean-up. A start is
-- one step: nothing else takes the client between its making and its use.
pub mod Messages
pub mod Running
pub mod Stale
use stelliberty_m.Base.{
  String, Bool, true, false, List, [], ◌∷◌, Option, none, some, Result, ok, err,
}
use stelliberty_m.Ipc.Pool.{Pool}
use stelliberty_m.Network.Connect.{cleanup_ipc_connection_pool}
use stelliberty_m.Network.Socket.{
  ConnectionId, WebSocketClient, Runtime, Dial, new, connect, disconnect, disconnect_all,
}

pub record StreamResult : Type 0 where
  pub is_successful : Bool
  pub error_message : Option String

pub data Stream : Type 0 where
  traffic log memory connections : Stream

-- `WS_CLIENT`, the four ids, and the tasks.
pub record Hub : Type 0 where
  pub client : Option WebSocketClient
  pub traffic_connection_id : Option ConnectionId
  pub log_connection_id : Option ConnectionId
  pub memory_connection_id : Option ConnectionId
  pub connection_stream_id : Option ConnectionId
  pub runtime : Runtime

unfoldable pub id_of : Stream → Hub → Option ConnectionId
id_of traffic h = h.traffic_connection_id
id_of log h = h.log_connection_id
id_of memory h = h.memory_connection_id
id_of connections h = h.connection_stream_id

unfoldable pub with_id : Stream → Option ConnectionId → Hub → Hub
with_id traffic id h = record h { traffic_connection_id = id }
with_id log id h = record h { log_connection_id = id }
with_id memory id h = record h { memory_connection_id = id }
with_id connections id h = record h { connection_stream_id = id }

module _ (ipc_path : String) where
  pub ensured : Option WebSocketClient → WebSocketClient
  ensured none = new ipc_path
  ensured (some c) = c

  unfoldable pub ensure_ws_client_initialized : Hub → Hub
  unfolding ensured
  ensure_ws_client_initialized h = record h { client = some (ensured h.client) }

abbrev pub worked : StreamResult
worked = record { is_successful = true; error_message = none }

abbrev pub not_worked : String → StreamResult
not_worked e = record { is_successful = false; error_message = some e }

with_client : WebSocketClient × Runtime → Hub → Hub
with_client (c, r) h = record h { client = some c; runtime = r }

connected : Stream → Hub → Result ConnectionId × WebSocketClient × Runtime → List StreamResult × Hub
connected stream h (ok id, c, r) = (worked ∷ [], with_id stream (some id) (with_client (c, r) h))
connected stream h (err e, c, r) = (not_worked e ∷ [], with_client (c, r) h)

start_with : Stream → Dial → Hub → Option WebSocketClient → List StreamResult × Hub
start_with stream d h none = ([], h)
start_with stream d h (some c) = connected stream h (connect d c h.runtime)

-- The four handlers that start a stream differ in the endpoint, the test of a message and the id.
unfoldable pub start : String → Stream → Dial → Hub → List StreamResult × Hub
unfolding ensure_ws_client_initialized with_id with_client connected start_with
start ipc_path stream d h =
    let ensured_hub = ensure_ws_client_initialized ipc_path h in
    start_with stream d ensured_hub ensured_hub.client

disconnected : ConnectionId → Hub → Option WebSocketClient → Hub
disconnected id h none = h
disconnected id h (some c) = with_client (disconnect id c h.runtime) h

stopped : Option ConnectionId → Hub → Hub
stopped none h = h
stopped (some id) h = disconnected id h h.client

unfoldable pub stop : Stream → Hub → List StreamResult × Hub
unfolding with_id id_of with_client disconnected stopped
stop stream h = (worked ∷ [], stopped (id_of stream h) (with_id stream none h))

-- The handlers; `dial` says what comes of dialling an endpoint.
module _ (ipc_path : String) (dial : String → Dial) where
  unfoldable pub start_traffic_stream : Hub → List StreamResult × Hub
  unfolding start
  start_traffic_stream h = start ipc_path traffic (dial "/traffic") h

  unfoldable pub start_log_stream : Hub → List StreamResult × Hub
  unfolding start
  start_log_stream h = start ipc_path log (dial "/logs?level=info") h

  unfoldable pub start_memory_stream : Hub → List StreamResult × Hub
  unfolding start
  start_memory_stream h = start ipc_path memory (dial "/memory") h

  unfoldable pub start_connection_stream : Hub → List StreamResult × Hub
  unfolding start
  start_connection_stream h = start ipc_path connections (dial "/connections") h

unfoldable pub stop_traffic_stream : Hub → List StreamResult × Hub
unfolding stop
stop_traffic_stream h = stop traffic h

unfoldable pub stop_log_stream : Hub → List StreamResult × Hub
unfolding stop
stop_log_stream h = stop log h

unfoldable pub stop_memory_stream : Hub → List StreamResult × Hub
unfolding stop
stop_memory_stream h = stop memory h

unfoldable pub stop_connection_stream : Hub → List StreamResult × Hub
unfolding stop
stop_connection_stream h = stop connections h

cleaned : Option WebSocketClient → Hub → Bool × Hub
cleaned none h = (false, h)
cleaned (some c) h =
    let (_dropped, r) = disconnect_all c h.runtime in
    (true, record h { client = none; runtime = r })

-- The client is taken out; the four ids stay as they are.
unfoldable pub cleanup_ws_client : Hub → Bool × Hub
unfolding cleaned
cleanup_ws_client h = cleaned h.client h

unfoldable pub cleanup_all_network_resources : Hub × Pool → Hub × Pool
unfolding cleanup_ws_client cleanup_ipc_connection_pool
cleanup_all_network_resources (h, pool) =
    ((cleanup_ws_client h).1, (cleanup_ipc_connection_pool pool).1)
