-- ===== src/Network/Socket.antt =====
-- ws_client.rs: the WebSocket connections to the core. A spawned task is known by a number and runs until
-- it ends or is aborted; the first number that was not given yet is the next one. That the task of a
-- connection is spawned and its handle stored is one step. How a stream is dialled, the random key and the
-- handshake are arguments.
pub mod Table
pub mod Tracked
use stelliberty_m.Base.{
  ℕ, suc, ◌+◌, ◌%◌, ◌^◌, String, Bool, not, List, [], ◌∷◌, map, Option, none, some, Result, ok, err,
  ◌>>=◌, map_err, eqb, filter, if◌then◌else◌,
}

abbrev pub ConnectionId : Type 0
ConnectionId = ℕ

abbrev pub Connections : Type 0
Connections = List (ConnectionId × ℕ)

pub record WebSocketClient : Type 0 where
  pub ipc_path : String
  pub next_connection_id : ConnectionId
  pub connections : Connections

-- The tasks that run, and the number of the next one.
pub record Runtime : Type 0 where
  pub running : List ℕ
  pub next_task : ℕ

unfoldable pub new : String → WebSocketClient
new ipc_path = record { ipc_path = ipc_path; next_connection_id = 1; connections = [] }

-- `HashMap::get`, `remove` and `insert`.
unfoldable pub get : ConnectionId → Connections → Option ℕ
get id [] = none
get id ((k, t) ∷ rest) = let later = get id rest in if eqb id k then some t else later

unfoldable pub remove : ConnectionId → Connections → Connections
remove id [] = []
remove id ((k, t) ∷ rest) = let later = remove id rest in if eqb id k then later else (k, t) ∷ later

unfoldable pub insert : ConnectionId → ℕ → Connections → Connections
insert id t connections = (id, t) ∷ remove id connections

unfoldable pub spawn : Runtime → Runtime
spawn r = record { running = r.next_task ∷ r.running; next_task = suc r.next_task }

unfoldable pub abort : ℕ → Runtime → Runtime
abort t r = record r { running = filter (λ u. not (eqb t u)) r.running }

unfoldable pub abort_all : List ℕ → Runtime → Runtime
unfolding abort
abort_all [] r = r
abort_all (t ∷ ts) r = abort_all ts (abort t r)

-- The stream to the core, the request built for the endpoint, and the handshake.
pub record Dial : Type 0 where
  pub stream : Result ℕ
  pub request : Result (Unit {0})
  pub handshake : Result (Unit {0})

unfoldable pub dialled : Dial → Result (Unit {0})
dialled d = do
  _stream ← d.stream
  _request ← map_err "构造 WebSocket 请求失败：" d.request
  map_err "WebSocket 握手失败：" d.handshake

-- The id is used up also where the connection fails.
unfoldable pub allocated : WebSocketClient → WebSocketClient
allocated c = record c { next_connection_id = (c.next_connection_id + 1) % 2 ^ 32 }

stored :
    Result (Unit {0}) → WebSocketClient → Runtime → Result ConnectionId × WebSocketClient × Runtime
stored (err e) c r = (err e, allocated c, r)
stored (ok _) c r = (
  ok c.next_connection_id,
  record (allocated c) { connections = insert c.next_connection_id r.next_task c.connections },
  spawn r,
)

unfoldable pub connect :
    Dial → WebSocketClient → Runtime → Result ConnectionId × WebSocketClient × Runtime
unfolding dialled allocated insert spawn stored
connect d c r = stored (dialled d) c r

removed : Option ℕ → ConnectionId → WebSocketClient → Runtime → WebSocketClient × Runtime
removed none id c r = (c, r)
removed (some t) id c r = (record c { connections = remove id c.connections }, abort t r)

unfoldable pub disconnect : ConnectionId → WebSocketClient → Runtime → WebSocketClient × Runtime
unfolding get remove abort removed
disconnect id c r = removed (get id c.connections) id c r

unfoldable pub disconnect_all : WebSocketClient → Runtime → WebSocketClient × Runtime
unfolding abort_all
disconnect_all c r = (record c { connections = [] }, abort_all (map (λ e. e.1) c.connections) r)

-- The end of the task of a connection.
unfoldable pub ended : ConnectionId → ℕ → WebSocketClient → Runtime → WebSocketClient × Runtime
unfolding remove abort
ended id t c r = (record c { connections = remove id c.connections }, abort t r)

-- What the reader meets.
pub data Message : Type 0 where
  text : String → Message
  close ping pong binary frame : Message
  failure : String → Message

on_text : {A : Type 0} → Result A → List A → List A
on_text (err e) rest = rest
on_text (ok value) rest = value ∷ rest

-- The values for which `on_message` is called, in their order; `from_str` is serde_json's.
unfoldable pub read_messages : {A : Type 0} → (String → Result A) → List Message → List A
unfolding on_text
read_messages from_str [] = []
read_messages from_str (text s ∷ rest) = on_text (from_str s) (read_messages from_str rest)
read_messages from_str (close ∷ rest) = []
read_messages from_str (ping ∷ rest) = read_messages from_str rest
read_messages from_str (pong ∷ rest) = read_messages from_str rest
read_messages from_str (binary ∷ rest) = read_messages from_str rest
read_messages from_str (frame ∷ rest) = read_messages from_str rest
read_messages from_str (failure e ∷ rest) = []
