-- ===== src/Network/Streams/Messages.antt =====
-- handlers.rs: the signals that the messages of the four streams give. How a map finds a key and how a
-- value is printed are arguments.
use stelliberty_m.Base.{ℕ, String, Option, none, some, and_then, unwrap_or}
use stelliberty_m.Yaml.{pos_int, neg_int, float}
use stelliberty_m.Subscription.Json.{JsonValue, null, bool, number, string, array, object, Fields}

pub record IpcTrafficData : Type 0 where
  pub upload : ℕ
  pub download : ℕ

pub record IpcLogData : Type 0 where
  pub log_type : String
  pub payload : String

pub record IpcMemoryData : Type 0 where
  pub inuse : ℕ
  pub oslimit : ℕ

pub record IpcConnectionData : Type 0 where
  pub connections_json : String

as_u64 : JsonValue → Option ℕ
as_u64 (number (pos_int n)) = some n
as_u64 (number (neg_int n)) = none
as_u64 (number (float n)) = none
as_u64 null = none
as_u64 (bool b) = none
as_u64 (string s) = none
as_u64 (array a) = none
as_u64 (object o) = none

as_str : JsonValue → Option String
as_str (string s) = some s
as_str null = none
as_str (bool b) = none
as_str (number n) = none
as_str (array a) = none
as_str (object o) = none

as_object : JsonValue → Option Fields
as_object (object o) = some o
as_object null = none
as_object (bool b) = none
as_object (number n) = none
as_object (string s) = none
as_object (array a) = none

module _ (get : String → Fields → Option JsonValue) where
  u64_at : String → Fields → ℕ
  unfolding as_u64
  u64_at key o = unwrap_or (and_then (get key o) as_u64) 0

  str_at : String → String → Fields → String
  unfolding as_str
  str_at key d o = unwrap_or (and_then (get key o) as_str) d

  unfoldable pub on_traffic : JsonValue → Option IpcTrafficData
  unfolding u64_at as_object
  on_traffic v =
      and_then (as_object v)
        (λ o. some (record { upload = u64_at "up" o; download = u64_at "down" o }))

  unfoldable pub on_log : JsonValue → Option IpcLogData
  unfolding str_at as_object
  on_log v =
      and_then (as_object v)
        (λ o. some (record { log_type = str_at "type" "info" o; payload = str_at "payload" "" o }))

  unfoldable pub on_memory : JsonValue → Option IpcMemoryData
  unfolding u64_at as_object
  on_memory v =
      and_then (as_object v)
        (λ o. some (record { inuse = u64_at "inuse" o; oslimit = u64_at "oslimit" o }))

unfoldable pub on_connections : (JsonValue → String) → JsonValue → IpcConnectionData
on_connections to_string v = record { connections_json = to_string v }
