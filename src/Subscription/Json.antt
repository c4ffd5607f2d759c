-- ===== src/Subscription/Json.antt =====
-- The JSON values that parser.rs builds and reads, and the libraries that it calls, as a parameter.
-- `JsonValue` has the constructors that serde_json documents; how a map finds and inserts a key is a
-- field of `Libraries`, and `Laws` is what the program relies on.
use stelliberty_m.Base.{
  ℕ, ◌≡◌, String, Bool, List, [], ◌∷◌, Option, none, some, Result, ◌==◌, if◌then◌else◌, ℤ, and_then,
}
use stelliberty_m.Yaml.{Number, Value}
use stelliberty_m.Config.Params.{to_number}

mutual
  pub data JsonValue : Type 0 where
    null : JsonValue
    bool : Bool → JsonValue
    number : Number → JsonValue
    string : String → JsonValue
    array : Elements → JsonValue
    object : Fields → JsonValue

  pub data Elements : Type 0 where
    nil : Elements
    cons : JsonValue → Elements → Elements

  pub data Fields : Type 0 where
    end : Fields
    field : String → JsonValue → Fields → Fields

abbrev pub elements : List JsonValue → Elements
elements [] = nil
elements (v ∷ vs) = cons v (elements vs)

abbrev pub to_list : Elements → List JsonValue
to_list nil = []
to_list (cons v vs) = v ∷ to_list vs

-- `json!(n)` of an `i64`.
abbrev pub int : ℤ → JsonValue
int n = number (to_number n)

-- What `Url::parse` gives: the parts by the accessors of the same names.
pub record Url : Type 0 where
  pub username : String
  pub password : Option String
  pub host_str : Option String
  pub port : Option ℕ
  pub query : Option String
  pub fragment : Option String

-- `BASE64.decode`, then `String::from_utf8`.
pub data Decoded : Type 0 where
  not_base64 not_utf8 : String → Decoded
  plain : String → Decoded

pub record Libraries : Type 0 where
  pub get : String → Fields → Option JsonValue
  pub insert : String → JsonValue → Fields → Fields
  pub json_from_str : String → Result JsonValue
  pub to_json : Value → Result JsonValue
  pub to_yaml : JsonValue → Result Value
  pub get_value : String → Value → Option Value
  pub parse_url : String → Result Url
  pub decode_percent : String → Option String
  pub decode_base64 : String → Decoded
  pub is_alphanumeric : ℕ → Bool
  pub quote_short_ids : String → Result String

pub record Laws (l : Libraries) : Type 0 where
  pub get-end : (j : String) → l.get j end ≡ none
  pub get-insert :
      (k j : String) (v : JsonValue) (m : Fields)
      → l.get j (l.insert k v m) ≡ (if k == j then some v else l.get j m)

abbrev pub as_str : JsonValue → Option String
as_str (string s) = some s
as_str _ = none

abbrev pub as_array : JsonValue → Option (List JsonValue)
as_array (array vs) = some (to_list vs)
as_array _ = none

module _ (l : Libraries) where
  -- `json!({ .. })`: the entries are inserted in order.
  unfoldable pub build : List (String × JsonValue) → Fields → Fields
  build [] m = m
  build ((k, v) ∷ entries) m = build entries (l.insert k v m)

  abbrev pub json : List (String × JsonValue) → Fields
  json entries = build entries end

  -- `value[key].as_str()`; the index of what is no object, or has no such key, is null.
  unfoldable pub text_at : JsonValue → String → Option String
  text_at (object m) key = and_then (l.get key m) as_str
  text_at _ key = none

  -- `if let Some(s) = text { m[key] = json!(s) }`.
  unfoldable pub put_some : String → Option String → Fields → Fields
  put_some key none m = m
  put_some key (some s) m = l.insert key (string s) m
