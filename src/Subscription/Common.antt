-- ===== src/Subscription/Common.antt =====
-- parser.rs: query parameters and what several protocols share.
use stelliberty_m.Base.{
  String, Bool, false, List, [], ◌∷◌, Option, none, some, Result, ok, err, map_err, ok_or, ◌>>=◌,
  ◌==◌, if◌then◌else◌, split, split_once, unwrap_or,
}
use stelliberty_m.Subscription.Json.{
  JsonValue, string, object, Fields, Url, Decoded, not_base64, not_utf8, plain, Libraries, json,
}

-- The `HashMap` of the parameters: the last value of a key is found first.
abbrev pub Params : Type 0
Params = List (String × String)

abbrev pub find : String → Params → Option String
find key [] = none
find key ((k, v) ∷ rest) = if k == key then some v else find key rest

module _ (l : Libraries) where
  unfoldable pub url_decode : String → String
  url_decode s = unwrap_or (l.decode_percent s) ""

  insert_pair : Option (String × String) → Params → Params
  insert_pair none params = params
  insert_pair (some (key, value)) params = (key, url_decode value) ∷ params

  insert_pairs : List String → Params → Params
  insert_pairs [] params = params
  insert_pairs (pair ∷ pairs) params =
      insert_pairs pairs (insert_pair (split_once b'=' pair) params)

  unfoldable pub parse_query_params : String → Params
  unfolding insert_pair insert_pairs
  parse_query_params query = insert_pairs (split b'&' query) []

  -- `BASE64.decode(..).map_err(..)?` and `String::from_utf8(..).map_err(..)?`.
  abbrev decoded : String → String → Decoded → Result String
  decoded on_bytes on_text (not_base64 e) = map_err on_bytes (err e)
  decoded on_bytes on_text (not_utf8 e) = map_err on_text (err e)
  decoded on_bytes on_text (plain s) = ok s

  unfoldable pub decode : String → String → String → Result String
  decode on_bytes on_text encoded = decoded on_bytes on_text (l.decode_base64 encoded)

  -- The same where both errors are dropped.
  abbrev decoded_some : Decoded → Option String
  decoded_some (not_base64 e) = none
  decoded_some (not_utf8 e) = none
  decoded_some (plain s) = some s

  unfoldable pub decode_some : String → Option String
  decode_some encoded = decoded_some (l.decode_base64 encoded)

  -- `Url::parse` and the host of the result, with the two errors.
  unfoldable pub url_parts : String → Result (Url × String)
  url_parts link = do
    url ← map_err "URL 解析失败：" (l.parse_url link)
    server ← ok_or url.host_str "缺少服务器地址"
    ok (url, server)

  abbrev pub params_of : Url → Params
  params_of url = parse_query_params (unwrap_or url.query "")

  abbrev pub name_or : Url → String → String
  name_or url default = url_decode (unwrap_or url.fragment default)

  -- `get(key).map(|s| s == "1").unwrap_or(false)`.
  abbrev pub flag : String → Params → Bool
  flag key params = is_one (find key params)
    where
      is_one : Option String → Bool
      is_one none = false
      is_one (some s) = s == "1"

  -- `get(key).map(|s| s.as_str()) == Some(value)`.
  abbrev pub has : String → String → Params → Bool
  has key value params = is_value (find key params)
    where
      is_value : Option String → Bool
      is_value none = false
      is_value (some s) = s == value

  headers : Option String → Fields → Fields
  headers none m = m
  headers (some host) m = l.insert "headers" (object (json l (("Host", string host) ∷ []))) m

  -- The `ws-opts` and `grpc-opts` of a path or a service.
  unfoldable pub ws_opts : String → Option String → JsonValue
  unfolding headers
  ws_opts path host = object (headers host (json l (("path", string path) ∷ [])))

  unfoldable pub grpc_opts : String → JsonValue
  grpc_opts service = object (json l (("grpc-service-name", string service) ∷ []))
