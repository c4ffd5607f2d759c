-- ===== src/Subscription/Download.antt =====
-- native/hub/src/molecules/subscription/downloader.rs: what becomes of the answer to a download. The
-- HTTP client and the age library are arguments.
pub mod Decrypted
mod Tests
use Prim.Native.String
use stelliberty_m.Base.{
  ℕ, ◌^◌, String, Bool, true, false, ◌&&◌, ◌||◌, List, [], ◌∷◌, map, Option, none, some, Result, ok,
  err, ◌>>=◌, map_err, ok_or, unwrap_or, is_some, if◌then◌else◌, ◌==◌, leb, ltb, is_empty, trim,
  starts_with, split, split_once, parse_unsigned, parse_i64, ℤ,
}
use stelliberty_m.Ipc.Utf8.{from_utf8}
use stelliberty_m.Ipc.Stream.{Bytes}
use stelliberty_m.Subscription.Parser.{lines}

pub data ProxyMode : Type 0 where
  direct system core : ProxyMode

pub record SubscriptionInfoData : Type 0 where
  pub upload : Option ℕ
  pub download : Option ℕ
  pub total : Option ℕ
  pub expire : Option ℤ

abbrev pub no_info : SubscriptionInfoData
no_info = record { upload = none; download = none; total = none; expire = none }

set_info : String → String → SubscriptionInfoData → SubscriptionInfoData
set_info key value info =
    if key == "upload"
    then record info { upload = parse_unsigned 10 (2 ^ 64) value }
    else (if key == "download"
        then record info { download = parse_unsigned 10 (2 ^ 64) value }
        else (if key == "total"
            then record info { total = parse_unsigned 10 (2 ^ 64) value }
            else (if key == "expire" then record info { expire = parse_i64 value } else info)))

read_pair : Option (String × String) → SubscriptionInfoData → SubscriptionInfoData
read_pair none info = info
read_pair (some (key, value)) info = set_info (trim key) (trim value) info

unfoldable pub read_pairs : List String → SubscriptionInfoData → SubscriptionInfoData
unfolding read_pair set_info trim
read_pairs [] info = info
read_pairs (pair ∷ pairs) info = read_pairs pairs (read_pair (split_once b'=' (trim pair)) info)

given : SubscriptionInfoData → Option SubscriptionInfoData
given info =
    if is_some info.upload || is_some info.download || is_some info.total || is_some info.expire
    then some info
    else none

-- `header` is the text of "subscription-userinfo", where there is one.
unfoldable pub parse_subscription_info : Option String → Option SubscriptionInfoData
unfolding read_pairs given
parse_subscription_info none = none
parse_subscription_info (some header) = given (read_pairs (split b';' header) no_info)

-- The answer to the request: its status, the header of the information, and its text.
pub record Response : Type 0 where
  pub status : ℕ
  pub reason : Option String
  pub userinfo : Option String
  pub text : Result String

pub record Age : Type 1 where
  pub Identity : Type 0
  pub identity_from_str : String → Result Identity
  pub decrypt : Identity → String → Result Bytes

module _ (age : Age) where
  with_identity : age.Identity → List age.Identity × Bool → List age.Identity × Bool
  with_identity identity (identities, has_hybrid) = (identity ∷ identities, has_hybrid)

  -- The lines are trimmed. The first one that is wrong is the error.
  unfoldable pub read_identities : List String → Result (List age.Identity × Bool)
  unfolding with_identity starts_with
  read_identities [] = ok ([], false)
  read_identities (line ∷ rest) =
      let others = read_identities rest in
      if is_empty line || starts_with line "#"
      then others
      else (if starts_with line "AGE-SECRET-KEY-PQ-1"
          then (others >>= (λ r. ok (r.0, true)))
          else (if starts_with line "AGE-SECRET-KEY-1"
              then (map_err "age-secret-key 格式无效：" (age.identity_from_str line)
                  >>= (λ identity. others >>= (λ r. ok (with_identity identity r))))
              else err (String.◌++◌ "age-secret-key 类型无效：" line)))

  abbrev pub only_x25519 : String
  only_x25519 = "当前内置解密仅支持 x25519 age-secret-key，暂不支持 mlkem768-x25519 key"

  some_identities : List age.Identity × Bool → Result (List age.Identity × Bool)
  some_identities ([], true) = err only_x25519
  some_identities ([], false) = err "age-secret-key 未包含有效私钥"
  some_identities (identity ∷ identities, has_hybrid) = ok (identity ∷ identities, has_hybrid)

  unfoldable pub parse_x25519_identities : String → Result (List age.Identity × Bool)
  unfolding lines trim read_identities some_identities
  parse_x25519_identities secret_key =
      read_identities (map trim (lines secret_key)) >>= some_identities

  try_decrypted : Result Bytes → Result String → Result String
  try_decrypted (ok bytes) next = ok_or (from_utf8 bytes) "age 解密结果不是有效 UTF-8"
  try_decrypted (err e) next = next

  unfoldable pub try_identities : String → List age.Identity → Bool → Result String
  unfolding try_decrypted
  try_identities content [] true = err only_x25519
  try_identities content [] false = err "age-secret-key 无法解密订阅内容"
  try_identities content (identity ∷ rest) has_hybrid =
      try_decrypted (age.decrypt identity content) (try_identities content rest has_hybrid)

  unfoldable pub given_key : Option String → Option String
  given_key none = none
  given_key (some key) = if is_empty (trim key) then none else some (trim key)

  unfoldable pub decrypt_age_content_if_needed : String → Option String → Result String
  unfolding starts_with given_key parse_x25519_identities try_identities
  decrypt_age_content_if_needed content age_secret_key =
      if starts_with content "-----BEGIN AGE ENCRYPTED FILE-----"
      then (ok_or (given_key age_secret_key) "订阅内容已使用 age 加密，请填写 age-secret-key"
          >>= (λ key. parse_x25519_identities key >>= (λ r. try_identities content r.0 r.1)))
      else ok content

  not_empty : String → Result String
  not_empty content = if is_empty content then err "订阅内容为空" else ok content

-- The proxy that the client is built with.
unfoldable pub proxy_url : (ℕ → String) → ProxyMode → ℕ → Option String
proxy_url show direct mixed_port = none
proxy_url show system mixed_port = none
proxy_url show core mixed_port = some (String.◌++◌ "http://127.0.0.1:" (show mixed_port))

module _ (age : Age) (show : ℕ → String)
    (get : Option String → String → String → Result Response) where
  checked_status : Response → Result Response
  checked_status response =
      if leb 200 response.status && ltb response.status 300
      then ok response
      else err (
          String.◌++◌ "HTTP " (
            String.◌++◌ (show response.status)
              (String.◌++◌ ": " (unwrap_or response.reason "Unknown"))))

  -- `get proxy url user_agent` is what the client, built with that proxy, gives.
  unfoldable pub download_subscription :
      String
      → ProxyMode
      → String
      → ℕ
      → Option String
      → Result (String × Option SubscriptionInfoData)
  unfolding proxy_url checked_status not_empty decrypt_age_content_if_needed parse_subscription_info
  download_subscription url proxy_mode user_agent mixed_port age_secret_key = do
    response ← get (proxy_url show proxy_mode mixed_port) url user_agent
    answered ← checked_status response
    text ← answered.text
    content ← not_empty age text
    decrypted ← decrypt_age_content_if_needed age content age_secret_key
    filled ← not_empty age decrypted
    ok (filled, parse_subscription_info answered.userinfo)

pub record DownloadSubscriptionResponse : Type 0 where
  pub request_id : String
  pub is_successful : Bool
  pub content : String
  pub subscription_info : Option SubscriptionInfoData
  pub error_message : Option String

unfoldable pub respond :
    String → Result (String × Option SubscriptionInfoData) → DownloadSubscriptionResponse
respond request_id (ok (content, info)) = record {
  request_id = request_id;
  is_successful = true;
  content = content;
  subscription_info = info;
  error_message = none;
}
respond request_id (err e) = record {
  request_id = request_id;
  is_successful = false;
  content = "";
  subscription_info = none;
  error_message = some e;
}
