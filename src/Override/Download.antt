-- ===== src/Override/Download.antt =====
-- native/hub/src/molecules/overrides/downloader.rs: the download of an override. The HTTP client is an
-- argument: what comes of building it, and of a request with it.
pub mod Content
use Prim.Native.String
use stelliberty_m.Base.{
  ℕ, String, Bool, true, false, ◌&&◌, Option, none, some, Result, ok, err, ◌>>=◌, leb, ltb,
  is_empty, unwrap_or, if◌then◌else◌,
}
use stelliberty_m.Subscription.Download.{ProxyMode, direct, system, core}

pub record DownloadOverrideRequest : Type 0 where
  pub request_id : String
  pub url : String
  pub proxy_mode : ProxyMode
  pub user_agent : String
  pub timeout_seconds : ℕ
  pub mixed_port : ℕ

pub record DownloadOverrideResponse : Type 0 where
  pub request_id : String
  pub is_successful : Bool
  pub content : String
  pub error_message : Option String

-- The settings of the client; without a proxy of its own it takes the one of the environment.
pub record ClientSettings : Type 0 where
  pub timeout : ℕ
  pub connect_timeout : ℕ
  pub accepts_invalid_certs : Bool
  pub proxy : Option String

pub record Answer : Type 0 where
  pub status : ℕ
  pub canonical_reason : Option String
  pub text : Result String

-- `reqwest`: a proxy's address, a client's settings, and a request by a client.
pub record Http : Type 0 where
  pub proxy_all : String → Result String
  pub build : ClientSettings → Result ClientSettings
  pub get : ClientSettings → (url user_agent : String) → Result Answer
  pub show : ℕ → String

plain : ℕ → Option String → ClientSettings
plain timeout_seconds proxy = record {
  timeout = timeout_seconds;
  connect_timeout = 10;
  accepts_invalid_certs = false;
  proxy = proxy;
}

module _ (http : Http) where
  unfoldable pub create_http_client : ProxyMode → ℕ → ℕ → Result ClientSettings
  unfolding plain
  create_http_client direct timeout_seconds mixed_port = http.build (plain timeout_seconds none)
  create_http_client system timeout_seconds mixed_port = http.build (plain timeout_seconds none)
  create_http_client core timeout_seconds mixed_port = do
    proxy ← http.proxy_all (String.◌++◌ "http://127.0.0.1:" (http.show mixed_port))
    http.build (plain timeout_seconds (some proxy))

  pub is_success : ℕ → Bool
  is_success status = leb 200 status && ltb status 300

  not_empty : String → Result String
  not_empty content = if is_empty content then err "覆写文件内容为空" else ok content

  read_answer : Answer → Result String
  unfolding not_empty
  read_answer a =
      if is_success a.status
      then (do content ← a.text; not_empty content)
      else err (
          String.◌++◌ "HTTP " (
            String.◌++◌ (http.show a.status)
              (String.◌++◌ ": " (unwrap_or a.canonical_reason "Unknown"))))

  unfoldable pub download_override : String → ProxyMode → String → ℕ → ℕ → Result String
  unfolding create_http_client is_success read_answer
  download_override url proxy_mode user_agent timeout_seconds mixed_port = do
    client ← create_http_client proxy_mode timeout_seconds mixed_port
    answer ← http.get client url user_agent
    read_answer answer

  respond : String → Result String → DownloadOverrideResponse
  respond id (ok content) = record {
    request_id = id;
    is_successful = true;
    content = content;
    error_message = none;
  }
  respond id (err e) = record {
    request_id = id;
    is_successful = false;
    content = "";
    error_message = some e;
  }

  unfoldable pub handle : DownloadOverrideRequest → DownloadOverrideResponse
  unfolding download_override respond
  handle r =
      respond r.request_id
        (download_override r.url r.proxy_mode r.user_agent r.timeout_seconds r.mixed_port)
