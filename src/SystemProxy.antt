-- ===== src/SystemProxy.antt =====
-- native/hub/src/atoms/system_proxy/manager.rs: the proxy of the operating system, on Linux and on macOS,
-- and the handlers of the requests, which are the same on every platform.
mod Tests
pub mod Solid
pub mod Commands
pub mod Linux
pub mod Mac
use stelliberty_m.Base.{ℕ, String, Bool, true, false, List, Option, none, some}

pub record EnableSystemProxy : Type 0 where
  pub host : String
  pub port : ℕ
  pub bypass_domains : List String
  pub should_use_pac_mode : Bool
  pub pac_script : String
  pub pac_file_path : String

pub record SystemProxyResult : Type 0 where
  pub is_successful : Bool
  pub error_message : Option String

pub data ProxyResult : Type 0 where
  success : ProxyResult
  error : String → ProxyResult

pub record ProxyInfo : Type 0 where
  pub is_enabled : Bool
  pub server : Option String

pub record SystemProxyInfo : Type 0 where
  pub is_enabled : Bool
  pub server : Option String

unfoldable pub response_of : ProxyResult → SystemProxyResult
response_of success = record { is_successful = true; error_message = none }
response_of (error message) = record { is_successful = false; error_message = some message }

-- A platform's part: what it makes of the system.
pub record Platform (W : Type 0) : Type 0 where
  pub enable_proxy : EnableSystemProxy → W → ProxyResult × W
  pub disable_proxy : W → ProxyResult × W
  pub get_proxy_info : W → ProxyInfo × W

answered : {W : Type 0} → ProxyResult × W → SystemProxyResult × W
answered (r, w) = (response_of r, w)

told : {W : Type 0} → ProxyInfo × W → SystemProxyInfo × W
told (i, w) = (record { is_enabled = i.is_enabled; server = i.server }, w)

module _ {W : Type 0} (platform : Platform W) where
  unfoldable pub handle_enable : EnableSystemProxy → W → SystemProxyResult × W
  unfolding response_of answered
  handle_enable request w = answered (platform.enable_proxy request w)

  unfoldable pub handle_disable : W → SystemProxyResult × W
  unfolding response_of answered
  handle_disable w = answered (platform.disable_proxy w)

  unfoldable pub handle_get : W → SystemProxyInfo × W
  unfolding told
  handle_get w = told (platform.get_proxy_info w)

abbrev pub disabled_proxy_info : ProxyInfo
disabled_proxy_info = record { is_enabled = false; server = none }

abbrev pub enabled_proxy_info : String → ProxyInfo
enabled_proxy_info server = record { is_enabled = true; server = some server }
