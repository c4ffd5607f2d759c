-- ===== src/SystemProxy/Mac.antt =====
-- manager.rs: the proxy settings of macOS, by networksetup. The errors of the single settings are dropped.
pub mod Devices
use Prim.Native.String
use stelliberty_m.Base.{
  ℕ, String, Bool, true, false, not, ◌&&◌, List, [], ◌∷◌, ◌++◌, Option, none, some, Result, ok, err,
  is_empty, contains, starts_with, split, trim, filter, if◌then◌else◌,
}
use stelliberty_m.Subscription.Parser.{lines}
use stelliberty_m.SystemProxy.{
  EnableSystemProxy, ProxyResult, success, error, ProxyInfo, disabled_proxy_info,
  enabled_proxy_info, Platform,
}
use stelliberty_m.SystemProxy.Commands.{Output, Act, Run}

abbrev pub networksetup : String
networksetup = "/usr/sbin/networksetup"

listed : Result Output → Result (List String)
unfolding contains lines
listed (err e) = err (String.◌++◌ "执行 networksetup 失败: " e)
listed (ok o) =
    if o.success
    then ok (filter (λ line. not (is_empty line) && not (contains line "*")) (lines o.stdout))
    else err "获取网络设备列表失败"

-- The lines of one device's answer.
pub record Read : Type 0 where
  pub enabled : Bool
  pub server : String
  pub port : String

-- `split(':').nth(1).unwrap_or("").trim()`.
abbrev pub second_part : List String → String
second_part (a ∷ b ∷ more) = b
second_part _ = ""

read_line : String → Read → Read
read_line line r =
    if starts_with line "Enabled:"
    then record r { enabled = contains line "Yes" }
    else if starts_with line "Server:"
    then record r { server = trim (second_part (split b':' line)) }
    else if starts_with line "Port:"
    then record r { port = trim (second_part (split b':' line)) }
    else r

read_lines : List String → Read → Read
unfolding read_line
read_lines [] r = r
read_lines (line ∷ more) r = read_lines more (read_line line r)

server_of : Read → String
server_of r = if is_empty r.port then r.server else String.◌++◌ r.server (String.◌++◌ ":" r.port)

module _ {W : Type 0} (run : Run W) (show : ℕ → String) where
  -- Calls whose results are dropped.
  unfoldable pub try_all : List (List String) → W → W
  try_all [] w = w
  try_all (args ∷ more) w = try_all more (run networksetup args w).1

  unfoldable pub get_network_devices : W → Result (List String) × W
  unfolding listed
  get_network_devices w =
      let (r, w') = run networksetup ("-listallnetworkservices" ∷ []) w in (listed r, w')

  bypass : List String → String → List (List String)
  bypass [] device = []
  bypass (d ∷ ds) device = ("-setproxybypassdomains" ∷ device ∷ d ∷ ds) ∷ []

  enable_device : EnableSystemProxy → String → List (List String)
  unfolding bypass
  enable_device r device =
      ("-setwebproxystate" ∷ device ∷ "on" ∷ [])
      ∷ ("-setwebproxy" ∷ device ∷ r.host ∷ show r.port ∷ [])
      ∷ ("-setsecurewebproxystate" ∷ device ∷ "on" ∷ [])
      ∷ ("-setsecurewebproxy" ∷ device ∷ r.host ∷ show r.port ∷ [])
      ∷ ("-setsocksfirewallproxystate" ∷ device ∷ "on" ∷ [])
      ∷ ("-setsocksfirewallproxy" ∷ device ∷ r.host ∷ show r.port ∷ [])
      ∷ bypass r.bypass_domains device

  disable_device : String → List (List String)
  disable_device device =
      ("-setautoproxystate" ∷ device ∷ "off" ∷ [])
      ∷ ("-setwebproxystate" ∷ device ∷ "off" ∷ [])
      ∷ ("-setsecurewebproxystate" ∷ device ∷ "off" ∷ [])
      ∷ ("-setsocksfirewallproxystate" ∷ device ∷ "off" ∷ [])
      ∷ ("-setproxybypassdomains" ∷ device ∷ "" ∷ [])
      ∷ []

  on_devices : (String → List (List String)) → List String → W → W
  unfolding try_all
  on_devices settings [] w = w
  on_devices settings (device ∷ more) w = on_devices settings more (try_all (settings device) w)

  set_devices : (String → List (List String)) → Result (List String) × W → ProxyResult × W
  unfolding on_devices
  set_devices settings (err e, w) = (error e, w)
  set_devices settings (ok [], w) = (error "未找到网络设备", w)
  set_devices settings (ok (d ∷ ds), w) = (success, on_devices settings (d ∷ ds) w)

  unfoldable pub enable_proxy : EnableSystemProxy → W → ProxyResult × W
  unfolding enable_device set_devices
  enable_proxy r w = set_devices (enable_device r) (get_network_devices w)

  unfoldable pub disable_proxy : W → ProxyResult × W
  unfolding disable_device set_devices
  disable_proxy w = set_devices disable_device (get_network_devices w)

  found : Bool → Read → W → (W → ProxyInfo × W) → ProxyInfo × W
  found true r w others = (enabled_proxy_info (server_of r), w)
  found false r w others = others w

  answer_of : Result Output × W → (W → ProxyInfo × W) → ProxyInfo × W
  unfolding read_lines server_of found lines
  answer_of (err e, w) others = others w
  answer_of (ok o, w) others =
      let r = read_lines (lines o.stdout) (record { enabled = false; server = ""; port = "" }) in
      found (r.enabled && not (is_empty r.server)) r w others

  first_enabled : List String → W → ProxyInfo × W
  unfolding answer_of
  first_enabled [] w = (disabled_proxy_info, w)
  first_enabled (device ∷ more) w =
      answer_of (run networksetup ("-getwebproxy" ∷ device ∷ []) w) (λ v. first_enabled more v)

  info_of : Result (List String) × W → ProxyInfo × W
  unfolding first_enabled
  info_of (err e, w) = (disabled_proxy_info, w)
  info_of (ok devices, w) = first_enabled devices w

  unfoldable pub get_proxy_info : W → ProxyInfo × W
  unfolding info_of
  get_proxy_info w = info_of (get_network_devices w)

  unfoldable pub mac_os : Platform W
  mac_os = record {
    enable_proxy = enable_proxy;
    disable_proxy = disable_proxy;
    get_proxy_info = get_proxy_info;
  }
