-- ===== src/SystemProxy/Linux/Requests.antt =====
-- manager.rs: the three requests on Linux, over the backends for KDE, gsettings and dconf.
pub mod Applied
pub mod Kde
use Prim.Native.String
use stelliberty_m.Base.{
  ℕ, String, Bool, true, false, not, List, [], ◌∷◌, ◌++◌, Option, none, some, Result, ok, err, eqb,
  is_empty, contains, trim_start_if, trim_end_if, ◌==◌, if◌then◌else◌,
}
use stelliberty_m.SystemProxy.{
  EnableSystemProxy, ProxyResult, success, error, ProxyInfo, disabled_proxy_info,
  enabled_proxy_info, Platform,
}
use stelliberty_m.SystemProxy.Commands.{
  Output, Act, ◌>>=◌, next, pure, Run, run_command, read_command_output,
}
use stelliberty_m.SystemProxy.Linux.{
  joined, Environment, kioslaverc_path, kde_key, parse_kde_proxy_server, kwriteconfig_command,
  kreadconfig_command, enable_proxy_gsettings, enable_proxy_dconf, enable_proxy_kde,
  disable_proxy_gsettings, disable_proxy_dconf, disable_proxy_kde,
}

-- `trim_matches('\'')`.
unfoldable pub trim_quotes : String → String
trim_quotes s = trim_end_if (λ c. eqb c b'\'') (trim_start_if (λ c. eqb c b'\'') s)

unfoldable pub server_info : String → String → ProxyInfo
server_info host port =
    if is_empty host
    then disabled_proxy_info
    else enabled_proxy_info (String.◌++◌ host (String.◌++◌ ":" port))

-- The backends that were applied, and the errors of the others, in their order.
pub record Backends : Type 0 where
  pub applied : List String
  pub errors : List String

unfoldable pub collect_backend_result : String → Result (Unit {0}) → Backends → Backends
collect_backend_result name (ok _) b = record b { applied = b.applied ++ name ∷ [] }
collect_backend_result name (err e) b = record b { errors = b.errors ++ e ∷ [] }

unfoldable pub build_proxy_result : Backends → ProxyResult
build_proxy_result b = result b.applied b.errors
  where
    result : List String → List String → ProxyResult
    result [] [] = error "未找到可用的 Linux 系统代理配置命令"
    result [] (e ∷ es) = error (joined "；" (e ∷ es))
    result (name ∷ names) errors = success

module _ {W : Type 0} (run : Run W) (env : Environment) where
  or_disabled : Result ProxyInfo × W → ProxyInfo × W
  or_disabled (err e, w) = (disabled_proxy_info, w)
  or_disabled (ok info, w) = (info, w)

  -- Both backends of GNOME: the command, and what is read for the mode, the host and the port.
  read_gnome : String → List String → List String → List String → Act W ProxyInfo
  unfolding trim_quotes server_info contains
  read_gnome command mode_args host_args port_args = do
    mode ← read_command_output run command mode_args
    if contains mode "manual"
        then (do
          host ← read_command_output run command host_args
          port ← read_command_output run command port_args
          pure (server_info (trim_quotes host) port))
        else pure disabled_proxy_info

  unfoldable pub get_proxy_info_gnome : W → ProxyInfo × W
  unfolding read_gnome or_disabled
  get_proxy_info_gnome w = or_disabled (
      read_gnome "gsettings" ("get" ∷ "org.gnome.system.proxy" ∷ "mode" ∷ [])
        ("get" ∷ "org.gnome.system.proxy.http" ∷ "host" ∷ [])
        ("get" ∷ "org.gnome.system.proxy.http" ∷ "port" ∷ []) w)

  unfoldable pub get_proxy_info_dconf : W → ProxyInfo × W
  unfolding read_gnome or_disabled
  get_proxy_info_dconf w = or_disabled (
      read_gnome "dconf" ("read" ∷ "/system/proxy/mode" ∷ [])
        ("read" ∷ "/system/proxy/http/host" ∷ []) ("read" ∷ "/system/proxy/http/port" ∷ []) w)

  kde_info : Option String → ProxyInfo
  kde_info none = disabled_proxy_info
  kde_info (some server) = enabled_proxy_info server

  read_kde : String → Result String → Act W ProxyInfo
  read_kde command (err e) = pure disabled_proxy_info
  read_kde command (ok config_file) = do
    proxy_type ← read_command_output run command (kde_key config_file "ProxyType")
    if proxy_type == "1"
        then (do
          proxy ← read_command_output run command (kde_key config_file "httpProxy")
          pure (kde_info (parse_kde_proxy_server proxy)))
        else pure disabled_proxy_info

  kde_by : Option String × W → ProxyInfo × W
  unfolding or_disabled kde_info read_kde
  kde_by (none, w) = (disabled_proxy_info, w)
  kde_by (some command, w) = or_disabled (read_kde command (kioslaverc_path env) w)

  unfoldable pub get_proxy_info_kde : W → ProxyInfo × W
  unfolding kde_by
  get_proxy_info_kde w = kde_by (kreadconfig_command run env w)

  -- The first of the backends that has a proxy.
  or_else : ProxyInfo × W → (W → ProxyInfo × W) → ProxyInfo × W
  or_else (info, w) others = if info.is_enabled then (info, w) else others w

  unfoldable pub get_proxy_info : W → ProxyInfo × W
  unfolding or_else contains
  get_proxy_info w =
      if contains env.desktop "KDE"
      then or_else (get_proxy_info_kde w) (λ v.
        or_else (get_proxy_info_gnome v)
          (λ u. or_else (get_proxy_info_dconf u) (λ t. (disabled_proxy_info, t))))
      else or_else (get_proxy_info_gnome w) (λ v.
        or_else (get_proxy_info_dconf v)
          (λ u. or_else (get_proxy_info_kde u) (λ t. (disabled_proxy_info, t))))

  collected : String → Result (Unit {0}) × W → Backends → Backends × W
  collected name (r, w) b = (collect_backend_result name r b, w)

  -- The backend for KDE counts where its command is there.
  with_kde : (String → Act W (Unit {0})) → Option String × W → Backends × W
  with_kde act (none, w) = (record { applied = []; errors = [] }, w)
  with_kde act (some command, w) =
      collected "KDE" (act command w) (record { applied = []; errors = [] })

  with_backend : String → Act W (Unit {0}) → Backends × W → Backends × W
  with_backend name act (b, w) = collected name (act w) b

  result_of : Backends × W → ProxyResult × W
  result_of (b, w) = (build_proxy_result b, w)

  -- The backends are asked in this order, whichever of them fail.
  all_backends :
      (String → Act W (Unit {0})) → Act W (Unit {0}) → Act W (Unit {0}) → W → ProxyResult × W
  unfolding collect_backend_result build_proxy_result collected with_kde with_backend result_of
  all_backends kde gsettings dconf w = result_of (
      with_backend "dconf" dconf
        (with_backend "gsettings" gsettings (with_kde kde (kwriteconfig_command run env w))))

  -- The mode of the request, its script and its file have no part in it.
  unfoldable pub enable_proxy : EnableSystemProxy → W → ProxyResult × W
  unfolding all_backends
  enable_proxy r w =
      all_backends (λ command. enable_proxy_kde run env command r.host r.port r.bypass_domains)
        (enable_proxy_gsettings run env r.host r.port r.bypass_domains)
        (enable_proxy_dconf run env r.host r.port r.bypass_domains) w

  unfoldable pub disable_proxy : W → ProxyResult × W
  unfolding all_backends
  disable_proxy w =
      all_backends (λ command. disable_proxy_kde run env command) (disable_proxy_gsettings run env)
        (disable_proxy_dconf run env) w

  unfoldable pub linux : Platform W
  linux = record {
    enable_proxy = enable_proxy;
    disable_proxy = disable_proxy;
    get_proxy_info = get_proxy_info;
  }
