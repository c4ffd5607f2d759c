-- ===== src/Config/Injector.antt =====
-- native/hub/src/molecules/clash_config/injector.rs: the runtime parameters are written over a
-- configuration. Each function is a block of `inject_runtime_params`, in the order of the source.
pub mod Blocks
pub mod Frame
pub mod Owned
pub mod Run
pub mod Section
use stelliberty_m.Base.{
  ℤ, String, Bool, true, false, List, [], ◌∷◌, Option, none, some, Result, ok, ◌>>=◌, map_err,
  ok_or, if◌then◌else◌, is_empty,
}
use stelliberty_m.Yaml.{Value, bool, string, mapping, Mapping, Yaml, new, as_mapping_mut}
use stelliberty_m.Config.Params.{int, texts, RuntimeConfigParams}
use stelliberty_m.Config.Dns.{inject_dns_config, inject_user_dns_override}

-- The build's target and profile, which choose the IPC endpoint.
pub data Platform : Type 0 where
  windows unix : Platform

pub record Build : Type 0 where
  pub platform : Platform
  pub debug_assertions : Bool

abbrev pub endpoint_key : Platform → String
endpoint_key windows = "external-controller-pipe"
endpoint_key unix = "external-controller-unix"

abbrev pub endpoint_path : Platform → Bool → String
endpoint_path windows true = "\\\\.\\pipe\\stelliberty_dev"
endpoint_path windows false = "\\\\.\\pipe\\stelliberty"
endpoint_path unix true = "/tmp/stelliberty_dev.sock"
endpoint_path unix false = "/tmp/stelliberty.sock"

abbrev pub bind_address : Bool → String
bind_address true = "0.0.0.0"
bind_address false = "127.0.0.1"

module _ (y : Yaml) where
  unfoldable pub inject_endpoint : Build → Mapping → Mapping
  inject_endpoint b m =
      y.insert (endpoint_key b.platform) (string (endpoint_path b.platform b.debug_assertions)) m

  inject_secret : Option String → Mapping → Mapping
  inject_secret none m = y.remove "secret" m
  inject_secret (some secret) m =
      if is_empty secret then y.remove "secret" m else y.insert "secret" (string secret) m

  pub controller : Option String → Option String → Mapping → Mapping
  controller none secret m = y.remove "secret" (y.remove "external-controller" m)
  controller (some address) secret m =
      if is_empty address
      then y.remove "secret" (y.remove "external-controller" m)
      else inject_secret secret (y.insert "external-controller" (string address) m)

  unfoldable pub inject_controller : RuntimeConfigParams → Mapping → Mapping
  unfolding inject_secret controller
  inject_controller p m = controller p.external_controller p.external_controller_secret m

  unfoldable pub inject_ports : RuntimeConfigParams → Mapping → Mapping
  inject_ports p m = y.insert "bind-address" (string (bind_address p.is_allow_lan_enabled)) (
      y.insert "socks-port" (int p.socks_port)
        (y.insert "port" (int p.http_port) (y.insert "mixed-port" (int p.mixed_port) m)))

  unfoldable pub inject_general : RuntimeConfigParams → Mapping → Mapping
  inject_general p m = y.insert "log-level" (string p.clash_core_log_level) (
      y.insert "geodata-loader" (string p.geodata_loader) (
        y.insert "find-process-mode" (string p.find_process_mode) (
          y.insert "unified-delay" (bool p.is_unified_delay_enabled) (
            y.insert "tcp-concurrent" (bool p.is_tcp_concurrent_enabled) (
              y.insert "ipv6" (bool p.is_ipv6_enabled)
                (y.insert "mode" (string p.outbound_mode) m))))))

  pub keep_alive : Bool → Option ℤ → Mapping → Mapping
  keep_alive true none m = m
  keep_alive true (some interval) m = y.insert "keep-alive-interval" (int interval) m
  keep_alive false interval m = y.remove "keep-alive-interval" m

  unfoldable pub inject_keep_alive : RuntimeConfigParams → Mapping → Mapping
  unfolding keep_alive
  inject_keep_alive p m = keep_alive p.is_keep_alive_enabled p.keep_alive_interval m

  -- A list that is not empty is written.
  put_list : String → List String → Mapping → Mapping
  put_list key [] m = m
  put_list key (x ∷ xs) m = y.insert key (texts (x ∷ xs)) m

  unfoldable pub tun_config : RuntimeConfigParams → Mapping
  unfolding put_list
  tun_config p = y.insert "disable-icmp-forwarding" (bool p.is_tun_icmp_forwarding_disabled) (
      y.insert "mtu" (int p.tun_mtu) (
        put_list "route-exclude-address" p.tun_route_exclude_addresses (
          y.insert "strict-route" (bool p.is_tun_strict_route_enabled) (
            y.insert "dns-hijack" (texts p.tun_dns_hijacks) (
              y.insert "auto-detect-interface" (bool p.is_tun_auto_detect_interface_enabled) (
                y.insert "auto-redirect" (bool p.is_tun_auto_redirect_enabled) (
                  y.insert "auto-route" (bool p.is_tun_auto_route_enabled) (
                    y.insert "device" (string p.tun_device) (
                      y.insert "stack" (string p.tun_stack)
                        (y.insert "enable" (bool p.is_tun_enabled) new))))))))))

  unfoldable pub inject_tun : RuntimeConfigParams → Mapping → Mapping
  inject_tun p m = y.insert "tun" (mapping (tun_config p)) m

  -- A list that is not empty is written, and an empty one removes the key.
  pub put_or_remove : String → List String → Mapping → Mapping
  put_or_remove key [] m = y.remove key m
  put_or_remove key (x ∷ xs) m = y.insert key (texts (x ∷ xs)) m

  unfoldable pub inject_lan : RuntimeConfigParams → Mapping → Mapping
  unfolding put_or_remove
  inject_lan p m = put_or_remove "skip-auth-prefixes" p.skip_auth_prefixes (
      put_or_remove "lan-disallowed-ips" p.lan_disallowed_ips (
        put_or_remove "lan-allowed-ips" p.lan_allowed_ips
          (put_or_remove "authentication" p.lan_authentication m)))

  -- The user's override comes first, then the defaults of the TUN mode.
  unfoldable pub inject_dns : RuntimeConfigParams → Mapping → Result Mapping
  unfolding inject_dns_config inject_user_dns_override
  inject_dns p m =
      if p.is_dns_override_enabled
      then inject_user_dns_override y p m
      else (if p.is_tun_enabled then ok (inject_dns_config y p m) else ok m)

  -- All blocks but the last one, on the root mapping.
  unfoldable pub inject_root : Build → RuntimeConfigParams → Mapping → Mapping
  inject_root b p m = inject_lan p (
      inject_tun p (
        inject_keep_alive p
          (inject_general p (inject_ports p (inject_controller p (inject_endpoint b m))))))

  inject_at : Build → RuntimeConfigParams → Mapping × (Mapping → Value) → Result String
  inject_at b p (root, rebuild) = do
    final ← inject_dns p (inject_root b p root)
    map_err "序列化配置失败：" (y.to_string (rebuild final))

  -- `inject_runtime_params`.
  unfoldable pub inject_runtime_params : Build → String → RuntimeConfigParams → Result String
  unfolding inject_at
  inject_runtime_params b yaml_content params = do
    config ← map_err "解析配置失败：" (y.from_str yaml_content)
    place ← ok_or (as_mapping_mut y config) "配置根节点必须是 Map"
    inject_at b params place
