-- ===== src/Config/Tests.antt =====
-- Runs of the configuration code and of its theorems on a small configuration.
use stelliberty_m.Base.{◌≡◌, ◌↔◌, ◌⊎◌, refl, true, false, [], ◌∷◌, some, ok, Memᴰ, pos}
use stelliberty_m.Yaml.{
  Value, string, bool, mapping, Mapping, end, entry, Yaml, Laws, as_mapping_mut,
}
use stelliberty_m.Yaml.Assoc.{assoc_yaml, assoc_laws}
use stelliberty_m.Override.Script.{Scripting}
use stelliberty_m.Config.Params.{RuntimeConfigParams}
use stelliberty_m.Config.ChainProxy.{
  ChainProxyCustomConfig, BuildChainProxyConfigRequest, ChainProxyRuntimeConfig, mappings,
  extract_mapping_sequence, new_proxy_groups, relay_group, build_chain_proxy_config,
}
use stelliberty_m.Config.ChainProxy.Filters.{IsNamed}
use stelliberty_m.Config.ChainProxy.Relays.{IsChain, new_proxy_groups_iff}
use stelliberty_m.Config.ChainProxy.Build.{Built, build_chain_proxy_config-Built}
use stelliberty_m.Config.Dns.{user_dns, inject_user_dns_override}
use stelliberty_m.Config.Dns.User.{Overridden, inject_user_dns_override-Overridden}
use stelliberty_m.Config.Injector.{unix, Build, inject_dns, inject_runtime_params}
use stelliberty_m.Config.Injector.Run.{Run, inject_runtime_params-Run}
use stelliberty_m.Config.Generator.{GenerateRuntimeConfigRequest}

-- Two proxies, of which one dials through the other, and a group.
abbrev plain : Mapping
plain = entry (string "name") (string "a") end

abbrev chained : Mapping
chained = entry (string "name") (string "b") (entry (string "dialer-proxy") (string "a") end)

abbrev group : Mapping
group = entry (string "name") (string "auto") end

abbrev root : Mapping
root = entry (string "proxies") (mappings (plain ∷ chained ∷ [])) (
    entry (string "proxy-groups") (mappings (group ∷ []))
      (entry (string "dns") (mapping (entry (string "enable") (bool false) end)) end))

abbrev library : Yaml
library = assoc_yaml (mapping root)

abbrev laws : Laws library
laws = assoc_laws (mapping root)

abbrev chain : ChainProxyCustomConfig
chain = record { display_name = "mine"; node_names = "a" ∷ "b" ∷ [] }

abbrev chain_request : BuildChainProxyConfigRequest
chain_request = record {
  request_id = "r";
  raw_config = "proxies: []";
  fallback_builtin_chain_proxy_names = [];
  disabled_builtin_chain_proxy_names = "b" ∷ [];
  custom_chain_proxies = chain ∷ [];
}

abbrev params : RuntimeConfigParams
params = record {
  mixed_port = pos 7890;
  socks_port = pos 7891;
  http_port = pos 7892;
  is_ipv6_enabled = false;
  is_allow_lan_enabled = true;
  is_tcp_concurrent_enabled = true;
  is_unified_delay_enabled = true;
  outbound_mode = "rule";
  is_tun_enabled = true;
  tun_stack = "mixed";
  tun_device = "Stelliberty";
  is_tun_auto_route_enabled = true;
  is_tun_auto_redirect_enabled = false;
  is_tun_auto_detect_interface_enabled = true;
  tun_dns_hijacks = "any:53" ∷ [];
  is_tun_strict_route_enabled = true;
  tun_route_exclude_addresses = "10.0.0.0/8" ∷ [];
  is_tun_icmp_forwarding_disabled = false;
  tun_mtu = pos 1500;
  geodata_loader = "memconservative";
  find_process_mode = "off";
  clash_core_log_level = "info";
  external_controller = some "127.0.0.1:9090";
  external_controller_secret = some "";
  is_keep_alive_enabled = true;
  keep_alive_interval = some (pos 30);
  is_dns_override_enabled = false;
  dns_override_content = some "dns: {}";
  lan_authentication = [];
  lan_allowed_ips = "0.0.0.0/0" ∷ [];
  lan_disallowed_ips = [];
  skip_auth_prefixes = "127.0.0.1/32" ∷ [];
}

abbrev build : Build
build = record { platform = unix; debug_assertions = false }

abbrev scripting : Scripting
scripting = record {
  Json = Value;
  Engine = Unit {0};
  new_engine = ok tt;
  to_value = λ v. ok v;
  to_string = λ v. ok "{}";
  from_str = λ s. ok (mapping end);
  from_value = λ v. ok v;
  eval = λ engine code. (ok "{}", engine);
}

abbrev generate_request : GenerateRuntimeConfigRequest
generate_request = record {
  request_id = "g";
  base_config_content = "proxies: []";
  overrides = [];
  runtime_params = params;
}

params_work : inject_runtime_params library build "proxies: []" params ≡ ok "doc"
unfolding inject_runtime_params inject_dns
params_work = refl

inject_runtime_params-Run_example : Run library build params "proxies: []" "doc"
inject_runtime_params-Run_example =
    inject_runtime_params-Run library laws build "proxies: []" "doc" params params_work

new_proxy_groups_iff_example :
    Memᴰ (relay_group library chain) (new_proxy_groups library root (chain ∷ [])) ↔ (
      (Memᴰ (relay_group library chain) (extract_mapping_sequence library root "proxy-groups")
        × (¬ (
            (c : ChainProxyCustomConfig) × Memᴰ c (chain ∷ [])
            × IsNamed library (relay_group library chain) c.display_name)))
      ⊎ ((c : ChainProxyCustomConfig) × Memᴰ c (chain ∷ [])
          × IsChain library (extract_mapping_sequence library root "proxies") c
          × (relay_group library c ≡ relay_group library chain)))
new_proxy_groups_iff_example =
    new_proxy_groups_iff library root (chain ∷ []) (relay_group library chain)

chain_works :
    (r : ChainProxyRuntimeConfig) × (build_chain_proxy_config library chain_request ≡ ok r)
unfolding build_chain_proxy_config
chain_works = (_, refl)

build_chain_proxy_config-Built_example :
    (config : Value) × (library.from_str "proxies: []" ≡ ok config)
    × Built library chain_request (as_mapping_mut library config) chain_works.0
build_chain_proxy_config-Built_example =
    build_chain_proxy_config-Built library laws chain_request chain_works.0 chain_works.1

user_works : (m : Mapping) × (inject_user_dns_override library params root ≡ ok m)
unfolding inject_user_dns_override
user_works = (_, refl)

inject_user_dns_override-Overridden_example :
    Overridden library (user_dns library (some "dns: {}")) root user_works.0
inject_user_dns_override-Overridden_example =
    inject_user_dns_override-Overridden library laws params root user_works.0 user_works.1
