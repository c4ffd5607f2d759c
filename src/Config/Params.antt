-- ===== src/Config/Params.antt =====
-- native/hub/src/molecules/clash_config/runtime_params.rs: the parameters that the application sets
-- over a configuration. An `i32` is an integer `ℤ`; its conversion to a YAML number is exact.
use stelliberty_m.Base.{String, Bool, List, map, Option, ℤ, pos, negsuc}
use stelliberty_m.Yaml.{Number, pos_int, neg_int, Value, number, string, sequence, from_list}

abbrev pub to_number : ℤ → Number
to_number (pos n) = pos_int n
to_number (negsuc n) = neg_int n

-- `YamlValue::Number(n.into())`.
abbrev pub int : ℤ → Value
int n = number (to_number n)

-- A list of texts as a YAML sequence.
abbrev pub texts : List String → Value
texts xs = sequence (from_list (map string xs))

pub record RuntimeConfigParams : Type 0 where
  pub mixed_port : ℤ
  pub socks_port : ℤ
  pub http_port : ℤ
  pub is_ipv6_enabled : Bool
  pub is_allow_lan_enabled : Bool
  pub is_tcp_concurrent_enabled : Bool
  pub is_unified_delay_enabled : Bool
  pub outbound_mode : String
  pub is_tun_enabled : Bool
  pub tun_stack : String
  pub tun_device : String
  pub is_tun_auto_route_enabled : Bool
  pub is_tun_auto_redirect_enabled : Bool
  pub is_tun_auto_detect_interface_enabled : Bool
  pub tun_dns_hijacks : List String
  pub is_tun_strict_route_enabled : Bool
  pub tun_route_exclude_addresses : List String
  pub is_tun_icmp_forwarding_disabled : Bool
  pub tun_mtu : ℤ
  pub geodata_loader : String
  pub find_process_mode : String
  pub clash_core_log_level : String
  pub external_controller : Option String
  pub external_controller_secret : Option String
  pub is_keep_alive_enabled : Bool
  pub keep_alive_interval : Option ℤ
  pub is_dns_override_enabled : Bool
  pub dns_override_content : Option String
  pub lan_authentication : List String
  pub lan_allowed_ips : List String
  pub lan_disallowed_ips : List String
  pub skip_auth_prefixes : List String
