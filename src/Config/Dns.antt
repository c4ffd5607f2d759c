-- ===== src/Config/Dns.antt =====
-- injector.rs, `inject_dns_config` and `inject_user_dns_override`: the `dns` section of a
-- configuration.
pub mod Laws
pub mod User
use stelliberty_m.Base.{
  String, Bool, true, false, not, ◌&&◌, ◌||◌, List, [], ◌∷◌, Option, none, some, Result, ok, ◌>>=◌,
  map_err, ok_or, ◌==◌, if◌then◌else◌, is_empty, and_then, unwrap_or, is_some,
}
use stelliberty_m.Yaml.{
  Value, bool, string, mapping, Items, nil, cons, Mapping, Yaml, new, as_str, as_sequence,
  as_mapping,
}
use stelliberty_m.Config.Params.{RuntimeConfigParams, texts}

-- `is_none_or(|s| s.is_empty())`.
abbrev pub none_or_empty : Option Items → Bool
none_or_empty none = true
none_or_empty (some nil) = true
none_or_empty (some (cons v vs)) = false

abbrev pub nameservers : Value
nameservers =
    texts ("8.8.8.8" ∷ "https://doh.pub/dns-query" ∷ "https://dns.alidns.com/dns-query" ∷ [])

abbrev pub default_nameservers : Value
default_nameservers = texts ("system" ∷ "223.6.6.6" ∷ "8.8.8.8" ∷ [])

module _ (y : Yaml) where
  -- The `dns` section that is there, or an empty one.
  unfoldable pub existing_dns : Mapping → Mapping
  existing_dns config_map = unwrap_or (and_then (y.get "dns" config_map) (as_mapping y)) new

  -- A mode of its own, and not fake-ip.
  is_other : Option Value → Bool
  is_other mode = not (unwrap_or (and_then mode (as_str y)) "fake-ip" == "fake-ip") && is_some mode

  unfoldable pub has_other_mode : Mapping → Bool
  unfolding is_other
  has_other_mode dns = is_other (y.get "enhanced-mode" dns)

  -- `if !contains_key(key) { insert(key, value) }`.
  unfoldable pub put_missing : String → Value → Mapping → Mapping
  put_missing key value m = if is_some (y.get key m) then m else y.insert key value m

  -- The same where the value that is there is no sequence, or an empty one.
  unfoldable pub put_servers : String → Value → Mapping → Mapping
  put_servers key value m =
      let old = y.get key m in
      if not (is_some old) || none_or_empty (and_then old (as_sequence y))
      then y.insert key value m
      else m

  unfoldable pub fill_dns : Bool → Mapping → Mapping
  fill_dns ipv6 dns = put_servers "default-nameserver" default_nameservers (
      put_servers "nameserver" nameservers (
        put_missing "fake-ip-range" (string "198.18.0.1/16") (
          put_missing "enhanced-mode" (string "fake-ip")
            (y.insert "ipv6" (bool ipv6) (y.insert "enable" (bool true) dns)))))

  -- `inject_dns_config`, which never fails.
  unfoldable pub inject_dns_config : RuntimeConfigParams → Mapping → Mapping
  unfolding existing_dns has_other_mode fill_dns
  inject_dns_config params config_map =
      let dns = existing_dns config_map in
      if has_other_mode dns
      then config_map
      else y.insert "dns" (mapping (fill_dns params.is_ipv6_enabled dns)) config_map

  -- `if let Some(value) = get(key) { insert(key, value.clone()) }`.
  copy_key : String → Option Value → Mapping → Mapping
  copy_key key none m = m
  copy_key key (some value) m = y.insert key value m

  unfoldable pub user_dns : Option String → Option String
  user_dns none = none
  user_dns (some content) = if is_empty content then none else some content

  inject_content : Option String → Mapping → Result Mapping
  inject_content none config_map = ok config_map
  inject_content (some content) config_map = do
    user_config ← map_err "解析用户 DNS 配置失败：" (y.from_str content)
    user_map ← ok_or (as_mapping y user_config) "用户 DNS 配置根节点必须是 Map"
    ok (
        copy_key "hosts" (y.get "hosts" user_map)
          (copy_key "dns" (y.get "dns" user_map) config_map))

  unfoldable pub inject_user_dns_override : RuntimeConfigParams → Mapping → Result Mapping
  unfolding user_dns inject_content copy_key
  inject_user_dns_override params config_map =
      inject_content (user_dns params.dns_override_content) config_map
