-- ===== src/Config/ChainProxy.antt =====
-- native/hub/src/molecules/clash_config/chain_proxy.rs: which proxies and proxy groups of a
-- configuration stay, and the relay groups that the user's chains add.
pub mod Filters
pub mod Relays
pub mod Build
use mathlib.Core.Option
use stelliberty_m.Base.{
  ◌≡◌, refl, String, Bool, true, false, not, ◌&&◌, List, [], ◌∷◌, ◌++◌, map, Option, none, some,
  Result, ok, err, ◌>>=◌, map_err, ltb, ◌==◌, if◌then◌else◌, is_empty, any, all, filter, filter_map,
  length, and_then,
}
use stelliberty_m.Yaml.{
  Value, string, sequence, mapping, Items, Mapping, Yaml, new, to_list, from_list, as_str,
  as_sequence, as_mapping, as_mapping_mut,
}

pub record ChainProxyCustomConfig : Type 0 where
  pub display_name : String
  pub node_names : List String

pub record BuildChainProxyConfigRequest : Type 0 where
  pub request_id : String
  pub raw_config : String
  pub fallback_builtin_chain_proxy_names : List String
  pub disabled_builtin_chain_proxy_names : List String
  pub custom_chain_proxies : List ChainProxyCustomConfig

pub record BuildChainProxyConfigResponse : Type 0 where
  pub request_id : String
  pub is_successful : Bool
  pub config_content : String
  pub builtin_chain_proxy_names : List String
  pub error_message : String

pub record ChainProxyRuntimeConfig : Type 0 where
  pub config_content : String
  pub builtin_chain_proxy_names : List String

-- The early return on an empty text.
abbrev pub non_empty : Option String → Option String
non_empty none = none
non_empty (some s) = if is_empty s then none else some s

abbrev pub strings : List String → Value
strings names = sequence (from_list (map string names))

abbrev pub mappings : List Mapping → Value
mappings ms = sequence (from_list (map mapping ms))

module _ (y : Yaml) where
  unfoldable pub string_field : Mapping → String → Option String
  string_field m key = and_then (y.get key m) (as_str y)

  mappings_of : Option Items → List Mapping
  mappings_of none = []
  mappings_of (some items) = filter_map (as_mapping y) (to_list items)

  unfoldable pub extract_mapping_sequence : Mapping → String → List Mapping
  unfolding mappings_of
  extract_mapping_sequence root key = mappings_of (and_then (y.get key root) (as_sequence y))

  -- The name of a proxy with a `dialer-proxy`; neither text is empty.
  unfoldable pub chain_name : Mapping → Option String
  unfolding string_field
  chain_name proxy =
      and_then (non_empty (string_field proxy "dialer-proxy"))
        (λ _. non_empty (string_field proxy "name"))

  unfoldable pub collect_builtin_chain_proxy_names : List Mapping → List String
  unfolding chain_name
  collect_builtin_chain_proxy_names proxies = filter_map chain_name proxies

  keep_named : List String → List String → Option String → Bool
  keep_named builtin disabled none = true
  keep_named builtin disabled (some name) =
      if any (λ b. b == name) builtin then not (any (λ d. d == name) disabled) else true

  unfoldable pub filter_proxies : List Mapping → List String → List String → List Mapping
  unfolding string_field keep_named
  filter_proxies proxies builtin disabled =
      filter (λ proxy. keep_named builtin disabled (non_empty (string_field proxy "name"))) proxies

  keep_group : List ChainProxyCustomConfig → Option String → Bool
  keep_group custom none = true
  keep_group custom (some name) = not (any (λ c. c.display_name == name) custom)

  unfoldable pub filter_proxy_groups : List Mapping → List ChainProxyCustomConfig → List Mapping
  unfolding string_field keep_group
  filter_proxy_groups groups custom =
      filter (λ group. keep_group custom (non_empty (string_field group "name"))) groups

  is_named : String → Option String → Bool
  is_named name none = false
  is_named name (some s) = s == name

  unfoldable pub has_proxy_named : List Mapping → String → Bool
  unfolding string_field is_named
  has_proxy_named proxies name = any (λ proxy. is_named name (string_field proxy "name")) proxies

  unfoldable pub relay_group : ChainProxyCustomConfig → Mapping
  relay_group custom =
      y.insert "proxies" (strings custom.node_names)
        (y.insert "type" (string "relay") (y.insert "name" (string custom.display_name) new))

  -- A chain of fewer than two nodes, or with a node that no proxy has for its name, gives no group.
  unfoldable pub build_runtime_relay_group : List Mapping → ChainProxyCustomConfig → Option Mapping
  unfolding relay_group has_proxy_named
  build_runtime_relay_group proxies custom =
      if ltb (length custom.node_names) 2
      then none
      else (if all (λ name. has_proxy_named proxies name) custom.node_names
          then some (relay_group custom)
          else none)

  -- The two entries that the root gets.
  unfoldable pub new_proxies : Mapping → List String → List Mapping
  unfolding extract_mapping_sequence collect_builtin_chain_proxy_names filter_proxies
  new_proxies root disabled =
      let proxies = extract_mapping_sequence root "proxies" in
      filter_proxies proxies (collect_builtin_chain_proxy_names proxies) disabled

  unfoldable pub new_proxy_groups : Mapping → List ChainProxyCustomConfig → List Mapping
  unfolding extract_mapping_sequence filter_proxy_groups build_runtime_relay_group
  new_proxy_groups root custom =
      filter_proxy_groups (extract_mapping_sequence root "proxy-groups") custom
      ++ filter_map (build_runtime_relay_group (extract_mapping_sequence root "proxies")) custom

  unfoldable pub chain_root : Mapping → BuildChainProxyConfigRequest → Mapping
  unfolding new_proxies new_proxy_groups
  chain_root root request =
      y.insert "proxy-groups" (mappings (new_proxy_groups root request.custom_chain_proxies)) (
        y.insert "proxies" (mappings (new_proxies root request.disabled_builtin_chain_proxy_names))
          root)

  -- A configuration whose root is no mapping is passed on as it is.
  build_at :
      BuildChainProxyConfigRequest
      → Option (Mapping × (Mapping → Value))
      → Result ChainProxyRuntimeConfig
  build_at request none = ok (record {
    config_content = request.raw_config;
    builtin_chain_proxy_names = request.fallback_builtin_chain_proxy_names;
  })
  build_at request (some (root, rebuild)) = do
    config_content ← map_err "序列化链式基础配置失败：" (y.to_string (rebuild (chain_root root request)))
    ok (record {
      config_content = config_content;
      builtin_chain_proxy_names =
          collect_builtin_chain_proxy_names (extract_mapping_sequence root "proxies");
    })

  unfoldable pub build_chain_proxy_config :
      BuildChainProxyConfigRequest → Result ChainProxyRuntimeConfig
  unfolding build_at chain_root collect_builtin_chain_proxy_names extract_mapping_sequence
  build_chain_proxy_config request = do
    config ← map_err "解析链式基础配置失败：" (y.from_str request.raw_config)
    build_at request (as_mapping_mut y config)

  respond : String → Result ChainProxyRuntimeConfig → BuildChainProxyConfigResponse
  respond id (ok result) = record {
    request_id = id;
    is_successful = true;
    config_content = result.config_content;
    builtin_chain_proxy_names = result.builtin_chain_proxy_names;
    error_message = "";
  }
  respond id (err e) = record {
    request_id = id;
    is_successful = false;
    config_content = "";
    builtin_chain_proxy_names = [];
    error_message = e;
  }

  -- `BuildChainProxyConfigRequest::handle`.
  unfoldable pub handle : BuildChainProxyConfigRequest → BuildChainProxyConfigResponse
  unfolding respond build_chain_proxy_config
  handle request = respond request.request_id (build_chain_proxy_config request)
