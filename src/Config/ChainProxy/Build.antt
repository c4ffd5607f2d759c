-- ===== src/Config/ChainProxy/Build.antt =====
-- chain_proxy.rs: the new root, the result of a build, and what a relay can refer to.
use stelliberty_m.Base.{
  ◌≡◌, refl, ◌∙◌, ◌↔◌, ◌⊎◌, inr, String, false, List, Option, none, some, Memᴰ, ok, map_err,
  >>=-eq-ok, ok-injective, ◌==◌, if◌then◌else◌, is_empty, map_err-eq-ok,
}
use stelliberty_m.Yaml.{Value, Mapping, Yaml, Laws, as_mapping_mut}
use stelliberty_m.Config.ChainProxy.{
  ChainProxyCustomConfig, BuildChainProxyConfigRequest, ChainProxyRuntimeConfig, string_field,
  chain_name, relay_group, collect_builtin_chain_proxy_names, extract_mapping_sequence, new_proxies,
  new_proxy_groups, mappings, chain_root, build_at, build_chain_proxy_config, non_empty,
}
use stelliberty_m.Config.ChainProxy.Filters.{
  IsNamed, new_proxies_iff, filter_proxies_iff, collect_builtin_chain_proxy_names_iff,
}
use stelliberty_m.Config.ChainProxy.Relays.{IsChain, new_proxy_groups_iff}

module _ (y : Yaml) (laws : Laws y) (root : Mapping) (request : BuildChainProxyConfigRequest) where
  -- The new root has the two new lists, and every other key as it was.
  pub chain_root-lookup :
      (j : String)
      → y.get j (chain_root y root request) ≡ (
          if "proxy-groups" == j
          then some (mappings (new_proxy_groups y root request.custom_chain_proxies))
          else (if "proxies" == j
              then some (mappings (new_proxies y root request.disabled_builtin_chain_proxy_names))
              else y.get j root))
  unfolding chain_root
  chain_root-lookup j = simp (laws.get-insert)

module _ (y : Yaml) where
  -- A name, not empty, of a proxy that dials through another one.
  abbrev pub IsBuiltin : List Mapping → String → Type 0
  IsBuiltin proxies name =
      (proxy : Mapping) × Memᴰ proxy proxies
      × IsNamed y proxy name
      × ((dialer : String) × (non_empty (string_field y proxy "dialer-proxy") ≡ some dialer))

  -- The root `final` that a request makes of the root `root`.
  pub record NewRoot (request : BuildChainProxyConfigRequest) (root final : Mapping) : Type 0 where
    pub proxies : List Mapping
    pub proxies_at : y.get "proxies" final ≡ some (mappings proxies)
    pub proxies_are :
        (proxy : Mapping)
        → Memᴰ proxy proxies ↔ (
            Memᴰ proxy (extract_mapping_sequence y root "proxies")
            × (¬ (
                (name : String) × IsNamed y proxy name
                × IsBuiltin (extract_mapping_sequence y root "proxies") name
                × Memᴰ name request.disabled_builtin_chain_proxy_names)))
    pub groups : List Mapping
    pub groups_at : y.get "proxy-groups" final ≡ some (mappings groups)
    pub groups_are :
        (group : Mapping)
        → Memᴰ group groups ↔ (
            (Memᴰ group (extract_mapping_sequence y root "proxy-groups")
              × (¬ (
                  (c : ChainProxyCustomConfig) × Memᴰ c request.custom_chain_proxies
                  × IsNamed y group c.display_name)))
            ⊎ ((c : ChainProxyCustomConfig) × Memᴰ c request.custom_chain_proxies
                × IsChain y (extract_mapping_sequence y root "proxies") c
                × (relay_group y c ≡ group)))
    pub others :
        (j : String)
        → ("proxy-groups" == j) ≡ false
        → ("proxies" == j) ≡ false
        → y.get j final ≡ y.get j root

  -- What a build returns: the raw text and the fallback names where the root is no mapping, else the
  -- printed new root and the names of the chain proxies of the old one.
  abbrev pub Built :
      BuildChainProxyConfigRequest
      → Option (Mapping × (Mapping → Value))
      → ChainProxyRuntimeConfig
      → Type 0
  Built request none r =
      (r.config_content ≡ request.raw_config)
      × (r.builtin_chain_proxy_names ≡ request.fallback_builtin_chain_proxy_names)
  Built request (some (root, rebuild)) r =
      (final : Mapping) × NewRoot request root final
      × (y.to_string (rebuild final) ≡ ok r.config_content)
      × ((name : String)
          → Memᴰ name r.builtin_chain_proxy_names
            ↔ IsBuiltin (extract_mapping_sequence y root "proxies") name)

module _ (y : Yaml) (laws : Laws y) (request : BuildChainProxyConfigRequest) where
  new_proxies-IsBuiltin :
      (root : Mapping) (proxy : Mapping)
      → Memᴰ proxy (new_proxies y root request.disabled_builtin_chain_proxy_names) ↔ (
          Memᴰ proxy (extract_mapping_sequence y root "proxies")
          × (¬ (
              (name : String) × IsNamed y proxy name
              × IsBuiltin y (extract_mapping_sequence y root "proxies") name
              × Memᴰ name request.disabled_builtin_chain_proxy_names)))
  unfolding new_proxies
  new_proxies-IsBuiltin root proxy =
      let proxies = extract_mapping_sequence y root "proxies" in
      let builtin = collect_builtin_chain_proxy_names y proxies in
      let (there, back) =
        filter_proxies_iff y proxies builtin request.disabled_builtin_chain_proxy_names proxy in
      (
        λ m.
            let (i, differs) = there m in
            (
              i,
              λ (name, e, b, d).
                  differs (name, e, (collect_builtin_chain_proxy_names_iff y proxies name).1 b, d),
            ),
        λ (i, differs). back (
          i,
          λ (name, e, b, d).
              differs (name, e, (collect_builtin_chain_proxy_names_iff y proxies name).0 b, d),
        ),
      )

  chain_root-NewRoot : (root : Mapping) → NewRoot y request root (chain_root y root request)
  chain_root-NewRoot root = record {
    proxies = new_proxies y root request.disabled_builtin_chain_proxy_names;
    proxies_at = chain_root-lookup y laws root request "proxies";
    proxies_are = λ proxy. new_proxies-IsBuiltin root proxy;
    groups = new_proxy_groups y root request.custom_chain_proxies;
    groups_at = chain_root-lookup y laws root request "proxy-groups";
    groups_are = λ group. new_proxy_groups_iff y root request.custom_chain_proxies group;
    others = λ j g q. chain_root-lookup y laws root request j ∙ rw (g, q) refl;
  }

  build_at-Built :
      (at : Option (Mapping × (Mapping → Value))) (r : ChainProxyRuntimeConfig)
      → build_at y request at ≡ ok r
      → Built y request at r
  unfolding build_at
  build_at-Built none r h = let e = ok-injective h in (rw (← e), rw (← e))
  build_at-Built (some (root, rebuild)) r h =
      let (text, printed, last) =
        >>=-eq-ok (map_err _ (y.to_string (rebuild (chain_root y root request)))) _ h in
      let e = ok-injective last in
      let proxies = extract_mapping_sequence y root "proxies" in
      (
        chain_root y root request,
        chain_root-NewRoot root,
        rw (← e) (map_err-eq-ok _ _ printed),
        λ name. rw (← e) (collect_builtin_chain_proxy_names_iff y proxies name),
      )

  -- A build that succeeds parsed its text. Where the root is no mapping it returns the raw text and the
  -- fallback names. Else it returns the printed new root, in which the proxies are the old ones but for
  -- each that has the name of a chain proxy which the request disables, the groups are the old ones that
  -- no chain of the request is named as, and the relays of the chains that can be built, and all other
  -- keys are as they were; and the names of the old root's chain proxies.
  pub build_chain_proxy_config-Built :
      (r : ChainProxyRuntimeConfig)
      → build_chain_proxy_config y request ≡ ok r
      → (config : Value) × (y.from_str request.raw_config ≡ ok config)
        × Built y request (as_mapping_mut y config) r
  unfolding build_chain_proxy_config
  build_chain_proxy_config-Built r h =
      let (config, read, last) = >>=-eq-ok (map_err _ (y.from_str request.raw_config)) _ h in
      (config, map_err-eq-ok _ _ read, build_at-Built (as_mapping_mut y config) r last)

-- Where a chain of the user can be built over the old proxies, and one of its nodes has a name that
-- is not empty, is disabled and is that of a proxy with a dialer: the chain's relay is among the new
-- groups, and no new proxy has that name.
pub relay_of_removed_proxy :
    (y : Yaml) (root : Mapping) (custom : List ChainProxyCustomConfig) (disabled : List String)
    (c : ChainProxyCustomConfig) (name : String) (chain : Mapping)
    → Memᴰ c custom
    → IsChain y (extract_mapping_sequence y root "proxies") c
    → Memᴰ name c.node_names
    → is_empty name ≡ false
    → Memᴰ name disabled
    → Memᴰ chain (extract_mapping_sequence y root "proxies")
    → chain_name y chain ≡ some name
    → Memᴰ (relay_group y c) (new_proxy_groups y root custom)
      × (¬ (
          (proxy : Mapping) × Memᴰ proxy (new_proxies y root disabled)
          × (string_field y proxy "name" ≡ some name)))
relay_of_removed_proxy y root custom disabled c name chain i built n full d j f = (
  (new_proxy_groups_iff y root custom (relay_group y c)).1 (inr (c, i, built, refl)),
  λ (proxy, m, e).
      ((new_proxies_iff y root disabled proxy).0 m).1
        (name, rw (e, non_empty, full), d, (chain, j, f)),
)
