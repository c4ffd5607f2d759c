-- ===== src/Config/ChainProxy/Relays.antt =====
-- chain_proxy.rs: the relay groups that the user's chains add.
use stelliberty_m.Base.{
  ◌≤◌, ◌≡◌, ap, ◌↔◌, ◌⊎◌, inl, inr, String, true, List, Option, none, some, arith, Memᴰ, all,
  any-mem, any-of_mem, all-mem, all-of_mem, length, eq_iff, eq_refl, mem-filter_map, filter_map-mem,
}
use mathlib.Core.List.Memᴰ.{append_left, append_right, append_cases}
use stelliberty_m.Yaml.{string, Mapping, Yaml, Laws}
use stelliberty_m.Config.ChainProxy.{
  ChainProxyCustomConfig, string_field, is_named, has_proxy_named, relay_group, filter_proxy_groups,
  build_runtime_relay_group, extract_mapping_sequence, new_proxy_groups, strings,
}
use stelliberty_m.Config.ChainProxy.Filters.{IsNamed, filter_proxy_groups_iff}

module _ (y : Yaml) where
  has_proxy_named_iff :
      (proxies : List Mapping) (name : String)
      → (has_proxy_named y proxies name ≡ true)
        ↔ ((proxy : Mapping) × Memᴰ proxy proxies × (string_field y proxy "name" ≡ some name))
  unfolding has_proxy_named is_named
  has_proxy_named_iff proxies name = (
    λ h. let (p, m, e) = any-mem _ proxies h in (p, m, is_named-eq _ e),
    λ (p, m, e). any-of_mem _ proxies p m (rw (e, is_named) (eq_refl name)),
  )
    where
      is_named-eq : (o : Option String) → is_named y name o ≡ true → o ≡ some name
      is_named-eq none h = cc
      is_named-eq (some s) h = ap some ((eq_iff s name).0 h)

  -- A chain that can be built: two nodes at least, and a proxy for each node's name.
  pub record IsChain (proxies : List Mapping) (custom : ChainProxyCustomConfig) : Type 0 where
    pub long : 2 ≤ length custom.node_names
    pub known :
        (name : String)
        → Memᴰ name custom.node_names
        → (proxy : Mapping) × Memᴰ proxy proxies × (string_field y proxy "name" ≡ some name)

  all_known :
      (proxies : List Mapping) (names : List String)
      → ((name : String)
          → Memᴰ name names
          → (proxy : Mapping) × Memᴰ proxy proxies × (string_field y proxy "name" ≡ some name))
      → all (λ name. has_proxy_named y proxies name) names ≡ true
  all_known proxies names known =
      all-of_mem _ names λ name m. (has_proxy_named_iff proxies name).1 (known name m)

  -- A chain gives a group exactly when it can be built, and that group is its relay.
  pub build_runtime_relay_group_iff :
      (proxies : List Mapping) (custom : ChainProxyCustomConfig) (group : Mapping)
      → (build_runtime_relay_group y proxies custom ≡ some group)
        ↔ (IsChain proxies custom × (relay_group y custom ≡ group))
  unfolding build_runtime_relay_group
  build_runtime_relay_group_iff proxies custom group = (
    λ h.
        let whole : all (λ name. has_proxy_named y proxies name) custom.node_names ≡ true =
          ground arith in
        (
          record {
            long = ground arith;
            known = λ name m. (has_proxy_named_iff proxies name).0 (all-mem _ _ name whole m);
          },
          ground arith,
        ),
    λ (c, e).
        let whole = all_known proxies custom.node_names c.known in let n = c.long in ground arith,
  )

  -- A group of the new configuration is an old one whose name no chain has, or the relay of a chain
  -- that can be built; and all of these are there.
  pub new_proxy_groups_iff :
      (root : Mapping) (custom : List ChainProxyCustomConfig) (group : Mapping)
      → Memᴰ group (new_proxy_groups y root custom) ↔ (
          (Memᴰ group (extract_mapping_sequence y root "proxy-groups")
            × (¬ ((c : ChainProxyCustomConfig) × Memᴰ c custom × IsNamed y group c.display_name)))
          ⊎ ((c : ChainProxyCustomConfig) × Memᴰ c custom
              × IsChain (extract_mapping_sequence y root "proxies") c
              × (relay_group y c ≡ group)))
  unfolding new_proxy_groups
  new_proxy_groups_iff root custom group =
      let groups = extract_mapping_sequence y root "proxy-groups" in
      let proxies = extract_mapping_sequence y root "proxies" in
      let old = filter_proxy_groups_iff y groups custom group in
      (
        λ m. elim (append_cases (filter_proxy_groups y groups custom) m) [
          | inl a ↦ inl (old.0 a)
          | inr b ↦
              let (c, i, e) = mem-filter_map _ custom group b in
              let (chain, same) = (build_runtime_relay_group_iff proxies c group).0 e in
              inr (c, i, chain, same)
        ],
        elim [
          | inl a ↦ append_left _ (old.1 a)
          | inr (c, i, chain, same) ↦ append_right _ (
              filter_map-mem _ custom c group i
                ((build_runtime_relay_group_iff proxies c group).1 (chain, same)))
        ],
      )

  -- What the relay of a chain says.
  pub relay_group_fields :
      Laws y
      → (custom : ChainProxyCustomConfig)
      → (y.get "name" (relay_group y custom) ≡ some (string custom.display_name))
        × (y.get "type" (relay_group y custom) ≡ some (string "relay"))
        × (y.get "proxies" (relay_group y custom) ≡ some (strings custom.node_names))
  unfolding relay_group
  relay_group_fields laws custom =
      (simp (laws.get-insert), simp (laws.get-insert), simp (laws.get-insert))
