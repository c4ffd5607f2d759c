-- ===== src/Config/ChainProxy/Filters.antt =====
-- chain_proxy.rs: which proxies and which proxy groups stay.
use stelliberty_m.Base.{
  ◌≡◌, refl, sym, ap, ◌↔◌, String, true, List, Option, none, some, arith, Memᴰ, any, mem-filter,
  filter-mem, any-mem, any-of_mem, any-eq_iff, Bool-cases, inl, inr, ◌==◌, eq_iff, mem-filter_map,
  filter_map-mem, and_then-eq-some,
}
use stelliberty_m.Yaml.{Mapping, Yaml}
use stelliberty_m.Config.ChainProxy.{
  ChainProxyCustomConfig, non_empty, string_field, chain_name, collect_builtin_chain_proxy_names,
  keep_named, filter_proxies, keep_group, filter_proxy_groups, extract_mapping_sequence,
  new_proxies,
}

module _ (y : Yaml) where
  -- The proxy has a name that is not empty, this one.
  abbrev pub IsNamed : Mapping → String → Type 0
  IsNamed proxy name = non_empty (string_field y proxy "name") ≡ some name

  keep_named_iff :
      (builtin disabled : List String) (o : Option String)
      → (keep_named y builtin disabled o ≡ true)
        ↔ (¬ ((name : String) × (o ≡ some name) × Memᴰ name builtin × Memᴰ name disabled))
  unfolding keep_named
  keep_named_iff builtin disabled none = (λ h (name, e, b, d). cc, λ h. refl)
  keep_named_iff builtin disabled (some s) = (
    λ h (name, e, b, d).
        ground (arith, (any-eq_iff name builtin).1 b, (any-eq_iff name disabled).1 d),
    λ h. elim (Bool-cases (any (λ b. b == s) builtin)) [
      | inl b ↦ elim (Bool-cases (any (λ d. d == s) disabled)) [
        | inl d ↦ absurd (h (s, refl, (any-eq_iff s builtin).0 b, (any-eq_iff s disabled).0 d))
        | inr d ↦ rw (b, d)
      ]
      | inr b ↦ rw b
    ],
  )

  -- A proxy stays exactly when it is not a built-in chain proxy that is disabled by its name.
  pub filter_proxies_iff :
      (proxies : List Mapping) (builtin disabled : List String) (proxy : Mapping)
      → Memᴰ proxy (filter_proxies y proxies builtin disabled) ↔ (
          Memᴰ proxy proxies
          × (¬ ((name : String) × IsNamed proxy name × Memᴰ name builtin × Memᴰ name disabled)))
  unfolding filter_proxies
  filter_proxies_iff proxies builtin disabled proxy = (
    λ m. let (i, h) = mem-filter _ proxies proxy m in (i, (keep_named_iff builtin disabled _).0 h),
    λ (i, h). filter-mem _ proxies proxy i ((keep_named_iff builtin disabled _).1 h),
  )

  -- The built-in names are the names of the proxies that dial through another proxy.
  pub collect_builtin_chain_proxy_names_iff :
      (proxies : List Mapping) (name : String)
      → Memᴰ name (collect_builtin_chain_proxy_names y proxies) ↔ (
          (proxy : Mapping) × Memᴰ proxy proxies
          × IsNamed proxy name
          × ((dialer : String) × (non_empty (string_field y proxy "dialer-proxy") ≡ some dialer)))
  unfolding collect_builtin_chain_proxy_names chain_name
  collect_builtin_chain_proxy_names_iff proxies name = (
    λ m.
        let (p, i, e) = mem-filter_map _ proxies name m in
        let (dialer, f, named) =
          and_then-eq-some (non_empty (string_field y p "dialer-proxy")) _ e in
        (p, i, named, (dialer, f)),
    λ (p, i, e, (d, f)). filter_map-mem _ proxies p name i (rw f e),
  )

  keep_group_iff :
      (custom : List ChainProxyCustomConfig) (o : Option String)
      → (keep_group y custom o ≡ true)
        ↔ (¬ ((c : ChainProxyCustomConfig) × Memᴰ c custom × (o ≡ some c.display_name)))
  unfolding keep_group
  keep_group_iff custom none = (λ h (c, m, e). cc, λ h. refl)
  keep_group_iff custom (some s) = (
    λ h (c, m, e).
        let shown : (c.display_name == s) ≡ true = (eq_iff _ _).1 (cc e) in
        let found = any-of_mem (λ c. c.display_name == s) custom c m shown in ground arith,
    λ h. elim (Bool-cases (any (λ c. c.display_name == s) custom)) [
      | inl found ↦
          let (c, m, shown) = any-mem (λ c. c.display_name == s) custom found in
          absurd (h (c, m, ap some (sym ((eq_iff _ _).0 shown))))
      | inr e ↦ rw e
    ],
  )

  -- A group stays exactly when its name is not that of a chain of the user.
  pub filter_proxy_groups_iff :
      (groups : List Mapping) (custom : List ChainProxyCustomConfig) (group : Mapping)
      → Memᴰ group (filter_proxy_groups y groups custom) ↔ (
          Memᴰ group groups
          × (¬ ((c : ChainProxyCustomConfig) × Memᴰ c custom × IsNamed group c.display_name)))
  unfolding filter_proxy_groups
  filter_proxy_groups_iff groups custom group = (
    λ m. let (i, h) = mem-filter _ groups group m in (i, (keep_group_iff custom _).0 h),
    λ (i, h). filter-mem _ groups group i ((keep_group_iff custom _).1 h),
  )

  -- The proxies of the new configuration are those of the old one without each proxy whose name the
  -- user disabled and some proxy with a dialer has.
  pub new_proxies_iff :
      (root : Mapping) (disabled : List String) (proxy : Mapping)
      → Memᴰ proxy (new_proxies y root disabled) ↔ (
          Memᴰ proxy (extract_mapping_sequence y root "proxies")
          × (¬ (
              (name : String) × IsNamed proxy name
              × Memᴰ name disabled
              × ((chain : Mapping) × Memᴰ chain (extract_mapping_sequence y root "proxies")
                  × (chain_name y chain ≡ some name)))))
  unfolding new_proxies collect_builtin_chain_proxy_names
  new_proxies_iff root disabled proxy =
      let proxies = extract_mapping_sequence y root "proxies" in
      let names = collect_builtin_chain_proxy_names y proxies in
      let (keep, back) = filter_proxies_iff proxies names disabled proxy in
      (
        λ m.
            let (i, h) = keep m in
            (
              i,
              λ (name, e, d, (chain, c, f)).
                  h (name, e, filter_map-mem _ proxies chain name c f, d),
            ),
        λ (i, h). back (
          i,
          λ (name, e, b, d).
              let (chain, c, f) = mem-filter_map _ proxies name b in h (name, e, d, (chain, c, f)),
        ),
      )
