-- ===== src/Config/Dns/Laws.antt =====
-- injector.rs, `inject_dns_config`: the section that the TUN mode gets.
use mathlib.Core.Path.{subst}
use stelliberty_m.Base.{
  ◌≡◌, refl, sym, ◌⊎◌, ◌∙◌, ◌↔◌, ◌≢◌, String, Bool, true, false, List, [], ◌∷◌, Option, none, some,
  arith, ◌==◌, eq_iff, eq_refl, map, if◌then◌else◌, Bool-cases, Option-cases, inl, inr, and_then,
  unwrap_or, any,
}
use stelliberty_m.Yaml.{
  Value, bool, string, mapping, Items, nil, cons, Mapping, Yaml, Laws, as_str, as_sequence,
  from_list,
}
use stelliberty_m.Config.Params.{RuntimeConfigParams, texts}
use stelliberty_m.Config.Dns.{
  nameservers, default_nameservers, is_other, existing_dns, has_other_mode, put_missing,
  put_servers, fill_dns, inject_dns_config,
}

module _ (y : Yaml) where
  is_other_text :
      (v : Value) (o : Option String)
      → as_str y v ≡ o
      → (is_other y (some v) ≡ true) ↔ ((mode : String) × (o ≡ some mode) × (mode ≢ "fake-ip"))
  unfolding is_other
  is_other_text v none e = rw e (λ h. cc, λ (mode, f, n). cc)
  is_other_text v (some s) e = rw e (
    λ h. (s, refl, λ same. ground (arith, (eq_iff s "fake-ip").1 same)),
    λ (mode, f, n). ground (arith, eq_iff s "fake-ip"),
  )

  is_other_iff :
      (o : Option Value)
      → (is_other y o ≡ true)
        ↔ ((mode : String) × (and_then o (as_str y) ≡ some mode) × (mode ≢ "fake-ip"))
  unfolding is_other
  is_other_iff none = (λ h. cc, λ (mode, f, n). cc)
  is_other_iff (some v) = is_other_text v (as_str y v) refl

  -- The section asks for a mode other than fake-ip.
  pub has_other_mode_iff :
      (dns : Mapping)
      → (has_other_mode y dns ≡ true) ↔ (
          (mode : String) × (and_then (y.get "enhanced-mode" dns) (as_str y) ≡ some mode)
          × (mode ≢ "fake-ip"))
  unfolding has_other_mode
  has_other_mode_iff dns = is_other_iff (y.get "enhanced-mode" dns)

  -- A sequence that is not empty.
  abbrev pub IsFilled : Option Value → Type 0
  IsFilled o =
      (v : Value) × (first : Value) × (rest : Items) × (o ≡ some v)
      × (as_sequence y v ≡ some (cons first rest))

-- The keys that `fill_dns` may write.
abbrev pub dns_keys : List String
dns_keys =
    "enable" ∷ "ipv6" ∷ "enhanced-mode" ∷ "fake-ip-range" ∷ "nameserver" ∷ "default-nameserver" ∷ []

-- The section `dns'` that is made of `dns`.
pub record FilledDns (y : Yaml) (ipv6 : Bool) (dns dns' : Mapping) : Type 0 where
  pub enable : y.get "enable" dns' ≡ some (bool true)
  pub ipv6_set : y.get "ipv6" dns' ≡ some (bool ipv6)
  pub mode :
      y.get "enhanced-mode" dns' ≡ some (unwrap_or (y.get "enhanced-mode" dns) (string "fake-ip"))
  pub range :
      y.get "fake-ip-range" dns'
      ≡ some (unwrap_or (y.get "fake-ip-range" dns) (string "198.18.0.1/16"))
  pub servers : IsFilled y (y.get "nameserver" dns')
  pub default_servers : IsFilled y (y.get "default-nameserver" dns')
  pub others : (j : String) → any (λ k. k == j) dns_keys ≡ false → y.get j dns' ≡ y.get j dns

module _ (y : Yaml) (laws : Laws y) where
  put_missing-lookup :
      (k j : String) (v : Value) (m : Mapping)
      → y.get j (put_missing y k v m)
        ≡ (if k == j then some (unwrap_or (y.get j m) v) else y.get j m)
  unfolding put_missing
  put_missing-lookup k j v m = ground (arith, laws.get-insert k j v m, eq_iff k j)

  put_servers-frame :
      (k j : String) (v : Value) (m : Mapping)
      → (k == j) ≡ false
      → y.get j (put_servers y k v m) ≡ y.get j m
  unfolding put_servers
  put_servers-frame k j v m h = ground (arith, laws.get-insert k j v m)

  written :
      (k a : String) (rest : List String) (m : Mapping)
      → IsFilled y (y.get k (y.insert k (texts (a ∷ rest)) m))
  written k a rest m =
      rw (laws.get-insert, eq_refl k)
        (texts (a ∷ rest), string a, from_list (map string rest), refl, refl)

  put_servers-IsFilled :
      (k a : String) (rest : List String) (m : Mapping)
      → IsFilled y (y.get k (put_servers y k (texts (a ∷ rest)) m))
  unfolding put_servers
  put_servers-IsFilled k a rest m = elim (Option-cases (y.get k m)) [
    | inl e ↦ rw e (written k a rest m)
    | inr (v, e) ↦ elim (Option-cases (as_sequence y v)) [
      | inl s ↦ rw (e, s) (written k a rest m)
      | inr (nil, s) ↦ rw (e, s) (written k a rest m)
      | inr (cons b bs, s) ↦ rw (e, s) (rw e (v, b, bs, refl, s))
    ]
  ]

  -- Behind the modes, the server lists leave other keys alone.
  servers-frame :
      (j : String) (m : Mapping)
      → ("nameserver" == j) ≡ false
      → ("default-nameserver" == j) ≡ false
      → y.get j (
          put_servers y "default-nameserver" default_nameservers
            (put_servers y "nameserver" nameservers m))
        ≡ y.get j m
  servers-frame j m h k =
      put_servers-frame "default-nameserver" j _ _ k ∙ put_servers-frame "nameserver" j _ _ h

  fill_dns-others :
      (ipv6 : Bool) (dns : Mapping) (j : String)
      → any (λ k. k == j) dns_keys ≡ false
      → y.get j (fill_dns y ipv6 dns) ≡ y.get j dns
  unfolding fill_dns
  fill_dns-others ipv6 dns j h =
      servers-frame j _ (ground arith) (ground arith)
      ∙ simp (put_missing-lookup, laws.get-insert) (ground arith)

  -- The filled section: the enabling keys are set, a mode, a range and servers are there, and what
  -- else the section held stays.
  pub fill_dns-FilledDns :
      (ipv6 : Bool) (dns : Mapping) → FilledDns y ipv6 dns (fill_dns y ipv6 dns)
  unfolding fill_dns
  fill_dns-FilledDns ipv6 dns = record {
    enable = servers-frame _ _ refl refl ∙ simp (put_missing-lookup, laws.get-insert);
    ipv6_set = servers-frame _ _ refl refl ∙ simp (put_missing-lookup, laws.get-insert);
    mode = servers-frame _ _ refl refl ∙ simp (put_missing-lookup, laws.get-insert);
    range = servers-frame _ _ refl refl ∙ simp (put_missing-lookup, laws.get-insert);
    servers =
        subst (IsFilled y)
          (sym (put_servers-frame "default-nameserver" "nameserver" default_nameservers _ refl))
          (put_servers-IsFilled "nameserver" "8.8.8.8"
            ("https://doh.pub/dns-query" ∷ "https://dns.alidns.com/dns-query" ∷ []) _);
    default_servers =
        put_servers-IsFilled "default-nameserver" "system" ("223.6.6.6" ∷ "8.8.8.8" ∷ []) _;
    others = λ j h. fill_dns-others ipv6 dns j h;
  }

  -- A section with a mode other than fake-ip is left as it is; any other is filled, and the root's
  -- other keys stay.
  pub inject_dns_config_lem :
      (p : RuntimeConfigParams) (root : Mapping)
      → ((mode : String) × (and_then (y.get "enhanced-mode" (existing_dns y root)) (as_str y)
            ≡ some mode)
          × (mode ≢ "fake-ip")
          × (inject_dns_config y p root ≡ root))
        ⊎ ((dns' : Mapping) × (y.get "dns" (inject_dns_config y p root) ≡ some (mapping dns'))
            × FilledDns y p.is_ipv6_enabled (existing_dns y root) dns'
            × ((j : String) → "dns" ≢ j → y.get j (inject_dns_config y p root) ≡ y.get j root))
  unfolding inject_dns_config
  inject_dns_config_lem p root = elim (Bool-cases (has_other_mode y (existing_dns y root))) [
    | inl other ↦ let (mode, e, n) = (has_other_mode_iff y _).0 other in inl (mode, e, n, rw other)
    | inr fill ↦ inr (
      fill_dns y p.is_ipv6_enabled (existing_dns y root),
      rw fill (simp (laws.get-insert)),
      fill_dns-FilledDns p.is_ipv6_enabled (existing_dns y root),
      λ j ne. rw fill (laws.get-insert _ _ _ _ ∙ ground (arith, eq_iff "dns" j)),
    )
  ]
