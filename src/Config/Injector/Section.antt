-- ===== src/Config/Injector/Section.antt =====
-- injector.rs: what the parameters make of the `dns` and `hosts` sections.
use stelliberty_m.Base.{
  ◌≡◌, refl, sym, ◌⊎◌, ◌∙◌, ◌≢◌, String, Bool, true, false, Option, none, some, ok, Bool-cases, inl,
  inr, ok-injective, and_then, unwrap_or,
}
use stelliberty_m.Yaml.{Value, mapping, Mapping, Yaml, Laws, new, as_str, as_mapping}
use stelliberty_m.Config.Params.{RuntimeConfigParams}
use stelliberty_m.Config.Dns.{existing_dns, user_dns, inject_dns_config}
use stelliberty_m.Config.Dns.User.{or_else, Overridden, inject_user_dns_override-Overridden}
use stelliberty_m.Config.Dns.Laws.{FilledDns, inject_dns_config_lem}
use stelliberty_m.Config.Injector.{inject_dns}

module _ (y : Yaml) where
  -- Both sections are as they were.
  abbrev pub SameSections : (dns hosts : Option Value) → Mapping → Type 0
  SameSections dns hosts m' = (y.get "dns" m' ≡ dns) × (y.get "hosts" m' ≡ hosts)

  -- The user's override: no content, or an empty one, changes nothing; else the two sections of the
  -- content take the place of those that are there.
  abbrev pub UserSections : Option String → (dns hosts : Option Value) → Mapping → Type 0
  UserSections content dns hosts m' =
      (((content ≡ none) ⊎ (content ≡ some "")) × SameSections dns hosts m')
      ⊎ ((text : String) × (config : Value) × (user : Mapping) × (content ≡ some text)
          × (y.from_str text ≡ ok config)
          × (as_mapping y config ≡ some user)
          × (y.get "dns" m' ≡ or_else (y.get "dns" user) dns)
          × (y.get "hosts" m' ≡ or_else (y.get "hosts" user) hosts))

  -- The section of a mapping, or an empty one where it has none.
  abbrev pub SectionOf : Option Value → Mapping → Type 0
  SectionOf o dns =
      (and_then o (as_mapping y) ≡ some dns) ⊎ ((and_then o (as_mapping y) ≡ none) × (dns ≡ new))

  -- The TUN mode: a section with a mode other than fake-ip stays, any other is filled.
  abbrev pub TunSections : Bool → (dns hosts : Option Value) → Mapping → Type 0
  TunSections ipv6 old hosts m' =
      (y.get "hosts" m' ≡ hosts)
      × ((dns : Mapping) × SectionOf old dns
          × (((mode : String) × (and_then (y.get "enhanced-mode" dns) (as_str y) ≡ some mode)
                × (mode ≢ "fake-ip")
                × (y.get "dns" m' ≡ old))
              ⊎ ((dns' : Mapping) × (y.get "dns" m' ≡ some (mapping dns'))
                  × FilledDns y ipv6 dns dns')))

  -- By the two switches: the override comes before the TUN mode.
  abbrev pub Sections : RuntimeConfigParams → (dns hosts : Option Value) → Mapping → Type 0
  Sections p dns hosts m' =
      ((p.is_dns_override_enabled ≡ true) × UserSections p.dns_override_content dns hosts m')
      ⊎ ((p.is_dns_override_enabled ≡ false)
          × (p.is_tun_enabled ≡ true)
          × TunSections p.is_ipv6_enabled dns hosts m')
      ⊎ ((p.is_dns_override_enabled ≡ false)
          × (p.is_tun_enabled ≡ false)
          × SameSections dns hosts m')

  existing_dns-SectionOf : (m : Mapping) → SectionOf (y.get "dns" m) (existing_dns y m)
  unfolding existing_dns
  existing_dns-SectionOf m = by_section (and_then (y.get "dns" m) (as_mapping y))
    where
      by_section :
          (o : Option Mapping)
          → (o ≡ some (unwrap_or o new)) ⊎ ((o ≡ none) × (unwrap_or o new ≡ new))
      by_section none = inr (refl, refl)
      by_section (some dns) = inl refl

module _ (y : Yaml) (laws : Laws y) (p : RuntimeConfigParams) (m m' : Mapping) where
  user-Sections :
      (content : Option String)
      → Overridden y (user_dns y content) m m'
      → UserSections y content (y.get "dns" m) (y.get "hosts" m) m'
  unfolding user_dns
  user-Sections none o = let same : m ≡ m' = o in inl (inl refl, (rw same, rw same))
  user-Sections (some String.[]) o = let same : m ≡ m' = o in inl (inr refl, (rw same, rw same))
  user-Sections (some (String.◌∷◌ c s)) (config, user, read, root, laid) =
      inr (String.◌∷◌ c s, config, user, refl, read, root, laid "dns", laid "hosts")

  tun-Sections :
      m' ≡ inject_dns_config y p m
      → TunSections y p.is_ipv6_enabled (y.get "dns" m) (y.get "hosts" m) m'
  tun-Sections e = elim (inject_dns_config_lem y laws p m) [
    | inl (mode, is, other, same) ↦
        let here : m' ≡ m = e ∙ same in
        (rw here, (existing_dns y m, existing_dns-SectionOf y m, inl (mode, is, other, rw here)))
    | inr (dns', put, filled, kept) ↦ (
      rw e (kept "hosts" (λ h. cc)),
      (existing_dns y m, existing_dns-SectionOf y m, inr (dns', rw e put, filled)),
    )
  ]

  pub inject_dns-Sections :
      inject_dns y p m ≡ ok m' → Sections y p (y.get "dns" m) (y.get "hosts" m) m'
  unfolding inject_dns
  inject_dns-Sections e = elim (Bool-cases p.is_dns_override_enabled) [
    | inl user ↦ inl (
      user,
      user-Sections p.dns_override_content
          (inject_user_dns_override-Overridden y laws p m m' (rw user at e)),
    )
    | inr own ↦ elim (Bool-cases p.is_tun_enabled) [
      | inl tun ↦ inr (inl (own, tun, tun-Sections (sym (ok-injective (rw (own, tun) at e)))))
      | inr off ↦
          let same : m ≡ m' = ok-injective (rw (own, off) at e) in
          inr (inr (own, off, (rw same, rw same)))
    ]
  ]
