-- ===== src/Config/Injector/Run.antt =====
-- injector.rs: a run of `inject_runtime_params` from text to text.
use mathlib.Core.Path.{subst}
use stelliberty_m.Base.{
  ◌≡◌, refl, ◌∙◌, String, Bool, true, false, Option, none, some, ok, map_err, ok_or, >>=-eq-ok,
  ok-injective, map_err-eq-ok, ok_or-eq-ok, ◌==◌, Bool-cases, inl, inr,
}
use stelliberty_m.Yaml.{Value, Mapping, Yaml, Laws, as_mapping_mut}
use stelliberty_m.Config.Params.{RuntimeConfigParams}
use stelliberty_m.Config.Dns.{has_other_mode, existing_dns, user_dns, inject_dns_config}
use stelliberty_m.Config.Dns.User.{Overridden, inject_user_dns_override-Overridden}
use stelliberty_m.Config.Injector.{
  Platform, windows, unix, Build, inject_dns, inject_root, inject_runtime_params,
}
use stelliberty_m.Config.Injector.Frame.{is_among, owned_keys, inject_root-frame}
use stelliberty_m.Config.Injector.Section.{Sections, inject_dns-Sections}
use stelliberty_m.Config.Injector.Owned.{wanted_endpoint, Injected, inject_root-Injected}

module _ (y : Yaml) (laws : Laws y) (p : RuntimeConfigParams) where
  Overridden-frame :
      (content : Option String) (m m' : Mapping) (j : String)
      → Overridden y content m m'
      → ("hosts" == j) ≡ false
      → ("dns" == j) ≡ false
      → y.get j m' ≡ y.get j m
  Overridden-frame none m m' j o h d = rw o
  Overridden-frame (some content) m m' j (config, user, read, root, laid) h d = laid j ∙ rw (h, d)

  inject_dns_config-frame :
      (m : Mapping) (j : String)
      → ("dns" == j) ≡ false
      → y.get j (inject_dns_config y p m) ≡ y.get j m
  unfolding inject_dns_config
  inject_dns_config-frame m j d = elim (Bool-cases (has_other_mode y (existing_dns y m))) [
    | inl e ↦ rw e
    | inr e ↦ rw e (laws.get-insert _ _ _ m ∙ rw d)
  ]

  -- The DNS block changes the `dns` and `hosts` sections only.
  pub inject_dns-frame :
      (m m' : Mapping) (j : String)
      → inject_dns y p m ≡ ok m'
      → ("hosts" == j) ≡ false
      → ("dns" == j) ≡ false
      → y.get j m' ≡ y.get j m
  unfolding inject_dns
  inject_dns-frame m m' j e h d = elim (Bool-cases p.is_dns_override_enabled) [
    | inl user ↦
        Overridden-frame (user_dns y p.dns_override_content) m m' j
          (inject_user_dns_override-Overridden y laws p m m' (rw user at e)) h d
    | inr own ↦ elim (Bool-cases p.is_tun_enabled) [
      | inl tun ↦ rw (← ok-injective (rw (own, tun) at e)) (inject_dns_config-frame m j d)
      | inr off ↦ rw (← ok-injective (rw (own, off) at e))
    ]
  ]

endpoint-ne :
    (e : Platform) (debug : Bool)
    → (("hosts" == (wanted_endpoint e debug).0) ≡ false)
      × (("dns" == (wanted_endpoint e debug).0) ≡ false)
endpoint-ne windows true = (refl, refl)
endpoint-ne windows false = (refl, refl)
endpoint-ne unix true = (refl, refl)
endpoint-ne unix false = (refl, refl)

-- What holds of a root holds of another that differs in `dns` and `hosts` only.
Injected-frame :
    (y : Yaml) (b : Build) (p : RuntimeConfigParams) (m m₁ m₂ : Mapping)
    → ((j : String) → ("hosts" == j) ≡ false → ("dns" == j) ≡ false → y.get j m₂ ≡ y.get j m₁)
    → Injected y b p m m₁
    → Injected y b p m m₂
Injected-frame y b p m m₁ m₂ f i =
    let (h, d) = endpoint-ne b.platform b.debug_assertions in
    record {
      endpoint = f _ h d ∙ i.endpoint;
      controller = f _ refl refl ∙ i.controller;
      secret = f _ refl refl ∙ i.secret;
      mixed_port = f _ refl refl ∙ i.mixed_port;
      port = f _ refl refl ∙ i.port;
      socks_port = f _ refl refl ∙ i.socks_port;
      address = f _ refl refl ∙ i.address;
      mode = f _ refl refl ∙ i.mode;
      ipv6 = f _ refl refl ∙ i.ipv6;
      tcp_concurrent = f _ refl refl ∙ i.tcp_concurrent;
      unified_delay = f _ refl refl ∙ i.unified_delay;
      find_process_mode = f _ refl refl ∙ i.find_process_mode;
      geodata_loader = f _ refl refl ∙ i.geodata_loader;
      log_level = f _ refl refl ∙ i.log_level;
      keep_alive = f _ refl refl ∙ i.keep_alive;
      tun = let (section, at, fields) = i.tun in (section, f _ refl refl ∙ at, fields);
      authentication = f _ refl refl ∙ i.authentication;
      allowed = f _ refl refl ∙ i.allowed;
      disallowed = f _ refl refl ∙ i.disallowed;
      skip_auth = f _ refl refl ∙ i.skip_auth;
    }

sections_apart :
    (b : Build)
    → (is_among "dns" (owned_keys b) ≡ false) × (is_among "hosts" (owned_keys b) ≡ false)
sections_apart b = by_platform b.platform b.debug_assertions
  where
    by_platform :
        (e : Platform) (d : Bool)
        → (is_among "dns" (owned_keys (record { platform = e; debug_assertions = d })) ≡ false)
          × (is_among "hosts" (owned_keys (record { platform = e; debug_assertions = d })) ≡ false)
    by_platform windows d = (refl, refl)
    by_platform unix d = (refl, refl)

-- A run that succeeded: the root it read, and the root it printed.
pub record Run (y : Yaml) (b : Build) (p : RuntimeConfigParams) (input output : String)
    : Type 0 where
  pub config : Value
  pub parsed : y.from_str input ≡ ok config
  pub root : Mapping
  pub rebuild : Mapping → Value
  pub located : as_mapping_mut y config ≡ some (root, rebuild)
  pub final : Mapping
  pub printed : y.to_string (rebuild final) ≡ ok output
  pub injected : Injected y b p root final
  pub sections : Sections y p (y.get "dns" root) (y.get "hosts" root) final
  pub kept :
      (j : String)
      → is_among j (owned_keys b) ≡ false
      → ("hosts" == j) ≡ false
      → ("dns" == j) ≡ false
      → y.get j final ≡ y.get j root

-- A text that `inject_runtime_params` returns is that of a root in which every key of the parameters
-- holds what they say, the fields of the TUN section included; the `dns` and `hosts` sections are those
-- of the user's override where that is enabled, else those that the TUN mode makes where that is
-- enabled, else those of before; and every other key holds what it held.
pub inject_runtime_params-Run :
    (y : Yaml) (laws : Laws y) (b : Build) (input output : String) (p : RuntimeConfigParams)
    → inject_runtime_params y b input p ≡ ok output
    → Run y b p input output
unfolding inject_runtime_params
inject_runtime_params-Run y laws b input output p h =
    let (config, read, h₁) = >>=-eq-ok (map_err _ (y.from_str input)) _ h in
    let ((root, rebuild), place, h₂) = >>=-eq-ok (ok_or (as_mapping_mut y config) _) _ h₁ in
    let (final, dns, h₃) = >>=-eq-ok (inject_dns y p (inject_root y b p root)) _ h₂ in
    let frame = λ (j : String). inject_dns-frame y laws p (inject_root y b p root) final j dns in
    record {
      config = config;
      parsed = map_err-eq-ok _ _ read;
      root = root;
      rebuild = rebuild;
      located = ok_or-eq-ok _ _ place;
      final = final;
      printed = map_err-eq-ok _ _ h₃;
      injected =
          Injected-frame y b p root (inject_root y b p root) final (λ j. frame j)
            (inject_root-Injected y laws b p root);
      sections =
          subst (λ o. Sections y p o (y.get "hosts" root) final)
            (inject_root-frame y laws b p "dns" root (sections_apart b).0)
            (subst (λ o. Sections y p (y.get "dns" (inject_root y b p root)) o final)
              (inject_root-frame y laws b p "hosts" root (sections_apart b).1)
              (inject_dns-Sections y laws p (inject_root y b p root) final dns));
      kept = λ j own hosts d. frame j hosts d ∙ inject_root-frame y laws b p j root own;
    }
