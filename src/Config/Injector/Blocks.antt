-- ===== src/Config/Injector/Blocks.antt =====
-- injector.rs: what each block leaves at its own keys.
use stelliberty_m.Base.{
  ℤ, List, [], ◌∷◌, ◌≡◌, refl, ◌∙◌, String, Bool, true, false, Option, none, some, arith, ◌==◌,
  if◌then◌else◌, is_empty, Bool-cases, inl, inr,
}
use stelliberty_m.Yaml.{Value, bool, string, Mapping, Yaml, Laws}
use stelliberty_m.Config.Params.{int, texts, RuntimeConfigParams}
use stelliberty_m.Config.Injector.{
  bind_address, inject_secret, keep_alive, controller, inject_ports, inject_general, put_list,
  tun_config, inject_lan,
}
use stelliberty_m.Config.Injector.Frame.{wanted_list, put_or_remove-lookup}

-- A text that is given and not empty.
abbrev pub wanted_text : Option String → Option Value
wanted_text none = none
wanted_text (some s) = if is_empty s then none else some (string s)

-- The secret goes with a controller only.
abbrev pub wanted_secret : Option String → Option String → Option Value
wanted_secret none secret = none
wanted_secret (some address) secret = if is_empty address then none else wanted_text secret

-- The interval is set, removed, or left as it was.
abbrev pub wanted_interval : Bool → Option ℤ → Option Value → Option Value
wanted_interval true none old = old
wanted_interval true (some n) old = some (int n)
wanted_interval false interval old = none

-- A TUN section that holds what the parameters say; without excluded addresses it has no such key.
abbrev pub TunOf : Yaml → RuntimeConfigParams → Mapping → Type 0
TunOf y p tun =
    (y.get "enable" tun ≡ some (bool p.is_tun_enabled))
    × (y.get "stack" tun ≡ some (string p.tun_stack))
    × (y.get "device" tun ≡ some (string p.tun_device))
    × (y.get "auto-route" tun ≡ some (bool p.is_tun_auto_route_enabled))
    × (y.get "auto-redirect" tun ≡ some (bool p.is_tun_auto_redirect_enabled))
    × (y.get "auto-detect-interface" tun ≡ some (bool p.is_tun_auto_detect_interface_enabled))
    × (y.get "dns-hijack" tun ≡ some (texts p.tun_dns_hijacks))
    × (y.get "strict-route" tun ≡ some (bool p.is_tun_strict_route_enabled))
    × (y.get "route-exclude-address" tun ≡ wanted_list p.tun_route_exclude_addresses)
    × (y.get "mtu" tun ≡ some (int p.tun_mtu))
    × (y.get "disable-icmp-forwarding" tun ≡ some (bool p.is_tun_icmp_forwarding_disabled))

module _ (y : Yaml) (laws : Laws y) (p : RuntimeConfigParams) where
  pub ports_lookup :
      (n : Mapping)
      → (y.get "mixed-port" (inject_ports y p n) ≡ some (int p.mixed_port))
        × (y.get "port" (inject_ports y p n) ≡ some (int p.http_port))
        × (y.get "socks-port" (inject_ports y p n) ≡ some (int p.socks_port))
        × (y.get "bind-address" (inject_ports y p n)
            ≡ some (string (bind_address p.is_allow_lan_enabled)))
  unfolding inject_ports
  ports_lookup n = (
    simp (laws.get-insert),
    simp (laws.get-insert),
    simp (laws.get-insert),
    simp (laws.get-insert),
  )

  pub general_lookup :
      (n : Mapping)
      → (y.get "mode" (inject_general y p n) ≡ some (string p.outbound_mode))
        × (y.get "ipv6" (inject_general y p n) ≡ some (bool p.is_ipv6_enabled))
        × (y.get "tcp-concurrent" (inject_general y p n) ≡ some (bool p.is_tcp_concurrent_enabled))
        × (y.get "unified-delay" (inject_general y p n) ≡ some (bool p.is_unified_delay_enabled))
        × (y.get "find-process-mode" (inject_general y p n) ≡ some (string p.find_process_mode))
        × (y.get "geodata-loader" (inject_general y p n) ≡ some (string p.geodata_loader))
        × (y.get "log-level" (inject_general y p n) ≡ some (string p.clash_core_log_level))
  unfolding inject_general
  general_lookup n = (
    simp (laws.get-insert),
    simp (laws.get-insert),
    simp (laws.get-insert),
    simp (laws.get-insert),
    simp (laws.get-insert),
    simp (laws.get-insert),
    simp (laws.get-insert),
  )

  pub lan_lookup :
      (n : Mapping)
      → (y.get "authentication" (inject_lan y p n) ≡ wanted_list p.lan_authentication)
        × (y.get "lan-allowed-ips" (inject_lan y p n) ≡ wanted_list p.lan_allowed_ips)
        × (y.get "lan-disallowed-ips" (inject_lan y p n) ≡ wanted_list p.lan_disallowed_ips)
        × (y.get "skip-auth-prefixes" (inject_lan y p n) ≡ wanted_list p.skip_auth_prefixes)
  unfolding inject_lan
  lan_lookup n = (
    simp (put_or_remove-lookup y laws),
    simp (put_or_remove-lookup y laws),
    simp (put_or_remove-lookup y laws),
    simp (put_or_remove-lookup y laws),
  )

  secret_lookup :
      (secret : Option String) (n : Mapping)
      → (y.get "secret" (inject_secret y secret n) ≡ wanted_text secret)
        × (y.get "external-controller" (inject_secret y secret n) ≡ y.get "external-controller" n)
  unfolding inject_secret
  secret_lookup none n = (simp (laws.get-remove), simp (laws.get-remove))
  secret_lookup (some s) n = elim (Bool-cases (is_empty s)) [
    | inl e ↦ rw e (simp (laws.get-remove), simp (laws.get-remove))
    | inr e ↦ rw e (simp (laws.get-insert), simp (laws.get-insert))
  ]

  pub controller_lookup :
      (address secret : Option String) (n : Mapping)
      → (y.get "external-controller" (controller y address secret n) ≡ wanted_text address)
        × (y.get "secret" (controller y address secret n) ≡ wanted_secret address secret)
  unfolding controller
  controller_lookup none secret n = (simp (laws.get-remove), simp (laws.get-remove))
  controller_lookup (some a) secret n = elim (Bool-cases (is_empty a)) [
    | inl e ↦ rw e (simp (laws.get-remove), simp (laws.get-remove))
    | inr e ↦
        let (kept, set) = secret_lookup secret (y.insert "external-controller" (string a) n) in
        rw e (set ∙ simp (laws.get-insert), kept)
  ]

  pub interval_lookup :
      (enabled : Bool) (interval : Option ℤ) (n : Mapping)
      → y.get "keep-alive-interval" (keep_alive y enabled interval n)
        ≡ wanted_interval enabled interval (y.get "keep-alive-interval" n)
  unfolding keep_alive
  interval_lookup true none n = refl
  interval_lookup true (some i) n = simp (laws.get-insert)
  interval_lookup false interval n = simp (laws.get-remove)

  -- What `put_list` leaves at its key.
  abbrev pub or_old : List String → Option Value → Option Value
  or_old [] old = old
  or_old (x ∷ xs) old = some (texts (x ∷ xs))

  put_list-lookup :
      (k j : String) (xs : List String) (n : Mapping)
      → y.get j (put_list y k xs n) ≡ (if k == j then or_old xs (y.get j n) else y.get j n)
  unfolding put_list
  put_list-lookup k j [] n = ground arith
  put_list-lookup k j (x ∷ xs) n = laws.get-insert k j (texts (x ∷ xs)) n

  pub tun_config_fields : TunOf y p (tun_config y p)
  unfolding tun_config
  tun_config_fields = (
    simp (laws.get-insert, put_list-lookup),
    simp (laws.get-insert, put_list-lookup),
    simp (laws.get-insert, put_list-lookup),
    simp (laws.get-insert, put_list-lookup),
    simp (laws.get-insert, put_list-lookup),
    simp (laws.get-insert, put_list-lookup),
    simp (laws.get-insert, put_list-lookup),
    simp (laws.get-insert, put_list-lookup),
    simp (laws.get-insert, put_list-lookup, laws.get-end)
        (or_old-wanted p.tun_route_exclude_addresses),
    simp (laws.get-insert, put_list-lookup),
    simp (laws.get-insert, put_list-lookup),
  )
    where
      or_old-wanted : (xs : List String) → or_old xs none ≡ wanted_list xs
      or_old-wanted [] = refl
      or_old-wanted (x ∷ xs) = refl
