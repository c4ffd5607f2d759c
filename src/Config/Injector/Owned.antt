-- ===== src/Config/Injector/Owned.antt =====
-- injector.rs: what the keys of the blocks hold afterwards, whatever the configuration held.
use stelliberty_m.Base.{
  ◌≡◌, refl, ◌∙◌, ap, eq_refl, String, Bool, true, false, if◌then◌else◌, some, ◌==◌,
}
use stelliberty_m.Yaml.{bool, string, mapping, Mapping, Yaml, Laws}
use stelliberty_m.Config.Params.{int, RuntimeConfigParams}
use stelliberty_m.Config.Injector.{
  Platform, windows, unix, Build, bind_address, endpoint_key, endpoint_path, inject_endpoint,
  inject_controller, inject_ports, inject_general, inject_keep_alive, tun_config, inject_tun,
  inject_root,
}
use stelliberty_m.Config.Injector.Frame.{
  inject_ports-frame, inject_general-frame, inject_controller-frame, inject_keep_alive-frame,
  inject_tun-frame, inject_endpoint-frame, controller_keys, wanted_list, inject_lan-frame, is_among,
  lan_keys, general_keys, port_keys,
}
use stelliberty_m.Config.Injector.Blocks.{
  wanted_text, wanted_secret, wanted_interval, ports_lookup, general_lookup, lan_lookup,
  controller_lookup, interval_lookup, TunOf, tun_config_fields,
}

-- The key of the endpoint and the endpoint.
abbrev pub wanted_endpoint : Platform → Bool → String × String
wanted_endpoint windows true = ("external-controller-pipe", "\\\\.\\pipe\\stelliberty_dev")
wanted_endpoint windows false = ("external-controller-pipe", "\\\\.\\pipe\\stelliberty")
wanted_endpoint unix true = ("external-controller-unix", "/tmp/stelliberty_dev.sock")
wanted_endpoint unix false = ("external-controller-unix", "/tmp/stelliberty.sock")

endpoint_is :
    (e : Platform) (debug : Bool)
    → (endpoint_key e ≡ (wanted_endpoint e debug).0)
      × (endpoint_path e debug ≡ (wanted_endpoint e debug).1)
endpoint_is windows true = (refl, refl)
endpoint_is windows false = (refl, refl)
endpoint_is unix true = (refl, refl)
endpoint_is unix false = (refl, refl)

-- All addresses, or this machine only.
abbrev pub wanted_address : Bool → String
wanted_address is_allow_lan_enabled = if is_allow_lan_enabled then "0.0.0.0" else "127.0.0.1"

address_is : (b : Bool) → bind_address b ≡ wanted_address b
address_is true = refl
address_is false = refl

-- The root `m'` that the parameters make of the root `m`.
pub record Injected (y : Yaml) (b : Build) (p : RuntimeConfigParams) (m m' : Mapping) : Type 0 where
  pub endpoint :
      y.get (wanted_endpoint b.platform b.debug_assertions).0 m'
      ≡ some (string (wanted_endpoint b.platform b.debug_assertions).1)
  pub controller : y.get "external-controller" m' ≡ wanted_text p.external_controller
  pub secret : y.get "secret" m' ≡ wanted_secret p.external_controller p.external_controller_secret
  pub mixed_port : y.get "mixed-port" m' ≡ some (int p.mixed_port)
  pub port : y.get "port" m' ≡ some (int p.http_port)
  pub socks_port : y.get "socks-port" m' ≡ some (int p.socks_port)
  pub address : y.get "bind-address" m' ≡ some (string (wanted_address p.is_allow_lan_enabled))
  pub mode : y.get "mode" m' ≡ some (string p.outbound_mode)
  pub ipv6 : y.get "ipv6" m' ≡ some (bool p.is_ipv6_enabled)
  pub tcp_concurrent : y.get "tcp-concurrent" m' ≡ some (bool p.is_tcp_concurrent_enabled)
  pub unified_delay : y.get "unified-delay" m' ≡ some (bool p.is_unified_delay_enabled)
  pub find_process_mode : y.get "find-process-mode" m' ≡ some (string p.find_process_mode)
  pub geodata_loader : y.get "geodata-loader" m' ≡ some (string p.geodata_loader)
  pub log_level : y.get "log-level" m' ≡ some (string p.clash_core_log_level)
  pub keep_alive :
      y.get "keep-alive-interval" m'
      ≡ wanted_interval p.is_keep_alive_enabled p.keep_alive_interval
          (y.get "keep-alive-interval" m)
  pub tun : (section : Mapping) × (y.get "tun" m' ≡ some (mapping section)) × TunOf y p section
  pub authentication : y.get "authentication" m' ≡ wanted_list p.lan_authentication
  pub allowed : y.get "lan-allowed-ips" m' ≡ wanted_list p.lan_allowed_ips
  pub disallowed : y.get "lan-disallowed-ips" m' ≡ wanted_list p.lan_disallowed_ips
  pub skip_auth : y.get "skip-auth-prefixes" m' ≡ wanted_list p.skip_auth_prefixes

module _ (y : Yaml) (laws : Laws y) (b : Build) (p : RuntimeConfigParams) (m : Mapping) where
  -- Behind the block of the general keys only the keep-alive, TUN and LAN keys change.
  after_general :
      (j : String)
      → is_among j lan_keys ≡ false
      → ("tun" == j) ≡ false
      → ("keep-alive-interval" == j) ≡ false
      → y.get j (inject_root y b p m)
        ≡ y.get j
            (inject_general y p (inject_ports y p (inject_controller y p (inject_endpoint y b m))))
  unfolding inject_root
  after_general j h t k =
      inject_lan-frame y laws p j _ h
      ∙ inject_tun-frame y laws p j _ t
      ∙ inject_keep_alive-frame y laws p j _ k

  after_ports :
      (j : String)
      → is_among j lan_keys ≡ false
      → ("tun" == j) ≡ false
      → ("keep-alive-interval" == j) ≡ false
      → is_among j general_keys ≡ false
      → y.get j (inject_root y b p m)
        ≡ y.get j (inject_ports y p (inject_controller y p (inject_endpoint y b m)))
  after_ports j h t k g = after_general j h t k ∙ inject_general-frame y laws p j _ g

  after_controller :
      (j : String)
      → is_among j lan_keys ≡ false
      → ("tun" == j) ≡ false
      → ("keep-alive-interval" == j) ≡ false
      → is_among j general_keys ≡ false
      → is_among j port_keys ≡ false
      → y.get j (inject_root y b p m) ≡ y.get j (inject_controller y p (inject_endpoint y b m))
  after_controller j h t k g q = after_ports j h t k g ∙ inject_ports-frame y laws p j _ q

endpoint_apart :
    (e : Platform)
    → (is_among (endpoint_key e) lan_keys ≡ false)
      × (("tun" == endpoint_key e) ≡ false)
      × (("keep-alive-interval" == endpoint_key e) ≡ false)
      × (is_among (endpoint_key e) general_keys ≡ false)
      × (is_among (endpoint_key e) port_keys ≡ false)
      × (is_among (endpoint_key e) controller_keys ≡ false)
      × ((endpoint_key e == "keep-alive-interval") ≡ false)
endpoint_apart windows = (refl, refl, refl, refl, refl, refl, refl)
endpoint_apart unix = (refl, refl, refl, refl, refl, refl, refl)

module _ (y : Yaml) (laws : Laws y) (b : Build) (p : RuntimeConfigParams) (m : Mapping) where
  endpoint_at :
      y.get (endpoint_key b.platform) (inject_root y b p m)
      ≡ some (string (endpoint_path b.platform b.debug_assertions))
  unfolding inject_endpoint
  endpoint_at =
      let (l, t, k, g, q, c, _) = endpoint_apart b.platform in
      after_controller y laws b p m _ l t k g q
      ∙ inject_controller-frame y laws p _ _ c
      ∙ (laws.get-insert _ _ _ m ∙ rw (eq_refl (endpoint_key b.platform)))

  endpoint_lookup :
      y.get (wanted_endpoint b.platform b.debug_assertions).0 (inject_root y b p m)
      ≡ some (string (wanted_endpoint b.platform b.debug_assertions).1)
  endpoint_lookup =
      let (key_is, path_is) = endpoint_is b.platform b.debug_assertions in
      rw (← key_is, ← path_is) endpoint_at

  keep_alive_lookup :
      y.get "keep-alive-interval" (inject_root y b p m)
      ≡ wanted_interval p.is_keep_alive_enabled p.keep_alive_interval
          (y.get "keep-alive-interval" m)
  unfolding inject_root inject_keep_alive
  keep_alive_lookup =
      inject_lan-frame y laws p _ _ refl
      ∙ inject_tun-frame y laws p _ _ refl
      ∙ interval_lookup y laws p p.is_keep_alive_enabled p.keep_alive_interval _
      ∙ ap (wanted_interval p.is_keep_alive_enabled p.keep_alive_interval) (
          inject_general-frame y laws p _ _ refl
          ∙ inject_ports-frame y laws p _ _ refl
          ∙ inject_controller-frame y laws p _ _ refl
          ∙ inject_endpoint-frame y laws p _ m b (endpoint_apart b.platform).6)

  tun_lookup : y.get "tun" (inject_root y b p m) ≡ some (mapping (tun_config y p))
  unfolding inject_root inject_tun
  tun_lookup = inject_lan-frame y laws p _ _ refl ∙ simp (laws.get-insert)

  address_lookup :
      y.get "bind-address" (inject_root y b p m)
      ≡ some (string (wanted_address p.is_allow_lan_enabled))
  address_lookup =
      after_ports y laws b p m _ refl refl refl refl
      ∙ (ports_lookup y laws p _).3
      ∙ ap (λ a. some (string a)) (address_is p.is_allow_lan_enabled)

  controller_root :
      (y.get "external-controller" (inject_root y b p m) ≡ wanted_text p.external_controller)
      × (y.get "secret" (inject_root y b p m)
          ≡ wanted_secret p.external_controller p.external_controller_secret)
  unfolding inject_controller
  controller_root =
      let (address, secret) =
        controller_lookup y laws p p.external_controller p.external_controller_secret
          (inject_endpoint y b m) in
      (
        after_controller y laws b p m _ refl refl refl refl refl ∙ address,
        after_controller y laws b p m _ refl refl refl refl refl ∙ secret,
      )

  lan_root :
      (y.get "authentication" (inject_root y b p m) ≡ wanted_list p.lan_authentication)
      × (y.get "lan-allowed-ips" (inject_root y b p m) ≡ wanted_list p.lan_allowed_ips)
      × (y.get "lan-disallowed-ips" (inject_root y b p m) ≡ wanted_list p.lan_disallowed_ips)
      × (y.get "skip-auth-prefixes" (inject_root y b p m) ≡ wanted_list p.skip_auth_prefixes)
  unfolding inject_root
  lan_root = lan_lookup y laws p _

  -- Every key that the blocks own holds what the parameters say, whatever the root held.
  pub inject_root-Injected : Injected y b p m (inject_root y b p m)
  inject_root-Injected =
      let ports = ports_lookup y laws p _ in
      let general = general_lookup y laws p _ in
      record {
        endpoint = endpoint_lookup;
        controller = controller_root.0;
        secret = controller_root.1;
        mixed_port = after_ports y laws b p m _ refl refl refl refl ∙ ports.0;
        port = after_ports y laws b p m _ refl refl refl refl ∙ ports.1;
        socks_port = after_ports y laws b p m _ refl refl refl refl ∙ ports.2;
        address = address_lookup;
        mode = after_general y laws b p m _ refl refl refl ∙ general.0;
        ipv6 = after_general y laws b p m _ refl refl refl ∙ general.1;
        tcp_concurrent = after_general y laws b p m _ refl refl refl ∙ general.2;
        unified_delay = after_general y laws b p m _ refl refl refl ∙ general.3;
        find_process_mode = after_general y laws b p m _ refl refl refl ∙ general.4;
        geodata_loader = after_general y laws b p m _ refl refl refl ∙ general.5;
        log_level = after_general y laws b p m _ refl refl refl ∙ general.6;
        keep_alive = keep_alive_lookup;
        tun = (tun_config y p, tun_lookup, tun_config_fields y laws p);
        authentication = lan_root.0;
        allowed = lan_root.1;
        disallowed = lan_root.2;
        skip_auth = lan_root.3;
      }
