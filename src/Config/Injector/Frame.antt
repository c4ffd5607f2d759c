-- ===== src/Config/Injector/Frame.antt =====
-- injector.rs: each block writes its own keys only.
use stelliberty_m.Base.{
  ℤ, ◌≡◌, refl, String, Bool, true, false, List, [], ◌∷◌, ◌++◌, Option, none, some, arith, ◌==◌,
  if◌then◌else◌, is_empty, any, Bool-cases, or-false, any-append-false, inl, inr, ◌∙◌,
}
use stelliberty_m.Yaml.{Value, Mapping, Yaml, Laws}
use stelliberty_m.Config.Params.{texts, RuntimeConfigParams}
use stelliberty_m.Config.Injector.{
  Build, endpoint_key, inject_endpoint, inject_secret, controller, inject_controller, inject_ports,
  inject_general, keep_alive, inject_keep_alive, inject_tun, put_or_remove, inject_lan, inject_root,
}

-- The keys that each block may write or remove.
abbrev pub controller_keys : List String
controller_keys = "external-controller" ∷ "secret" ∷ []

abbrev pub port_keys : List String
port_keys = "mixed-port" ∷ "port" ∷ "socks-port" ∷ "bind-address" ∷ []

abbrev pub general_keys : List String
general_keys =
    "mode" ∷ "ipv6" ∷ "tcp-concurrent" ∷ "unified-delay" ∷ "find-process-mode" ∷ "geodata-loader"
    ∷ "log-level" ∷ []

abbrev pub lan_keys : List String
lan_keys = "authentication" ∷ "lan-allowed-ips" ∷ "lan-disallowed-ips" ∷ "skip-auth-prefixes" ∷ []

abbrev pub is_among : String → List String → Bool
is_among j keys = any (λ k. k == j) keys

module _ (y : Yaml) (laws : Laws y) (p : RuntimeConfigParams) (j : String) (m : Mapping) where
  pub inject_ports-frame : is_among j port_keys ≡ false → y.get j (inject_ports y p m) ≡ y.get j m
  unfolding inject_ports
  inject_ports-frame h = simp (laws.get-insert) (ground arith)

  pub inject_general-frame :
      is_among j general_keys ≡ false → y.get j (inject_general y p m) ≡ y.get j m
  unfolding inject_general
  inject_general-frame h = simp (laws.get-insert) (ground arith)

  inject_secret-frame :
      (secret : Option String) (m : Mapping)
      → ("secret" == j) ≡ false
      → y.get j (inject_secret y secret m) ≡ y.get j m
  unfolding inject_secret
  inject_secret-frame none m h = rw (laws.get-remove, h)
  inject_secret-frame (some s) m h =
      ground (arith, laws.get-remove "secret" j m, laws.get-insert "secret" j (Value.string s) m)

  pub inject_endpoint-frame :
      (b : Build)
      → (endpoint_key b.platform == j) ≡ false
      → y.get j (inject_endpoint y b m) ≡ y.get j m
  unfolding inject_endpoint
  inject_endpoint-frame b h = rw (laws.get-insert, h)

  controller-frame :
      (address secret : Option String)
      → is_among j controller_keys ≡ false
      → y.get j (controller y address secret m) ≡ y.get j m
  unfolding controller
  controller-frame none secret h = simp (laws.get-remove) (ground arith)
  controller-frame (some a) secret h = elim (Bool-cases (is_empty a)) [
    | inl e ↦ rw e (simp (laws.get-remove) (ground arith))
    | inr e ↦ rw e (
        inject_secret-frame secret (y.insert "external-controller" (Value.string a) m)
          (ground arith)
        ∙ simp (laws.get-insert) (ground arith))
  ]

  pub inject_controller-frame :
      is_among j controller_keys ≡ false → y.get j (inject_controller y p m) ≡ y.get j m
  unfolding inject_controller
  inject_controller-frame h = controller-frame p.external_controller p.external_controller_secret h

  keep_alive-frame :
      (enabled : Bool) (interval : Option ℤ)
      → ("keep-alive-interval" == j) ≡ false
      → y.get j (keep_alive y enabled interval m) ≡ y.get j m
  unfolding keep_alive
  keep_alive-frame true none h = refl
  keep_alive-frame true (some n) h = rw (laws.get-insert, h)
  keep_alive-frame false interval h = rw (laws.get-remove, h)

  pub inject_keep_alive-frame :
      ("keep-alive-interval" == j) ≡ false → y.get j (inject_keep_alive y p m) ≡ y.get j m
  unfolding inject_keep_alive
  inject_keep_alive-frame h = keep_alive-frame p.is_keep_alive_enabled p.keep_alive_interval h

  pub inject_tun-frame : ("tun" == j) ≡ false → y.get j (inject_tun y p m) ≡ y.get j m
  unfolding inject_tun
  inject_tun-frame h = rw (laws.get-insert, h)

-- What `put_or_remove` leaves at its key.
abbrev pub wanted_list : List String → Option Value
wanted_list [] = none
wanted_list (x ∷ xs) = some (texts (x ∷ xs))

module _ (y : Yaml) (laws : Laws y) where
  pub put_or_remove-lookup :
      (k j : String) (xs : List String) (m : Mapping)
      → y.get j (put_or_remove y k xs m) ≡ (if k == j then wanted_list xs else y.get j m)
  unfolding put_or_remove
  put_or_remove-lookup k j [] m = laws.get-remove k j m
  put_or_remove-lookup k j (x ∷ xs) m = laws.get-insert k j (texts (x ∷ xs)) m

  pub inject_lan-frame :
      (p : RuntimeConfigParams) (j : String) (m : Mapping)
      → is_among j lan_keys ≡ false
      → y.get j (inject_lan y p m) ≡ y.get j m
  unfolding inject_lan
  inject_lan-frame p j m h = simp (put_or_remove-lookup) (ground arith)

-- All keys that the blocks may write or remove.
abbrev pub owned_keys : Build → List String
owned_keys b =
    endpoint_key b.platform
    ∷ "tun"
    ∷ "keep-alive-interval"
    ∷ (controller_keys ++ (port_keys ++ (general_keys ++ lan_keys)))

-- A key that the blocks do not own keeps its value.
pub inject_root-frame :
    (y : Yaml) (laws : Laws y) (b : Build) (p : RuntimeConfigParams) (j : String) (m : Mapping)
    → is_among j (owned_keys b) ≡ false
    → y.get j (inject_root y b p m) ≡ y.get j m
unfolding inject_root
inject_root-frame y laws b p j m h =
    let (e, h₁) = or-false _ _ h in
    let (tun, h₂) = or-false _ _ h₁ in
    let (keep, h₃) = or-false _ _ h₂ in
    let (own, h₄) =
      any-append-false (λ k. k == j) controller_keys (port_keys ++ (general_keys ++ lan_keys)) h₃ in
    let (ports, h₅) = any-append-false (λ k. k == j) port_keys (general_keys ++ lan_keys) h₄ in
    let (general, lan) = any-append-false (λ k. k == j) general_keys lan_keys h₅ in
    inject_lan-frame y laws p j _ lan
    ∙ inject_tun-frame y laws p j _ tun
    ∙ inject_keep_alive-frame y laws p j _ keep
    ∙ inject_general-frame y laws p j _ general
    ∙ inject_ports-frame y laws p j _ ports
    ∙ inject_controller-frame y laws p j _ own
    ∙ inject_endpoint-frame y laws p j _ b e
