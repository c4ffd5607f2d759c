-- ===== src/SystemProxy/Mac/Devices.antt =====
-- manager.rs: when a request on macOS is reported as successful.
use stelliberty_m.Base.{ℕ, ◌≡◌, refl, String, List, [], ◌∷◌, Result, ok, err, ◌↔◌}
use stelliberty_m.SystemProxy.{EnableSystemProxy, success, error}
use stelliberty_m.SystemProxy.Commands.{Run}
use stelliberty_m.SystemProxy.Mac.{get_network_devices, set_devices, enable_device, enable_proxy}

-- The devices were listed, and there are some.
abbrev pub Listed : Result (List String) → Type 0
Listed (err e) = ⊥
Listed (ok []) = ⊥
Listed (ok (d ∷ ds)) = Unit

not_success : {e : String} → error e ≡ success → ⊥
not_success h = cc

module _ {W : Type 0} (run : Run W) (show : ℕ → String) where
  set_devices_iff :
      (settings : String → List (List String)) (x : Result (List String) × W)
      → ((set_devices run show settings x).0 ≡ success) ↔ Listed x.0
  unfolding set_devices
  set_devices_iff settings (err e, w) = (λ h. not_success h, λ h. elim h [ ])
  set_devices_iff settings (ok [], w) = (λ h. not_success h, λ h. elim h [ ])
  set_devices_iff settings (ok (d ∷ ds), w) = (λ h. tt, λ h. refl)

  -- On macOS a request to set the proxy is reported as successful exactly where the devices can be listed
  -- and there is one, whatever the commands answer that set it.
  pub enable_proxy_iff_Listed :
      (r : EnableSystemProxy) (w : W)
      → ((enable_proxy run show r w).0 ≡ success) ↔ Listed (get_network_devices run show w).0
  unfolding enable_proxy
  enable_proxy_iff_Listed r w =
      set_devices_iff (enable_device run show r) (get_network_devices run show w)
