-- ===== src/SystemProxy/Linux/Requests/Applied.antt =====
-- manager.rs: when a request on Linux is reported as successful.
use stelliberty_m.Base.{
  ◌≡◌, refl, sym, ap, ◌∙◌, String, [], Option, none, some, Result, ok, err, ◌⊎◌, ◌↔◌, inl, inr,
}
use stelliberty_m.SystemProxy.{EnableSystemProxy, success, error}
use stelliberty_m.SystemProxy.Commands.{Act, Run}
use stelliberty_m.SystemProxy.Linux.{
  Environment, kwriteconfig_command, enable_proxy_gsettings, enable_proxy_dconf, enable_proxy_kde,
}
use stelliberty_m.SystemProxy.Linux.Requests.{
  Backends, collect_backend_result, build_proxy_result, collected, with_kde, with_backend,
  result_of, all_backends, enable_proxy,
}

-- The state behind the backend for KDE, and its result if its command is there.
abbrev pub after_kde :
    {W : Type 0} → (String → Act W (Unit {0})) → Option String × W → Option (Result (Unit {0})) × W
after_kde act (none, w) = (none, w)
after_kde act (some command, w) = let (r, w') = act command w in (some r, w')

Works : Option (Result (Unit {0})) → Result (Unit {0}) → Result (Unit {0}) → Type 0
Works k g d = (k ≡ some (ok tt)) ⊎ (g ≡ ok tt) ⊎ (d ≡ ok tt)

kde_backends : Option (Result (Unit {0})) → Backends
kde_backends none = record { applied = []; errors = [] }
kde_backends (some r) = collect_backend_result "KDE" r (record { applied = []; errors = [] })

gathered : Option (Result (Unit {0})) → Result (Unit {0}) → Result (Unit {0}) → Backends
unfolding kde_backends
gathered k g d =
    collect_backend_result "dconf" d (collect_backend_result "gsettings" g (kde_backends k))

not_success : {e : String} → error e ≡ success → ⊥
not_success h = cc

works :
    (k : Option (Result (Unit {0}))) (g d : Result (Unit {0}))
    → build_proxy_result (gathered k g d) ≡ success
    → Works k g d
unfolding build_proxy_result gathered collect_backend_result Works
works k g (ok u) h = inr (inr refl)
works k (ok u) (err e) h = inr (inl refl)
works (some (ok u)) (err f) (err e) h = inl refl
works none (err f) (err e) h = elim (not_success h) [ ]
works (some (err n)) (err f) (err e) h = elim (not_success h) [ ]

succeeds :
    (k : Option (Result (Unit {0}))) (g d : Result (Unit {0}))
    → Works k g d
    → build_proxy_result (gathered k g d) ≡ success
unfolding build_proxy_result gathered collect_backend_result Works
succeeds (some (ok u)) (ok v) (ok w) h = refl
succeeds (some (ok u)) (ok v) (err e) h = refl
succeeds (some (ok u)) (err f) (ok w) h = refl
succeeds (some (ok u)) (err f) (err e) h = refl
succeeds (some (err n)) (ok v) (ok w) h = refl
succeeds (some (err n)) (ok v) (err e) h = refl
succeeds (some (err n)) (err f) (ok w) h = refl
succeeds none (ok v) (ok w) h = refl
succeeds none (ok v) (err e) h = refl
succeeds none (err f) (ok w) h = refl
succeeds (some (err n)) (err f) (err e) (inl h) = cc
succeeds (some (err n)) (err f) (err e) (inr (inl h)) = cc
succeeds (some (err n)) (err f) (err e) (inr (inr h)) = cc
succeeds none (err f) (err e) (inl h) = cc
succeeds none (err f) (err e) (inr (inl h)) = cc
succeeds none (err f) (err e) (inr (inr h)) = cc

with_kde-is :
    {W : Type 0} (run : Run W) (env : Environment) (act : String → Act W (Unit {0}))
    (x : Option String × W)
    → with_kde run env act x ≡ (kde_backends (after_kde act x).0, (after_kde act x).1)
unfolding with_kde collected kde_backends
with_kde-is run env act (none, w) = refl
with_kde-is run env act (some command, w) = refl

module _ {W : Type 0} (run : Run W) (env : Environment) (r : EnableSystemProxy) (w : W) where
  abbrev pub by_kde : Option (Result (Unit {0})) × W
  by_kde =
      after_kde (λ command. enable_proxy_kde run env command r.host r.port r.bypass_domains)
        (kwriteconfig_command run env w)

  abbrev pub by_gsettings : Result (Unit {0}) × W
  by_gsettings = enable_proxy_gsettings run env r.host r.port r.bypass_domains by_kde.1

  abbrev pub by_dconf : Result (Unit {0}) × W
  by_dconf = enable_proxy_dconf run env r.host r.port r.bypass_domains by_gsettings.1

  enable-gathered :
      (enable_proxy run env r w).0
      ≡ build_proxy_result (gathered by_kde.0 by_gsettings.0 by_dconf.0)
  unfolding enable_proxy all_backends with_backend collected result_of gathered
  enable-gathered =
      let act : String → Act W (Unit {0}) =
        λ command. enable_proxy_kde run env command r.host r.port r.bypass_domains in
      ap
        (λ x.
          (result_of run env (
            with_backend run env "dconf" (enable_proxy_dconf run env r.host r.port r.bypass_domains)
              (with_backend run env "gsettings"
                (enable_proxy_gsettings run env r.host r.port r.bypass_domains) x))).0)
        (with_kde-is run env act (kwriteconfig_command run env w))

  -- Setting the proxy on Linux is reported as successful exactly where one of the backends that are asked,
  -- one after the other, works: that of KDE, whose command must be there, gsettings, or dconf.
  pub enable_proxy_iff :
      ((enable_proxy run env r w).0 ≡ success)
      ↔ ((by_kde.0 ≡ some (ok tt)) ⊎ (by_gsettings.0 ≡ ok tt) ⊎ (by_dconf.0 ≡ ok tt))
  unfolding Works
  enable_proxy_iff = (
    λ h. works by_kde.0 by_gsettings.0 by_dconf.0 (sym enable-gathered ∙ h),
    λ h. enable-gathered ∙ succeeds by_kde.0 by_gsettings.0 by_dconf.0 h,
  )
