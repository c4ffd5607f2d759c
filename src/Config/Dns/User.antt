-- ===== src/Config/Dns/User.antt =====
-- injector.rs, `inject_user_dns_override`: the user's `dns` and `hosts` sections.
use mathlib.Core.Path.{subst}
use stelliberty_m.Base.{
  Bool-cases, ◌≡◌, inl, inr, String, Option, none, some, arith, ok, map_err, ok_or, >>=-eq-ok,
  ok-injective, map_err-eq-ok, ok_or-eq-ok, ◌==◌, eq_iff, if◌then◌else◌,
}
use stelliberty_m.Yaml.{Value, Mapping, Yaml, Laws, as_mapping}
use stelliberty_m.Config.Params.{RuntimeConfigParams}
use stelliberty_m.Config.Dns.{copy_key, user_dns, inject_content, inject_user_dns_override}

-- The first value, if it is there, else the second.
abbrev pub or_else : Option Value → Option Value → Option Value
or_else none old = old
or_else (some v) old = some v

module _ (y : Yaml) where
  -- The value at `j` of a root over which the user's sections are laid.
  abbrev pub overlay : Mapping → String → Option Value → Option Value
  overlay user j old =
      if "hosts" == j
      then or_else (y.get "hosts" user) old
      else (if "dns" == j then or_else (y.get "dns" user) old else old)

  -- How the override changes the root: no content, no change; else the two sections of the content.
  abbrev pub Overridden : Option String → Mapping → Mapping → Type 0
  Overridden none m m' = m ≡ m'
  Overridden (some content) m m' =
      (config : Value) × (user : Mapping) × (y.from_str content ≡ ok config)
      × (as_mapping y config ≡ some user)
      × ((j : String) → y.get j m' ≡ overlay user j (y.get j m))

module _ (y : Yaml) (laws : Laws y) where
  copy_key-lookup :
      (k j : String) (o : Option Value) (m : Mapping)
      → y.get j (copy_key y k o m) ≡ (if k == j then or_else o (y.get j m) else y.get j m)
  unfolding copy_key
  copy_key-lookup k j none m = ground arith
  copy_key-lookup k j (some v) m = laws.get-insert k j v m

  overlaid :
      (user m : Mapping) (j : String)
      → y.get j (copy_key y "hosts" (y.get "hosts" user) (copy_key y "dns" (y.get "dns" user) m))
        ≡ overlay y user j (y.get j m)
  overlaid user m j = elim (Bool-cases ("hosts" == j)) [
    | inl here ↦
        subst
          (λ k.
            y.get k
              (copy_key y "hosts" (y.get "hosts" user) (copy_key y "dns" (y.get "dns" user) m))
            ≡ overlay y user k (y.get k m))
          ((eq_iff "hosts" j).0 here) (simp (copy_key-lookup))
    | inr other ↦ simp (copy_key-lookup, other)
  ]

  inject_content-Overridden :
      (content : Option String) (m m' : Mapping)
      → inject_content y content m ≡ ok m'
      → Overridden y content m m'
  unfolding inject_content
  inject_content-Overridden none m m' h = ok-injective h
  inject_content-Overridden (some content) m m' h =
      let (config, read, h₁) = >>=-eq-ok (map_err _ (y.from_str content)) _ h in
      let (user, root, h₂) = >>=-eq-ok (ok_or (as_mapping y config) _) _ h₁ in
      (
        config,
        user,
        map_err-eq-ok _ _ read,
        ok_or-eq-ok _ _ root,
        λ j. rw (← ok-injective h₂) (overlaid user m j),
      )

  -- A user's override that succeeds changes the root as `Overridden` says.
  pub inject_user_dns_override-Overridden :
      (p : RuntimeConfigParams) (m m' : Mapping)
      → inject_user_dns_override y p m ≡ ok m'
      → Overridden y (user_dns y p.dns_override_content) m m'
  unfolding inject_user_dns_override
  inject_user_dns_override-Overridden p m m' h =
      inject_content-Overridden (user_dns y p.dns_override_content) m m' h
