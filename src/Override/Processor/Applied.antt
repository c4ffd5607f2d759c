-- ===== src/Override/Processor/Applied.antt =====
-- processor.rs: when all overrides succeed.
use stelliberty_m.Base.{
  ◌≡◌, refl, ap, String, List, [], ◌∷◌, Result, ok, err, ok-injective, map_err-eq-ok,
}
use stelliberty_m.Yaml.{Yaml}
use stelliberty_m.Override.Merge
use stelliberty_m.Override.Script
use stelliberty_m.Override.Script.{Scripting}
use stelliberty_m.Override.Processor.{
  OverrideFormat, yaml, javascript, OverrideConfig, with_prefix, apply_one, continue,
  apply_overrides,
}

module _ (y : Yaml) (js : Scripting) where
  open js use {Engine}

  -- One override: a YAML one is a merge that keeps the engine, a script a run of the engine.
  abbrev pub IsApplied : OverrideFormat → Engine → String → String → String → Engine → Type 0
  IsApplied yaml engine current content next engine' =
      (Merge.apply y current content ≡ ok next) × (engine ≡ engine')
  IsApplied javascript engine current content next engine' =
      Script.apply y js engine current content ≡ (ok next, engine')

  -- Every override of the list was applied, in its order, each to the text and with the engine that
  -- the one before it left.
  abbrev pub AllApplied : Engine → String → List OverrideConfig → String → Type 0
  AllApplied engine current [] result = current ≡ result
  AllApplied engine current (o ∷ overrides) result =
      (next : String) × (engine' : Engine) × IsApplied o.format engine current o.content next
        engine'
      × AllApplied engine' next overrides result

  with_prefix-ok :
      (prefix next : String) (engine' : Engine) (r : Result String × Engine)
      → with_prefix y js prefix r ≡ (ok next, engine')
      → r ≡ (ok next, engine')
  with_prefix-ok prefix next engine' (ok c, engine) h = h
  with_prefix-ok prefix next engine' (err e, engine) h = let bad = ap (λ x. x.0) h in cc

  apply_one-IsApplied :
      (f : OverrideFormat) (engine : Engine) (current content next : String) (engine' : Engine)
      → apply_one y js f engine current content ≡ (ok next, engine')
      → IsApplied f engine current content next engine'
  unfolding apply_one
  apply_one-IsApplied yaml engine current content next engine' h =
      (map_err-eq-ok _ _ (ap (λ x. x.0) h), ap (λ x. x.1) h)
  apply_one-IsApplied javascript engine current content next engine' h =
      with_prefix-ok "JavaScript 覆写失败：" next engine' _ h

  IsApplied-apply_one :
      (f : OverrideFormat) (engine : Engine) (current content next : String) (engine' : Engine)
      → IsApplied f engine current content next engine'
      → apply_one y js f engine current content ≡ (ok next, engine')
  unfolding apply_one
  IsApplied-apply_one yaml engine current content next engine' (h, e) = rw (h, e) refl
  IsApplied-apply_one javascript engine current content next engine' h = rw h refl

  continue-ok :
      (r : Result String × Engine) (f : Engine → String → Result String × Engine) (result : String)
      → (continue y js r f).0 ≡ ok result
      → (next : String) × (engine' : Engine) × (r ≡ (ok next, engine'))
        × ((f engine' next).0 ≡ ok result)
  continue-ok (ok next, engine) f result h = (next, engine, refl, h)
  continue-ok (err e, engine) f result h = cc

  pub apply_overrides-AllApplied :
      (engine : Engine) (current result : String) (overrides : List OverrideConfig)
      → (apply_overrides y js engine current overrides).0 ≡ ok result
      → AllApplied engine current overrides result
  unfolding apply_overrides
  apply_overrides-AllApplied engine current result [] h = ok-injective h
  apply_overrides-AllApplied engine current result (o ∷ overrides) h =
      let (next, engine', one, later) =
        continue-ok (apply_one y js o.format engine current o.content)
          (λ e c. apply_overrides y js e c overrides) result h in
      (
        next,
        engine',
        apply_one-IsApplied o.format engine current o.content next engine' one,
        apply_overrides-AllApplied engine' next result overrides later,
      )

  pub AllApplied-apply_overrides :
      (engine : Engine) (current result : String) (overrides : List OverrideConfig)
      → AllApplied engine current overrides result
      → (apply_overrides y js engine current overrides).0 ≡ ok result
  unfolding apply_overrides
  AllApplied-apply_overrides engine current result [] h = ap (λ c. ok c) h
  AllApplied-apply_overrides engine current result (o ∷ overrides) (next, engine', one, later) =
      rw (IsApplied-apply_one o.format engine current o.content next engine' one)
        (AllApplied-apply_overrides engine' next result overrides later)
