-- ===== src/Override/Processor/Order.antt =====
-- processor.rs: the order of the overrides, and runs without scripts.
use stelliberty_m.Base.{
  ◌≡◌, refl, sym, ◌∙◌, String, List, [], ◌∷◌, ◌++◌, Result, ok, err, ◌>>=◌, map_err, All,
}
use stelliberty_m.Yaml.{Yaml}
use stelliberty_m.Override.Merge
use stelliberty_m.Override.Script.{Scripting}
use stelliberty_m.Override.Processor.{yaml, OverrideConfig, apply_one, continue, apply_overrides}

module _ (y : Yaml) (js : Scripting) where
  open js use {Engine}

  continue_assoc :
      (r : Result String × Engine) (f g : Engine → String → Result String × Engine)
      → continue y js (continue y js r f) g ≡ continue y js r (λ e c. continue y js (f e c) g)
  continue_assoc (ok c, engine) f g = refl
  continue_assoc (err e, engine) f g = refl

  continue_ext :
      (r : Result String × Engine) {f g : Engine → String → Result String × Engine}
      → ((e : Engine) (c : String) → f e c ≡ g e c)
      → continue y js r f ≡ continue y js r g
  continue_ext (ok c, engine) h = h engine c
  continue_ext (err e, engine) h = refl

  -- Two lists of overrides in a row: the second starts with the engine and the text that the first
  -- leaves, and does not run if the first fails.
  pub apply_overrides-append :
      (engine : Engine) (current : String) (xs ys : List OverrideConfig)
      → apply_overrides y js engine current (xs ++ ys)
        ≡ continue y js
            (apply_overrides y js engine current xs)
            (λ engine' next. apply_overrides y js engine' next ys)
  unfolding apply_overrides
  apply_overrides-append engine current [] ys = refl
  apply_overrides-append engine current (o ∷ xs) ys =
      continue_ext (apply_one y js o.format engine current o.content)
        (λ e c. apply_overrides-append e c xs ys)
      ∙ sym (continue_assoc (apply_one y js o.format engine current o.content) _ _)

  -- The YAML overrides alone, as a chain of merges.
  abbrev pub merge_all : String → List OverrideConfig → Result String
  merge_all current [] = ok current
  merge_all current (o ∷ overrides) = do
    next ← map_err "YAML 覆写失败：" (Merge.apply y current o.content)
    merge_all next overrides

  merge_step :
      (r : Result String) (engine : Engine) (f : Engine → String → Result String × Engine)
      (g : String → Result String)
      → ((c : String) → f engine c ≡ (g c, engine))
      → continue y js (r, engine) f ≡ (r >>= g, engine)
  merge_step (ok c) engine f g h = h c
  merge_step (err e) engine f g h = refl

  -- Overrides that are all YAML run no script, and their result is the chain of merges.
  pub apply_overrides-yaml :
      (engine : Engine) (current : String) (xs : List OverrideConfig)
      → All (λ o. o.format ≡ yaml) xs
      → apply_overrides y js engine current xs ≡ (merge_all current xs, engine)
  unfolding apply_overrides apply_one
  apply_overrides-yaml engine current [] a = refl
  apply_overrides-yaml engine current (o ∷ xs) (e, a) =
      rw (e, apply_one) (merge_step _ engine _ _ (λ next. apply_overrides-yaml engine next xs a))
