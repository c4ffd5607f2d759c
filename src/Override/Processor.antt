-- ===== src/Override/Processor.antt =====
-- native/hub/src/atoms/override_processor/processor.rs and native/hub/src/atoms/shared_types.rs:
-- the overrides of a configuration, applied one after the other.
pub mod Applied
pub mod Order
use stelliberty_m.Base.{String, List, [], ◌∷◌, Result, ok, err, ◌>>=◌, map_err}
use stelliberty_m.Yaml.{Yaml}
use stelliberty_m.Override.Merge
use stelliberty_m.Override.Script
use stelliberty_m.Override.Script.{Scripting}

pub data OverrideFormat : Type 0 where
  yaml javascript : OverrideFormat

pub record OverrideConfig : Type 0 where
  pub id : String
  pub name : String
  pub format : OverrideFormat
  pub content : String

module _ (y : Yaml) (js : Scripting) where
  open js use {Engine}

  -- `OverrideProcessor::new`: the YAML merger has no state, so the engine is the processor.
  unfoldable pub new : Result Engine
  new = map_err "初始化 JavaScript 引擎失败：" js.new_engine

  abbrev pub with_prefix : String → Result String × Engine → Result String × Engine
  with_prefix prefix (r, engine) = (map_err prefix r, engine)

  -- The `match` on the format.
  unfoldable pub apply_one : OverrideFormat → Engine → String → String → Result String × Engine
  apply_one yaml engine current content =
      (map_err "YAML 覆写失败：" (Merge.apply y current content), engine)
  apply_one javascript engine current content =
      with_prefix "JavaScript 覆写失败：" (Script.apply y js engine current content)

  -- The `?` behind an override: an error ends the loop.
  abbrev pub continue :
      Result String × Engine → (Engine → String → Result String × Engine) → Result String × Engine
  continue (err e, engine) rest = (err e, engine)
  continue (ok current, engine) rest = rest engine current

  unfoldable pub apply_overrides : Engine → String → List OverrideConfig → Result String × Engine
  apply_overrides engine current [] = (ok current, engine)
  apply_overrides engine current (o ∷ overrides) =
      continue (apply_one o.format engine current o.content)
        (λ engine' next. apply_overrides engine' next overrides)
