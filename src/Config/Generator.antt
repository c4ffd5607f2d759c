-- ===== src/Config/Generator.antt =====
-- native/hub/src/molecules/clash_config/generator.rs: the runtime configuration of the core, from
-- the base configuration, the overrides and the parameters. The summary in the log is left out.
pub mod Pipeline
use stelliberty_m.Base.{String, Bool, true, false, List, [], ◌∷◌, Result, ok, err, ◌>>=◌, map_err}
use stelliberty_m.Yaml.{Yaml}
use stelliberty_m.Override.Script.{Scripting}
use stelliberty_m.Override.Processor
use stelliberty_m.Override.Processor.{OverrideConfig}
use stelliberty_m.Config.Params.{RuntimeConfigParams}
use stelliberty_m.Config.Injector.{Build, inject_runtime_params}

pub record GenerateRuntimeConfigRequest : Type 0 where
  pub request_id : String
  pub base_config_content : String
  pub overrides : List OverrideConfig
  pub runtime_params : RuntimeConfigParams

pub record GenerateRuntimeConfigResponse : Type 0 where
  pub request_id : String
  pub is_successful : Bool
  pub result_config : String
  pub error_message : String

module _ (y : Yaml) (js : Scripting) (b : Build) where
  -- Without overrides no processor is made.
  unfoldable pub override_config : String → List OverrideConfig → Result String
  override_config base_content [] = ok base_content
  override_config base_content (o ∷ overrides) = do
    engine ← map_err "初始化覆写处理器失败：" (Processor.new y js)
    (Processor.apply_overrides y js engine base_content (o ∷ overrides)).0

  unfoldable pub generate_runtime_config_internal :
      String → List OverrideConfig → RuntimeConfigParams → Result String
  unfolding override_config
  generate_runtime_config_internal base_content overrides params = do
    config_after_override ← override_config base_content overrides
    inject_runtime_params y b config_after_override params

  respond : String → Result String → GenerateRuntimeConfigResponse
  respond id (ok config) = record {
    request_id = id;
    is_successful = true;
    result_config = config;
    error_message = "";
  }
  respond id (err e) = record {
    request_id = id;
    is_successful = false;
    result_config = "";
    error_message = e;
  }

  -- `GenerateRuntimeConfigRequest::handle`.
  unfoldable pub handle : GenerateRuntimeConfigRequest → GenerateRuntimeConfigResponse
  unfolding respond generate_runtime_config_internal
  handle request = respond request.request_id (
      generate_runtime_config_internal request.base_config_content request.overrides
        request.runtime_params)
