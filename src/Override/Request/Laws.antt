-- ===== src/Override/Request/Laws.antt =====
-- molecules/overrides/processor.rs: what a response says of the run.
use stelliberty_m.Base.{◌≡◌, refl, String, true, Result, ok, err}
use stelliberty_m.Yaml.{Yaml}
use stelliberty_m.Override.Script.{Scripting}
use stelliberty_m.Override.Processor
use stelliberty_m.Override.Processor.Applied.{
  AllApplied, apply_overrides-AllApplied, AllApplied-apply_overrides,
}
use stelliberty_m.Override.Request.{ApplyOverridesRequest, respond, parsed, started, handle_apply}

module _ (y : Yaml) (js : Scripting) (parse_subscription : String → Result String) where
  open js use {Engine}

  -- How a run went: the engine, the parsed configuration and the result.
  pub record Succeeds (request : ApplyOverridesRequest) (result : String) : Type 0 where
    pub engine : Engine
    pub started_ok : Processor.new y js ≡ ok engine
    pub config : String
    pub parsed_ok : parse_subscription request.base_config_content ≡ ok config
    pub applied : AllApplied y js engine config request.overrides result

  -- A run that succeeds is answered with its result and no error.
  pub handle_apply_of_Succeeds :
      (request : ApplyOverridesRequest) (result : String)
      → Succeeds request result
      → ((handle_apply y js parse_subscription request).is_successful ≡ true)
        × ((handle_apply y js parse_subscription request).result_config ≡ result)
        × ((handle_apply y js parse_subscription request).error_message ≡ "")
  unfolding handle_apply
  handle_apply_of_Succeeds request result s =
      rw
        (
          s.started_ok,
          s.parsed_ok,
          AllApplied-apply_overrides y js s.engine s.config result request.overrides s.applied,
        )
        (refl, refl, refl)

  respond-Succeeds :
      (request : ApplyOverridesRequest) (engine : Engine) (config : String) (r : Result String)
      → Processor.new y js ≡ ok engine
      → parse_subscription request.base_config_content ≡ ok config
      → (Processor.apply_overrides y js engine config request.overrides).0 ≡ r
      → (respond y js parse_subscription request.request_id r).is_successful ≡ true
      → Succeeds request (respond y js parse_subscription request.request_id r).result_config
  unfolding respond
  respond-Succeeds request engine config (err e) n p a h = cc
  respond-Succeeds request engine config (ok r) n p a h = record {
    engine = engine;
    started_ok = n;
    config = config;
    parsed_ok = p;
    applied = apply_overrides-AllApplied y js engine config r request.overrides a;
  }

  parsed-Succeeds :
      (request : ApplyOverridesRequest) (engine : Engine) (c : Result String)
      → Processor.new y js ≡ ok engine
      → parse_subscription request.base_config_content ≡ c
      → (parsed y js parse_subscription request engine c).is_successful ≡ true
      → Succeeds request (parsed y js parse_subscription request engine c).result_config
  unfolding parsed
  parsed-Succeeds request engine (err e) n p h = cc
  parsed-Succeeds request engine (ok config) n p h =
      respond-Succeeds request engine config _ n p refl h

  started-Succeeds :
      (request : ApplyOverridesRequest) (n : Result Engine)
      → Processor.new y js ≡ n
      → (started y js parse_subscription request n).is_successful ≡ true
      → Succeeds request (started y js parse_subscription request n).result_config
  unfolding started
  started-Succeeds request (err e) n h = cc
  started-Succeeds request (ok engine) n h = parsed-Succeeds request engine _ n refl h

  -- An answer that says "successful" comes from a run that made an engine, parsed the configuration and
  -- applied every override, in the order of the list, each to what the one before it left, and the
  -- answer carries the text behind the last one.
  pub handle_apply-Succeeds :
      (request : ApplyOverridesRequest)
      → (handle_apply y js parse_subscription request).is_successful ≡ true
      → Succeeds request (handle_apply y js parse_subscription request).result_config
  unfolding handle_apply
  handle_apply-Succeeds request h = started-Succeeds request _ refl h
