-- ===== src/Override/Request.antt =====
-- native/hub/src/molecules/overrides/processor.rs: the requests that apply overrides and that
-- parse a subscription. A handler is the response that it sends. The subscription parser
-- (native/hub/src/atoms/proxy_parser/parser.rs) is an argument here.
pub mod Laws
use Prim.Native.String
use stelliberty_m.Base.{String, Bool, true, false, List, [], ◌∷◌, Result, ok, err}
use stelliberty_m.Yaml.{Yaml}
use stelliberty_m.Override.Script.{Scripting}
use stelliberty_m.Override.Processor
use stelliberty_m.Override.Processor.{OverrideConfig}

pub record ApplyOverridesRequest : Type 0 where
  pub request_id : String
  pub base_config_content : String
  pub overrides : List OverrideConfig

pub record ApplyOverridesResponse : Type 0 where
  pub request_id : String
  pub is_successful : Bool
  pub result_config : String
  pub error_message : String
  pub logs : List String

pub record ParseSubscriptionRequest : Type 0 where
  pub request_id : String
  pub content : String

pub record ParseSubscriptionResponse : Type 0 where
  pub request_id : String
  pub is_successful : Bool
  pub parsed_config : String
  pub error_message : String

abbrev failed : String → String → ApplyOverridesResponse
failed id message = record {
  request_id = id;
  is_successful = false;
  result_config = "";
  error_message = message;
  logs = [];
}

module _ (y : Yaml) (js : Scripting) (parse_subscription : String → Result String) where
  open js use {Engine}

  respond : String → Result String → ApplyOverridesResponse
  respond id (ok result) = record {
    request_id = id;
    is_successful = true;
    result_config = result;
    error_message = "";
    logs = "处理成功" ∷ [];
  }
  respond id (err e) = failed id e

  -- The configuration is parsed once the processor is there.
  parsed : ApplyOverridesRequest → Engine → Result String → ApplyOverridesResponse
  parsed request engine (err e) = failed request.request_id (String.◌++◌ "订阅解析失败：" e)
  parsed request engine (ok config) =
      respond request.request_id (Processor.apply_overrides y js engine config request.overrides).0

  started : ApplyOverridesRequest → Result Engine → ApplyOverridesResponse
  started request (err e) = failed request.request_id (String.◌++◌ "初始化处理器失败：" e)
  started request (ok engine) =
      parsed request engine (parse_subscription request.base_config_content)

  -- `ApplyOverridesRequest::handle`.
  unfoldable pub handle_apply : ApplyOverridesRequest → ApplyOverridesResponse
  unfolding respond parsed started
  handle_apply request = started request (Processor.new y js)

  respond_parsed : String → Result String → ParseSubscriptionResponse
  respond_parsed id (ok config) = record {
    request_id = id;
    is_successful = true;
    parsed_config = config;
    error_message = "";
  }
  respond_parsed id (err e) = record {
    request_id = id;
    is_successful = false;
    parsed_config = "";
    error_message = e;
  }

  -- `ParseSubscriptionRequest::handle`.
  unfoldable pub handle_parse : ParseSubscriptionRequest → ParseSubscriptionResponse
  unfolding respond_parsed
  handle_parse request = respond_parsed request.request_id (parse_subscription request.content)
