-- ===== src/Override/Script.antt =====
-- native/hub/src/atoms/override_processor/js_executor.rs on the desktop platforms: the base
-- configuration becomes JSON, is put into a script as a quoted text, the script runs, and its
-- result becomes YAML. `serde_json` and QuickJS are the fields of `Scripting`; an engine keeps its
-- state from one script to the next.
pub mod Literal
use Prim.Native.Char.{code}
use Prim.Native.String
use Prim.Native.String.{String, [], ◌∷◌}
use stelliberty_m.Base.{ℕ, Result, ok, err, ◌>>=◌, map_err, eqb, if◌then◌else◌}
use stelliberty_m.Yaml.{Value, Yaml}

pub record Scripting : Type 1 where
  pub Json : Type 0
  pub Engine : Type 0
  pub new_engine : Result Engine
  pub to_value : Value → Result Json
  pub to_string : Json → Result String
  pub from_str : String → Result Json
  pub from_value : Json → Result Value
  pub eval : Engine → String → Result String × Engine

-- `str::replace(char, &str)`.
unfoldable pub replace_char : ℕ → String → String → String
replace_char k new [] = []
replace_char k new (c ∷ s) =
    let rest = replace_char k new s in if eqb (code c) k then String.◌++◌ new rest else (c ∷ rest)

-- Backslashes first, then single quotes.
unfoldable pub escape : String → String
unfolding replace_char
escape config_json = replace_char b'\'' "\\'" (replace_char b'\\' "\\\\" config_json)

abbrev script_head : String
script_head =
    "\n            (function() {\n                // 用户的覆写代码（定义 main 函数）\n                "

abbrev script_middle : String
script_middle =
    "\n\n                // 初始化配置对象（从基础配置的 JSON）\n                var config = JSON.parse('"

abbrev script_tail : String
script_tail =
    "');\n\n                // 调用 main 函数并传入配置\n                if (typeof main === 'function') {\n                    config = main(config);\n                } else {\n                    throw new Error('覆写脚本必须定义 main(config) 函数');\n                }\n\n                // 返回修改后的配置\n                return JSON.stringify(config);\n            })()\n            "

full_js_code : String → String → String
full_js_code js_code config_json =
    String.◌++◌ script_head (
      String.◌++◌ js_code
        (String.◌++◌ script_middle (String.◌++◌ (escape config_json) script_tail)))

module _ (y : Yaml) (js : Scripting) where
  open js use {Engine, eval}

  -- Steps 1 and 2: the script to run.
  unfoldable pub prepare : String → String → Result String
  unfolding full_js_code
  prepare base_content js_code = do
    yaml_val ← map_err "解析配置失败：" (y.from_str base_content)
    json_val ← map_err "转换为 JSON 失败：" (js.to_value yaml_val)
    config_json ← map_err "序列化 JSON 失败：" (js.to_string json_val)
    ok (full_js_code js_code config_json)

  -- Step 4: the script's result as YAML.
  unfoldable pub finish : Result String → Result String
  finish run = do
    result_str ← map_err "JavaScript 执行失败：" run
    json_result ← map_err "解析 JavaScript 结果失败：" (js.from_str result_str)
    yaml_result ← map_err "转换为 YAML 失败：" (js.from_value json_result)
    map_err "序列化 YAML 失败：" (y.to_string yaml_result)

  run_script : Engine → Result String → Result String × Engine
  run_script engine (err e) = (err e, engine)
  run_script engine (ok code) = let (result, engine') = eval engine code in (finish result, engine')

  -- `JsExecutor::apply`.
  unfoldable pub apply : Engine → String → String → Result String × Engine
  unfolding prepare finish run_script
  apply engine base_content js_code = run_script engine (prepare base_content js_code)
