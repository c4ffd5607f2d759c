-- ===== src/SystemProxy/Linux.antt =====
-- manager.rs: the proxy settings of Linux, by kwriteconfig, gsettings and dconf.
pub mod Requests
pub mod Stored
use Prim.Native.String
use stelliberty_m.Base.{
  ℕ, String, Bool, true, false, not, List, [], ◌∷◌, ◌++◌, map, Option, none, some, Result, ok, err,
  eqb, is_empty, contains, trim, trim_start_if, trim_end_if, strip_text, split_whitespace, ◌==◌,
  if◌then◌else◌,
}
use stelliberty_m.Override.Script.{replace_char}
use stelliberty_m.SystemProxy.{
  EnableSystemProxy, ProxyResult, success, error, ProxyInfo, disabled_proxy_info,
  enabled_proxy_info, Platform,
}
use stelliberty_m.SystemProxy.Commands.{
  Output, Act, ◌>>=◌, next, pure, Run, run_command, run_commands, read_command_output,
}

abbrev pub joined : String → List String → String
joined separator [] = ""
joined separator (s ∷ []) = s
joined separator (s ∷ t ∷ more) =
    String.◌++◌ s (String.◌++◌ separator (joined separator (t ∷ more)))

abbrev proxy_types : List String
proxy_types = "http" ∷ "https" ∷ "socks" ∷ []

unfoldable pub quote_variant_string : String → String
quote_variant_string value =
    String.◌++◌ "'" (String.◌++◌ (replace_char b'\'' "\\'" (replace_char b'\\' "\\\\" value)) "'")

unfoldable pub format_variant_string_list : List String → String
unfolding quote_variant_string
format_variant_string_list values =
    String.◌++◌ "[" (String.◌++◌ (joined ", " (map quote_variant_string values)) "]")

-- The environment: the desktop's name in capitals, and the home directory, if they are set.
pub record Environment : Type 0 where
  pub desktop : String
  pub home : Option String
  pub show : ℕ → String

unfoldable pub kioslaverc_path : Environment → Result String
kioslaverc_path env = path env.home
  where
    path : Option String → Result String
    path none = err "无法获取 HOME 环境变量"
    path (some home) = ok (String.◌++◌ home "/.config/kioslaverc")

abbrev pub kde_key : String → String → List String
kde_key config_file key = "--file" ∷ config_file ∷ "--group" ∷ "Proxy Settings" ∷ "--key" ∷ key ∷ []

abbrev pub kde_set : String → String → String → List String
kde_set config_file key value =
    "--file" ∷ config_file ∷ "--group" ∷ "Proxy Settings" ∷ "--key" ∷ key ∷ value ∷ []

abbrev pub kde_value : String → String → String → String
kde_value scheme host port =
    String.◌++◌ scheme (String.◌++◌ "://" (String.◌++◌ host (String.◌++◌ " " port)))

scheme_of : String → String
scheme_of proxy_type = if proxy_type == "socks" then "socks" else "http"

gnome_types : String → String → List String → List (List String)
gnome_types host port [] = []
gnome_types host port (proxy_type ∷ types) =
    let schema = String.◌++◌ "org.gnome.system.proxy." proxy_type in
    ("set" ∷ schema ∷ "host" ∷ host ∷ [])
    ∷ ("set" ∷ schema ∷ "port" ∷ port ∷ [])
    ∷ gnome_types host port types

dconf_types : String → String → List String → List (List String)
dconf_types host port [] = []
dconf_types host port (proxy_type ∷ types) =
    let path = String.◌++◌ "/system/proxy/" proxy_type in
    ("write" ∷ String.◌++◌ path "/host" ∷ host ∷ [])
    ∷ ("write" ∷ String.◌++◌ path "/port" ∷ port ∷ [])
    ∷ dconf_types host port types

kde_types : String → String → String → List String → List (List String)
kde_types config_file host port [] = []
kde_types config_file host port (proxy_type ∷ types) =
    kde_set config_file (String.◌++◌ proxy_type "Proxy")
      (kde_value (scheme_of proxy_type) host port)
    ∷ kde_types config_file host port types

without_scheme : Option String → Option String → Option String → String → String
without_scheme (some s) b c whole = s
without_scheme none (some s) c whole = s
without_scheme none none (some s) whole = s
without_scheme none none none whole = whole

parts_or : List String → String → String
parts_or (host ∷ port ∷ []) s = String.◌++◌ host (String.◌++◌ ":" port)
parts_or other s = s

kde_parts : String → String
unfolding parts_or split_whitespace
kde_parts s = parts_or (split_whitespace s) s

kde_server : String → String
unfolding without_scheme kde_parts trim strip_text
kde_server p = kde_parts (
    trim (
      without_scheme (strip_text "http://" p) (strip_text "https://" p) (strip_text "socks://" p)
        p))

parsed_kde : String → Option String
unfolding kde_server
parsed_kde p = if is_empty p then none else some (kde_server p)

unfoldable pub parse_kde_proxy_server : String → Option String
unfolding trim parsed_kde
parse_kde_proxy_server proxy = parsed_kde (trim proxy)

module _ {W : Type 0} (run : Run W) (env : Environment) where
  works : Result Output → Bool
  works (err e) = false
  works (ok o) = o.success

  found : Bool → String → W → (W → Option String × W) → Option String × W
  found true candidate w others = (some candidate, w)
  found false candidate w others = others w

  -- The first of the commands that answers `--help` with success.
  find_working_command : List String → W → Option String × W
  unfolding works found
  find_working_command [] w = (none, w)
  find_working_command (candidate ∷ more) w =
      let (r, w') = run candidate ("--help" ∷ []) w in
      found (works r) candidate w' (λ v. find_working_command more v)

  unfoldable pub kwriteconfig_command : W → Option String × W
  unfolding find_working_command
  kwriteconfig_command w = find_working_command ("kwriteconfig6" ∷ "kwriteconfig5" ∷ []) w

  unfoldable pub kreadconfig_command : W → Option String × W
  unfolding find_working_command
  kreadconfig_command w = find_working_command ("kreadconfig6" ∷ "kreadconfig5" ∷ []) w

  unfoldable pub enable_proxy_gsettings : String → ℕ → List String → Act W (Unit {0})
  unfolding quote_variant_string format_variant_string_list gnome_types run_commands
  enable_proxy_gsettings host port bypass_domains = run_commands run "gsettings" (
      ("set" ∷ "org.gnome.system.proxy" ∷ "mode" ∷ quote_variant_string "manual" ∷ [])
      ∷ ("set"
          ∷ "org.gnome.system.proxy"
          ∷ "ignore-hosts"
          ∷ format_variant_string_list bypass_domains
          ∷ [])
      ∷ gnome_types (quote_variant_string host) (env.show port) proxy_types)

  unfoldable pub enable_proxy_dconf : String → ℕ → List String → Act W (Unit {0})
  unfolding quote_variant_string format_variant_string_list dconf_types run_commands
  enable_proxy_dconf host port bypass_domains = run_commands run "dconf" (
      ("write" ∷ "/system/proxy/mode" ∷ quote_variant_string "manual" ∷ [])
      ∷ ("write" ∷ "/system/proxy/ignore-hosts" ∷ format_variant_string_list bypass_domains ∷ [])
      ∷ dconf_types (quote_variant_string host) (env.show port) proxy_types)

  with_config : Result String → (String → Act W (Unit {0})) → Act W (Unit {0})
  with_config (err e) rest w = (err e, w)
  with_config (ok config_file) rest w = rest config_file w

  unfoldable pub enable_proxy_kde : String → String → ℕ → List String → Act W (Unit {0})
  unfolding kioslaverc_path scheme_of kde_types with_config run_commands
  enable_proxy_kde command host port bypass_domains =
      with_config (kioslaverc_path env) (λ config_file. run_commands run command (
        kde_set config_file "ProxyType" "1"
        ∷ kde_set config_file "NoProxyFor" (joined "," bypass_domains)
        ∷ kde_types config_file host (env.show port) proxy_types))

  unfoldable pub disable_proxy_gsettings : Act W (Unit {0})
  unfolding quote_variant_string run_command
  disable_proxy_gsettings =
      run_command run "gsettings"
        ("set" ∷ "org.gnome.system.proxy" ∷ "mode" ∷ quote_variant_string "none" ∷ [])

  unfoldable pub disable_proxy_dconf : Act W (Unit {0})
  unfolding quote_variant_string run_command
  disable_proxy_dconf =
      run_command run "dconf" ("write" ∷ "/system/proxy/mode" ∷ quote_variant_string "none" ∷ [])

  unfoldable pub disable_proxy_kde : String → Act W (Unit {0})
  unfolding kioslaverc_path with_config run_command
  disable_proxy_kde command =
      with_config (kioslaverc_path env)
        (λ config_file. run_command run command (kde_set config_file "ProxyType" "0"))
