-- ===== src/SystemProxy/Tests.antt =====
-- Runs of the code for the system's proxy, and of the theorems on it, on a small system.
use Prim.Native.String
use stelliberty_m.Base.{
  ◌≡◌, ◌≢◌, refl, ◌↔◌, ◌⊎◌, inl, inr, String, true, List, [], ◌∷◌, some, Result, ok, err,
  Bool-cases, ◌==◌, eq_refl, eq_iff, if◌then◌else◌,
}
use stelliberty_m.SystemProxy.{EnableSystemProxy, success, enabled_proxy_info}
use stelliberty_m.SystemProxy.Commands.{Output, Run}
use stelliberty_m.SystemProxy.Linux.{
  Environment, kioslaverc_path, quote_variant_string, kreadconfig_command, enable_proxy_kde,
}
use stelliberty_m.SystemProxy.Linux.Requests.{enable_proxy, get_proxy_info_kde}
use stelliberty_m.SystemProxy.Linux.Requests.Applied.{
  by_kde, by_gsettings, by_dconf, enable_proxy_iff,
}
use stelliberty_m.SystemProxy.Linux.Requests.Kde.{printed, Keeps, enable_proxy_kde-get_proxy_info}

abbrev env : Environment
env = record { desktop = "KDE"; home = some "/home/u"; show = λ n. "7890" }

abbrev Settings : Type 0
Settings = String → String

-- A write has seven words, a read six, and the question for help one.
abbrev answer : List String → Settings → Result Output × Settings
answer (a ∷ b ∷ c ∷ d ∷ e ∷ key ∷ v ∷ []) w = (ok (printed ""), λ k. if k == key then v else w k)
answer (a ∷ b ∷ c ∷ d ∷ e ∷ key ∷ []) w = (ok (printed (String.◌++◌ (w key) "\n")), w)
answer (a ∷ []) w = (ok (printed ""), w)
answer other w = (err "unknown", w)

abbrev system : Run Settings
system command args w = answer args w

abbrev other_key : (w : Settings) (key v k : String) → k ≢ key → (if k == key then v else w k) ≡ w k
other_key w key v k n = elim (Bool-cases (k == key)) [
  | inl e ↦ elim (n ((eq_iff k key).0 e)) [ ]
  | inr e ↦ rw e refl
]

kde_found : (w : Settings) → kreadconfig_command system env w ≡ (some "kreadconfig6", w)
unfolding kreadconfig_command
kde_found w = refl

path_run : kioslaverc_path env ≡ ok "/home/u/.config/kioslaverc"
unfolding kioslaverc_path
path_run = refl

same_key : (w : Settings) (key v : String) → (if key == key then v else w key) ≡ v
same_key w key v = rw (eq_refl key) refl

system-Keeps : Keeps system env "kwriteconfig6" "kreadconfig6" "/home/u/.config/kioslaverc"
system-Keeps = record {
  value = λ w k. w k;
  stored = λ w key v k. if k == key then v else w k;
  written = λ w key v. refl;
  read = λ w key. refl;
  same = same_key;
  others = other_key;
  found = kde_found;
  path_is = path_run;
}

abbrev empty : Settings
empty k = ""

enable_proxy_kde-get_proxy_info_example :
    let (result, w') = enable_proxy_kde system env "kwriteconfig6" "127.0.0.1" 7890 [] empty in
    (result ≡ ok tt) × ((get_proxy_info_kde system env w').0 ≡ enabled_proxy_info "127.0.0.1:7890")
enable_proxy_kde-get_proxy_info_example =
    enable_proxy_kde-get_proxy_info system env "kwriteconfig6" "kreadconfig6"
      "/home/u/.config/kioslaverc" system-Keeps "127.0.0.1" 7890 [] empty refl refl

-- A quote is escaped, and stays so where the setting is read.
quoted_run : quote_variant_string "a'b" ≡ "'a\\'b'"
unfolding quote_variant_string stelliberty_m.Override.Script.replace_char
quoted_run = refl

abbrev request : EnableSystemProxy
request = record {
  host = "127.0.0.1";
  port = 7890;
  bypass_domains = "localhost" ∷ [];
  should_use_pac_mode = true;
  pac_script = "function FindProxyForURL() {}";
  pac_file_path = "/tmp/proxy.pac";
}

enable_proxy_iff_example : ((enable_proxy system env request empty).0 ≡ success) ↔ (
    ((by_kde system env request empty).0 ≡ some (ok tt))
    ⊎ ((by_gsettings system env request empty).0 ≡ ok tt)
    ⊎ ((by_dconf system env request empty).0 ≡ ok tt))
enable_proxy_iff_example = enable_proxy_iff system env request empty
