-- ===== src/SystemProxy/Linux/Requests/Kde.antt =====
-- manager.rs: the settings of KDE, written by one command and read back by another.
use Prim.Native.String
use stelliberty_m.Base.{
  ℕ, ◌≡◌, ◌≢◌, refl, sym, ap, ◌∙◌, String, true, false, List, [], ◌∷◌, some, ok, trim, trim_end_if,
  All, is_whitespace, ◌==◌, eq_refl,
}
use stelliberty_m.SystemProxy.{enabled_proxy_info}
use stelliberty_m.SystemProxy.Solid.{Solid}
use stelliberty_m.SystemProxy.Commands.{Output, next, Run, run_commands, read_command_output}
use stelliberty_m.SystemProxy.Commands.Works.{run_command-ok, read_command_output-ok}
use stelliberty_m.SystemProxy.Linux.{
  joined, Environment, kioslaverc_path, kde_key, kde_set, kde_value, kde_types, scheme_of,
  kreadconfig_command, enable_proxy_kde, with_config,
}
use stelliberty_m.SystemProxy.Linux.Stored.{kept, trim-kept, parse-kept}
use stelliberty_m.SystemProxy.Linux.Requests.{
  or_disabled, kde_info, read_kde, kde_by, get_proxy_info_kde,
}

abbrev pub printed : String → Output
printed stdout = record { success = true; code = "Some(0)"; stdout = stdout; stderr = "" }

-- The two commands work on one file: what is written under a key is read under it, with a line feed behind
-- it, and no other key changes.
pub record Keeps {W : Type 0} (run : Run W) (env : Environment) (writes reads config_file : String)
    : Type 0 where
  pub value : W → String → String
  pub stored : W → String → String → W
  pub written :
      (w : W) (key v : String)
      → run writes (kde_set config_file key v) w ≡ (ok (printed ""), stored w key v)
  pub read :
      (w : W) (key : String)
      → run reads (kde_key config_file key) w ≡ (ok (printed (String.◌++◌ (value w key) "\n")), w)
  pub same : (w : W) (key v : String) → value (stored w key v) key ≡ v
  pub others : (w : W) (key v k : String) → k ≢ key → value (stored w key v) k ≡ value w k
  pub found : (w : W) → kreadconfig_command run env w ≡ (some reads, w)
  pub path_is : kioslaverc_path env ≡ ok config_file

differ : (a b : String) → (a == b) ≡ false → a ≢ b
differ a b f h = let t = sym (eq_refl a) ∙ ap (λ x. a == x) h in cc

module _ {W : Type 0} (run : Run W) (env : Environment) (writes reads config_file : String)
    (keeps : Keeps run env writes reads config_file) where
  store_all : List (String × String) → W → W
  store_all [] w = w
  store_all ((key, v) ∷ more) w = store_all more (keeps.stored w key v)

  sets : List (String × String) → List (List String)
  sets [] = []
  sets ((key, v) ∷ more) = kde_set config_file key v ∷ sets more

  run_commands-sets :
      (entries : List (String × String)) (w : W)
      → run_commands run writes (sets entries) w ≡ (ok tt, store_all entries w)
  unfolding run_commands sets store_all
  run_commands-sets [] w = refl
  run_commands-sets ((key, v) ∷ more) w =
      let later = keeps.stored w key v in
      ap (next (λ done v'. run_commands run writes (sets more) v')) (
        run_command-ok run writes (kde_set config_file key v) w later (printed "")
          (keeps.written w key v) refl)
      ∙ run_commands-sets more later

  entries_of : String → String → String → List (String × String)
  entries_of bypass host port =
      ("ProxyType", "1")
      ∷ ("NoProxyFor", bypass)
      ∷ ("httpProxy", kept host port)
      ∷ ("httpsProxy", kept host port)
      ∷ ("socksProxy", kde_value "socks" host port)
      ∷ []

  enable-stores :
      (host : String) (port : ℕ) (bypass_domains : List String) (w : W)
      → enable_proxy_kde run env writes host port bypass_domains w
        ≡ (ok tt, store_all (entries_of (joined "," bypass_domains) host (env.show port)) w)
  unfolding enable_proxy_kde with_config kde_types scheme_of sets entries_of
  enable-stores host port bypass_domains w =
      rw keeps.path_is
        (run_commands-sets (entries_of (joined "," bypass_domains) host (env.show port)) w)

  read-printed :
      (w : W) (key : String)
      → read_command_output run reads (kde_key config_file key) w
        ≡ (ok (trim (String.◌++◌ (keeps.value w key) "\n")), w)
  read-printed w key =
      read_command_output-ok run reads (kde_key config_file key) w w
        (printed (String.◌++◌ (keeps.value w key) "\n")) (keeps.read w key) refl

  -- A key that none of the entries has, and one that is followed by such entries.
  value-skipped :
      (entries : List (String × String)) (k : String) (w : W)
      → All (λ e. k ≢ e.0) entries
      → keeps.value (store_all entries w) k ≡ keeps.value w k
  unfolding store_all
  value-skipped [] k w none_of = refl
  value-skipped ((key, v) ∷ more) k w (here, later) =
      value-skipped more k (keeps.stored w key v) later ∙ keeps.others w key v k here

  value-type :
      (bypass host port : String) (w : W)
      → keeps.value (store_all (entries_of bypass host port) w) "ProxyType" ≡ "1"
  unfolding store_all entries_of
  value-type bypass host port w =
      value-skipped
        (("NoProxyFor", bypass)
          ∷ ("httpProxy", kept host port)
          ∷ ("httpsProxy", kept host port)
          ∷ ("socksProxy", kde_value "socks" host port)
          ∷ [])
        "ProxyType" (keeps.stored w "ProxyType" "1")
        (
          differ "ProxyType" "NoProxyFor" refl,
          (
            differ "ProxyType" "httpProxy" refl,
            (differ "ProxyType" "httpsProxy" refl, (differ "ProxyType" "socksProxy" refl, tt)),
          ),
        )
      ∙ keeps.same w "ProxyType" "1"

  value-http :
      (bypass host port : String) (w : W)
      → keeps.value (store_all (entries_of bypass host port) w) "httpProxy" ≡ kept host port
  unfolding store_all entries_of
  value-http bypass host port w =
      let w₂ = keeps.stored (keeps.stored w "ProxyType" "1") "NoProxyFor" bypass in
      value-skipped
        (("httpsProxy", kept host port) ∷ ("socksProxy", kde_value "socks" host port) ∷ [])
        "httpProxy" (keeps.stored w₂ "httpProxy" (kept host port))
        (differ "httpProxy" "httpsProxy" refl, (differ "httpProxy" "socksProxy" refl, tt))
      ∙ keeps.same w₂ "httpProxy" (kept host port)

  trim-one : trim (String.◌++◌ "1" "\n") ≡ "1"
  unfolding trim
  trim-one = refl

  trim-feed : trim_end_if is_whitespace "\n" ≡ ""
  unfolding trim_end_if
  trim-feed = refl

  get-stored :
      (host port : String) (w : W)
      → Solid host
      → Solid port
      → keeps.value w "ProxyType" ≡ "1"
      → keeps.value w "httpProxy" ≡ kept host port
      → (get_proxy_info_kde run env w).0
        ≡ enabled_proxy_info (String.◌++◌ host (String.◌++◌ ":" port))
  unfolding get_proxy_info_kde kde_by read_kde or_disabled kde_info
  get-stored host port w h k type_is http_is =
      let type_read =
        read-printed w "ProxyType"
        ∙ ap (λ v. (ok (trim (String.◌++◌ v "\n")), w)) type_is
        ∙ ap (λ v. (ok v, w)) trim-one in
      let http_read =
        read-printed w "httpProxy"
        ∙ ap (λ v. (ok (trim (String.◌++◌ v "\n")), w)) http_is
        ∙ ap (λ v. (ok v, w)) (trim-kept host port "\n" k trim-feed) in
      rw (keeps.found w, keeps.path_is, type_read, http_read, parse-kept host port h k) refl

  -- Where the commands of KDE keep what they are given: a proxy set for a host and a port without blanks
  -- in them is reported as set, with that host and port, whatever was set before.
  pub enable_proxy_kde-get_proxy_info :
      (host : String) (port : ℕ) (bypass_domains : List String) (w : W)
      → Solid host
      → Solid (env.show port)
      → let (result, w') = enable_proxy_kde run env writes host port bypass_domains w in
        (result ≡ ok tt)
        × ((get_proxy_info_kde run env w').0
            ≡ enabled_proxy_info (String.◌++◌ host (String.◌++◌ ":" (env.show port))))
  enable_proxy_kde-get_proxy_info host port bypass_domains w h k =
      let entries = entries_of (joined "," bypass_domains) host (env.show port) in
      let stores = enable-stores host port bypass_domains w in
      let w' = store_all entries w in
      (
        ap (λ x. x.0) stores,
        ap (λ x. (get_proxy_info_kde run env x.1).0) stores
            ∙ get-stored host (env.show port) w' h k
                (value-type (joined "," bypass_domains) host (env.show port) w)
                (value-http (joined "," bypass_domains) host (env.show port) w),
      )
