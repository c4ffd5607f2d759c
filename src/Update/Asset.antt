-- ===== src/Update/Asset.antt =====
-- app_update.rs: which file of a release is for this platform. `str::to_lowercase`, a table of
-- Unicode, is an argument; so are the target's names, which the build chooses.
pub mod Match
use stelliberty_m.Base.{
  String, Bool, true, false, not, ◌&&◌, ◌||◌, List, [], ◌∷◌, Option, none, some, if◌then◌else◌,
  ◌==◌, any, all, contains, ends_with,
}

pub record GitHubAsset : Type 0 where
  pub name : String
  pub browser_download_url : String

pub record PlatformMatchRules : Type 0 where
  pub file_extension : String
  pub platform_keywords : List String
  pub arch_keywords : List String
  pub required_keywords : List String
  pub excluded_keywords : List String

arm_keywords : List String
arm_keywords = "arm64" ∷ "aarch64" ∷ []

x64_keywords : List String
x64_keywords = "x64" ∷ "amd64" ∷ "x86_64" ∷ []

macos_keywords : List String
macos_keywords = "macos" ∷ "darwin" ∷ "osx" ∷ []

-- The rules of one platform and one kind of file; "debug" is always excluded.
rules_of : String → List String → List String → List String → PlatformMatchRules
rules_of extension platforms archs required = record {
  file_extension = extension;
  platform_keywords = platforms;
  arch_keywords = archs;
  required_keywords = required;
  excluded_keywords = "debug" ∷ [];
}

arch_of : String → List String
arch_of arch = if arch == "arm64" then arm_keywords else x64_keywords

portable_rules : String → String → Option PlatformMatchRules
portable_rules platform arch =
    if platform == "windows"
    then some (rules_of ".zip" ("win" ∷ "windows" ∷ []) (arch_of arch) [])
    else (if platform == "linux"
        then some (rules_of ".zip" ("linux" ∷ []) (arch_of arch) [])
        else (if platform == "macos"
            then some (rules_of ".zip" macos_keywords (arch_of arch) [])
            else none))

installer_rules : String → String → Option PlatformMatchRules
installer_rules platform arch =
    if platform == "windows"
    then some (rules_of ".exe" ("win" ∷ "windows" ∷ []) (arch_of arch) ("setup" ∷ []))
    else (if platform == "linux"
        then some (rules_of ".appimage" ("linux" ∷ []) (arch_of arch) [])
        else (if platform == "macos"
            then some (
                rules_of ".dmg" macos_keywords
                  (if arch == "arm64"
                    then "arm64" ∷ "aarch64" ∷ "apple-silicon" ∷ []
                    else "x64" ∷ "intel" ∷ "amd64" ∷ [])
                  [])
            else (if platform == "android"
                then some (rules_of ".apk" ("android" ∷ []) [] [])
                else none)))

unfoldable pub get_platform_match_rules : String → String → Bool → Option PlatformMatchRules
unfolding arm_keywords x64_keywords macos_keywords rules_of arch_of portable_rules installer_rules
get_platform_match_rules platform arch is_portable =
    if is_portable && (platform == "windows" || platform == "linux" || platform == "macos")
    then portable_rules platform arch
    else installer_rules platform arch

abbrev pub none_given : List String → Bool
none_given [] = true
none_given (k ∷ ks) = false

-- All conditions on the lower-case name of a file.
unfoldable pub is_match : PlatformMatchRules → String → Bool
unfolding contains ends_with
is_match rules name_lower =
    ends_with name_lower rules.file_extension
    && any (λ k. contains name_lower k) rules.platform_keywords
    && (none_given rules.arch_keywords || any (λ k. contains name_lower k) rules.arch_keywords)
    && (none_given rules.required_keywords
        || all (λ k. contains name_lower k) rules.required_keywords)
    && (none_given rules.excluded_keywords
        || all (λ k. not (contains name_lower k)) rules.excluded_keywords)

module _ (to_lowercase : String → String) where
  unfoldable pub find_match : PlatformMatchRules → List GitHubAsset → Option String
  unfolding is_match
  find_match rules [] = none
  find_match rules (asset ∷ assets) =
      let rest = find_match rules assets in
      if is_match rules (to_lowercase asset.name) then some asset.browser_download_url else rest

  with_rules : List GitHubAsset → Option PlatformMatchRules → Option String
  with_rules assets none = none
  with_rules assets (some rules) = find_match rules assets

  unfoldable pub find_matching_asset : List GitHubAsset → String → String → Bool → Option String
  unfolding get_platform_match_rules find_match with_rules
  find_matching_asset assets platform arch is_portable =
      with_rules assets (get_platform_match_rules platform arch is_portable)
