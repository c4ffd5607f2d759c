-- ===== src/Backup/Content.antt =====
-- backup.rs: what a backup holds, and the formats that it is written in, as a parameter.
use stelliberty_m.Base.{String, List, [], ◌∷◌, Option, none, some, Result, if◌then◌else◌, ◌==◌}
use stelliberty_m.Subscription.Json.{JsonValue}
use stelliberty_m.Backup.Disk.{Bytes, Place}

-- A `HashMap` with texts as keys; its order is that of the list.
abbrev pub Map : Type 0 → Type 0
Map A = List (String × A)

unfoldable pub get : {A : Type 0} → String → Map A → Option A
get j [] = none
get j ((k, v) ∷ m) = if k == j then some v else get j m

unfoldable pub remove : {A : Type 0} → String → Map A → Map A
remove k [] = []
remove k ((j, w) ∷ m) = let rest = remove k m in if j == k then rest else (j, w) ∷ rest

abbrev pub insert : {A : Type 0} → String → A → Map A → Map A
insert k v m = (k, v) ∷ remove k m

abbrev pub Prefs : Type 0
Prefs = Map JsonValue

pub record SubscriptionBackup : Type 0 where
  pub list : Option String
  pub configs : Map String

pub record OverrideBackup : Type 0 where
  pub list : Option String
  pub files : Map String

pub record BackupContent : Type 0 where
  pub app_preferences : Prefs
  pub clash_preferences : Prefs
  pub subscriptions : SubscriptionBackup
  pub overrides : OverrideBackup
  pub dns_config : Option String
  pub pac_file : Option String

pub record BackupData : Type 0 where
  pub version : String
  pub timestamp : String
  pub app_version : String
  pub platform : String
  pub content : BackupContent

pub record BackupPaths : Type 0 where
  pub preferences_path : Place
  pub subscriptions_dir : String
  pub subscriptions_list_path : Place
  pub overrides_dir : String
  pub overrides_list_path : Place
  pub dns_config_path : Place
  pub pac_file_path : Place

abbrev pub excluded_preference_keys : List String
excluded_preference_keys =
    "auto_start_enabled" ∷ "clash_tun_enable" ∷ "clash_tun_stack" ∷ "clash_tun_device"
    ∷ "clash_tun_auto_route" ∷ "clash_tun_auto_redirect" ∷ "clash_tun_auto_detect_interface"
    ∷ "clash_tun_dns_hijack" ∷ "clash_tun_strict_route" ∷ "clash_tun_route_exclude_address"
    ∷ "clash_tun_disable_icmp_forwarding" ∷ "clash_tun_mtu" ∷ []

-- Base64, UTF-8 and serde_json.
pub record Formats : Type 0 where
  pub encode : Bytes → String
  pub decode : String → Result Bytes
  pub to_text : Bytes → Result String
  pub as_bytes : String → Bytes
  pub prefs_from_str : String → Result Prefs
  pub prefs_to_string : Prefs → Result String
  pub backup_from_str : String → Result BackupData
  pub backup_to_string : BackupData → Result String
