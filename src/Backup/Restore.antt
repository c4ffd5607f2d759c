-- ===== src/Backup/Restore.antt =====
-- backup.rs: `restore_backup` and what it puts back.
pub mod Preferences
pub mod Lost
use Prim.Native.String
use stelliberty_m.Base.{
  String, Bool, true, false, List, [], ◌∷◌, Option, none, some, Result, ok, err, if◌then◌else◌,
  ◌==◌, rsplit_once,
}
use stelliberty_m.Subscription.Json.{JsonValue}
use stelliberty_m.Backup.Disk.{
  Bytes, Place, Node, Disk, Io, Action, ◌>>=◌, pure, lift, exists, dir_exists, read_file,
  write_file, remove_file, create_dir, entries_of, next,
}
use stelliberty_m.Backup.Content.{
  Prefs, Map, get, insert, SubscriptionBackup, OverrideBackup, BackupContent, BackupData,
  BackupPaths, excluded_preference_keys, Formats,
}
use stelliberty_m.Backup.Create.{read_text, stem_and_extension, config_key, file_key}

keep_key : String → Option JsonValue → Prefs → Prefs
keep_key key none prefs = prefs
keep_key key (some value) prefs = insert key value prefs

unfoldable pub keep_existing : List String → Prefs → Prefs → Prefs
unfolding keep_key
keep_existing [] existing prefs = prefs
keep_existing (key ∷ keys) existing prefs =
    keep_existing keys existing (keep_key key (get key existing) prefs)

merged_with : Prefs → Result Prefs → Prefs
merged_with prefs (err e) = prefs
merged_with prefs (ok existing) = keep_existing excluded_preference_keys existing prefs

-- The folder and the name of a path that is written as a text.
place_in : String → Option (String × String) → Place
place_in path none = record { parent = ""; file_name = path }
place_in path (some (parent, file_name)) = record { parent = parent; file_name = file_name }

unfoldable pub place_of : String → Place
unfolding place_in
place_of path = place_in path (rsplit_once b'/' path)

module _ (f : Formats) (io : Io) where
  unfoldable pub parsed : Result String → Result Prefs
  parsed (err e) = err e
  parsed (ok content) = f.prefs_from_str content

  -- A file that is not there, cannot be read or is not JSON changes nothing.
  merge_read : Prefs → Place → Bool → Action Prefs
  merge_read prefs path false = pure prefs
  merge_read prefs path true =
      λ disk. (ok (merged_with prefs (parsed (read_text f io path disk).0)), disk)

  unfoldable pub merged_prefs : Prefs → Place → Action Prefs
  unfolding exists parsed merged_with merge_read
  merged_prefs prefs path = do there ← exists path; merge_read prefs path there

  unfoldable pub restore_preferences : Prefs → Place → Action (Unit {0})
  unfolding merged_prefs create_dir write_file
  restore_preferences prefs path = do
    merged ← merged_prefs prefs path
    json_str ← lift (f.prefs_to_string merged)
    made ← create_dir io path.parent
    write_file io path (f.as_bytes json_str)

  remove_if : Option String → Place → Action (Unit {0})
  remove_if none path = pure tt
  remove_if (some key) path = remove_file io path

  -- The loop that empties a folder of the entries that the guard takes.
  unfoldable pub clear_entries :
      (String → Node → Option String) → String → List (String × Node) → Action (Unit {0})
  unfolding next remove_if
  clear_entries guard dir [] = pure tt
  clear_entries guard dir ((name, node) ∷ rest) = do
    let path : Place = record { parent = dir; file_name = name }
    taken ← next io path
    removed ← remove_if (guard name node) path
    clear_entries guard dir rest

  clear_there : (String → Node → Option String) → String → Bool → Action (Unit {0})
  clear_there guard dir false = pure tt
  clear_there guard dir true = do entries ← entries_of io dir; clear_entries guard dir entries

  unfoldable pub clear_dir : (String → Node → Option String) → String → Action (Unit {0})
  unfolding dir_exists clear_there
  clear_dir guard dir = do there ← dir_exists dir; clear_there guard dir there

  unfoldable pub restore_list : Option String → String → Place → Action (Unit {0})
  unfolding create_dir write_file
  restore_list none dir list_path = pure tt
  restore_list (some list_content) dir list_path = do
    made ← create_dir io dir
    write_file io list_path (f.as_bytes list_content)

  unfoldable pub restore_entries : (String → String) → Map String → Action (Unit {0})
  unfolding write_file
  restore_entries path_of [] = pure tt
  restore_entries path_of ((file_name, base64_content) ∷ rest) = do
    content ← lift (f.decode base64_content)
    written ← write_file io (place_of (path_of file_name)) content
    restore_entries path_of rest

  unfoldable pub restore_subscriptions : SubscriptionBackup → String → Place → Action (Unit {0})
  unfolding clear_dir restore_list restore_entries
  restore_subscriptions backup dir list_path = do
    cleared ← clear_dir config_key dir
    listed ← restore_list backup.list dir list_path
    restore_entries (λ name. String.◌++◌ dir (String.◌++◌ "/" (String.◌++◌ name ".yaml")))
        backup.configs

  unfoldable pub restore_overrides : OverrideBackup → String → Place → Action (Unit {0})
  unfolding clear_dir restore_list restore_entries
  restore_overrides backup dir list_path = do
    cleared ← clear_dir file_key dir
    listed ← restore_list backup.list dir list_path
    restore_entries (λ name. String.◌++◌ dir (String.◌++◌ "/" name)) backup.files

  unfoldable pub restore_file_base64 : String → Place → Action (Unit {0})
  unfolding create_dir write_file
  restore_file_base64 base64_content path = do
    content ← lift (f.decode base64_content)
    made ← create_dir io path.parent
    write_file io path content

  restore_some : Option String → Place → Action (Unit {0})
  restore_some none path = pure tt
  restore_some (some base64_content) path = restore_file_base64 base64_content path

  -- Both tests on the version are one, as both compare with "1.0.0".
  unfoldable pub checked_version : String → Action (Unit {0})
  checked_version version =
      if version == "1.0.0" then pure tt else lift (err (String.◌++◌ "不支持的备份版本：" version))

  unfoldable pub restore_backup : Place → BackupPaths → Action (Unit {0})
  unfolding checked_version restore_preferences restore_subscriptions restore_overrides restore_some
  restore_backup backup_path paths = do
    json_str ← read_text f io backup_path
    backup_data ← lift (f.backup_from_str json_str)
    checked ← checked_version backup_data.version
    let content = backup_data.content
    prefs ← restore_preferences content.app_preferences paths.preferences_path
    subscriptions ←
        restore_subscriptions content.subscriptions paths.subscriptions_dir
          paths.subscriptions_list_path
    overrides ← restore_overrides content.overrides paths.overrides_dir paths.overrides_list_path
    dns ← restore_some content.dns_config paths.dns_config_path
    restore_some content.pac_file paths.pac_file_path

pub record BackupOperationResult : Type 0 where
  pub is_successful : Bool
  pub message : String
  pub error_message : Option String

-- The messages of the two handlers; `message` is the path of the backup, or a fixed text.
unfoldable pub answer : String → Result (Unit {0}) → BackupOperationResult
answer message (ok u) = record { is_successful = true; message = message; error_message = none }
answer message (err e) = record { is_successful = false; message = ""; error_message = some e }
