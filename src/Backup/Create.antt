-- ===== src/Backup/Create.antt =====
-- backup.rs: `create_backup`, what it collects, and the handler of the request.
pub mod Moved
use stelliberty_m.Base.{
  String, Bool, true, false, List, [], ◌∷◌, Option, none, some, Result, ok, err, if◌then◌else◌,
  ◌==◌, rsplit_once, is_empty,
}
use stelliberty_m.Backup.Disk.{
  Bytes, Place, Node, file, folder, Disk, Io, Action, ◌>>=◌, pure, lift, exists, dir_exists,
  read_file, write_file, create_dir, entries_of, next,
}
use stelliberty_m.Backup.Content.{
  Prefs, Map, insert, remove, SubscriptionBackup, OverrideBackup, BackupContent, BackupData,
  BackupPaths, excluded_preference_keys, Formats,
}

-- `Path::file_stem` and `Path::extension`, where the name has both.
abbrev stem_of : Option (String × String) → Option (String × String)
stem_of none = none
stem_of (some (stem, extension)) = if is_empty stem then none else some (stem, extension)

unfoldable pub stem_and_extension : String → Option (String × String)
unfolding rsplit_once
stem_and_extension name = stem_of (rsplit_once b'.' name)

-- The name without its extension, where that is "yaml".
yaml_stem_in : Option (String × String) → Option String
yaml_stem_in none = none
yaml_stem_in (some (stem, extension)) = if extension == "yaml" then some stem else none

unfoldable pub yaml_stem : String → Option String
unfolding yaml_stem_in
yaml_stem name = yaml_stem_in (stem_and_extension name)

unfoldable pub without_keys : List String → Prefs → Prefs
unfolding remove
without_keys [] prefs = prefs
without_keys (key ∷ keys) prefs = without_keys keys (remove key prefs)

unfoldable pub config_key : String → Node → Option String
config_key name node = yaml_stem name

-- `path.is_file()`.
unfoldable pub file_key : String → Node → Option String
file_key name (file bytes) = some name
file_key name folder = none

module _ (f : Formats) (io : Io) where
  unfoldable pub read_text : Place → Action String
  unfolding read_file
  read_text path = do bytes ← read_file io path; lift (f.to_text bytes)

  read_prefs : Place → Bool → Action Prefs
  read_prefs path false = pure []
  read_prefs path true = do
    content ← read_text path
    prefs ← lift (f.prefs_from_str content)
    pure (without_keys excluded_preference_keys prefs)

  unfoldable pub collect_preferences : Place → Action Prefs
  unfolding exists read_prefs
  collect_preferences path = do there ← exists path; read_prefs path there

  read_list : Place → Bool → Action (Option String)
  read_list path false = pure none
  read_list path true = do content ← read_text path; pure (some content)

  unfoldable pub collect_list : Place → Action (Option String)
  unfolding exists read_list
  collect_list path = do there ← exists path; read_list path there

  -- The entry under the key, if it is to be kept.
  add_entry : Option String → Place → Map String → Action (Map String)
  add_entry none path m = pure m
  add_entry (some key) path m = do
    content ← read_file io path
    pure (insert key (f.encode content) m)

  -- The loop over a folder; `key_of` is the guard on an entry and the key it goes under.
  unfoldable pub collect_entries :
      (String → Node → Option String)
      → String
      → List (String × Node)
      → Map String
      → Action (Map String)
  unfolding next add_entry
  collect_entries key_of dir [] m = pure m
  collect_entries key_of dir ((name, node) ∷ rest) m = do
    let path : Place = record { parent = dir; file_name = name }
    taken ← next io path
    added ← add_entry (key_of name node) path m
    collect_entries key_of dir rest added

  collect_dir : (String → Node → Option String) → String → Bool → Action (Map String)
  collect_dir key_of dir false = pure []
  collect_dir key_of dir true = do
    entries ← entries_of io dir
    collect_entries key_of dir entries []

  unfoldable pub collect_subscriptions : String → Place → Action SubscriptionBackup
  unfolding collect_list dir_exists collect_dir
  collect_subscriptions dir list_path = do
    list ← collect_list list_path
    there ← dir_exists dir
    configs ← collect_dir config_key dir there
    pure (record { list = list; configs = configs })

  unfoldable pub collect_overrides : String → Place → Action OverrideBackup
  unfolding collect_list dir_exists collect_dir
  collect_overrides dir list_path = do
    list ← collect_list list_path
    there ← dir_exists dir
    files ← collect_dir file_key dir there
    pure (record { list = list; files = files })

  -- A file that cannot be read is left out.
  encoded : Result Bytes × Disk → Result (Option String) × Disk
  encoded (err e, disk) = (ok none, disk)
  encoded (ok content, disk) = (ok (some (f.encode content)), disk)

  read_encoded : Place → Bool → Action (Option String)
  read_encoded path false = pure none
  read_encoded path true = λ disk. encoded (read_file io path disk)

  unfoldable pub collect_file_base64 : Place → Action (Option String)
  unfolding exists encoded read_encoded
  collect_file_base64 path = do there ← exists path; read_encoded path there

  -- `now` and `os` are the time and the platform.
  unfoldable pub create_backup : String → String → Place → String → BackupPaths → Action (Unit {0})
  unfolding collect_preferences collect_subscriptions collect_overrides collect_file_base64
      create_dir write_file
  create_backup now os target_path app_version paths = do
    app_prefs ← collect_preferences paths.preferences_path
    subscriptions ← collect_subscriptions paths.subscriptions_dir paths.subscriptions_list_path
    overrides ← collect_overrides paths.overrides_dir paths.overrides_list_path
    dns_config ← collect_file_base64 paths.dns_config_path
    pac_file ← collect_file_base64 paths.pac_file_path
    made ← create_dir io target_path.parent
    json_str ← lift (
        f.backup_to_string (record {
          version = "1.0.0";
          timestamp = now;
          app_version = app_version;
          platform = os;
          content = record {
            app_preferences = app_prefs;
            clash_preferences = [];
            subscriptions = subscriptions;
            overrides = overrides;
            dns_config = dns_config;
            pac_file = pac_file;
          };
        }))
    write_file io target_path (f.as_bytes json_str)
