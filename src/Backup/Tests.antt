-- ===== src/Backup/Tests.antt =====
-- Runs of the backup code's theorems on a small disk.
use stelliberty_m.Base.{
  ◌≡◌, ◌≢◌, refl, [], ◌∷◌, String, Bool, true, false, Option, some, none, Result, ok, err, List,
  if◌then◌else◌, ◌==◌,
}
use stelliberty_m.Subscription.Json.{bool}
use stelliberty_m.Backup.Disk.{Bytes, Place, Node, file, Disk, Io, find}
use stelliberty_m.Backup.Content.{Prefs, get, excluded_preference_keys, Formats}
use stelliberty_m.Backup.Create.{file_key, collect_preferences}
use stelliberty_m.Backup.Create.Moved.{collect-restore_preferences}
use stelliberty_m.Backup.Restore.{clear_dir, restore_preferences, restore_overrides}
use stelliberty_m.Backup.Restore.Preferences.{is_excluded, existing}
use stelliberty_m.Backup.Restore.Lost.{at}

-- The first byte of a preferences file tells which of two contents it is.
abbrev first_prefs : Prefs
first_prefs = ("theme", bool true) ∷ ("clash_tun_mtu", bool true) ∷ []

abbrev second_prefs : Prefs
second_prefs = ("clash_tun_mtu", bool false) ∷ []

abbrev text_of : Bytes → Result String
text_of [] = err "invalid utf-8"
text_of (b ∷ bs) = if stelliberty_m.Base.eqb b 1 then ok "first" else ok "second"

abbrev formats : Formats
formats = record {
  encode = λ b. "AA==";
  decode = λ s. if s == "AA==" then ok (0 ∷ []) else err "Invalid padding";
  to_text = text_of;
  as_bytes = λ s. 7 ∷ [];
  prefs_from_str = λ s. if s == "first" then ok first_prefs else ok second_prefs;
  prefs_to_string = λ p. ok "printed";
  backup_from_str = λ s. err "EOF";
  backup_to_string = λ b. ok "backup";
}

-- A disk that refuses nothing.
abbrev io : Io
io = record { refuses = λ c. none; left = λ p. none }

abbrev prefs_path : Place
prefs_path = record { parent = "/app"; file_name = "prefs.json" }

abbrev disk_of : Bytes → Disk
disk_of bytes = record {
  entries = (prefs_path, file bytes) ∷ (at "/app/overrides" "a.js", file (5 ∷ [])) ∷ [];
  folders = "/app" ∷ "/app/overrides" ∷ [];
}

abbrev printed : Disk
printed = record {
  entries = (prefs_path, file (7 ∷ [])) ∷ (at "/app/overrides" "a.js", file (5 ∷ [])) ∷ [];
  folders = "/app" ∷ "/app" ∷ "/app/overrides" ∷ [];
}

abbrev collected : Prefs
collected = ("theme", bool true) ∷ []

collected_run :
    collect_preferences formats io prefs_path (disk_of (1 ∷ [])) ≡ (ok collected, disk_of (1 ∷ []))
unfolding collect_preferences find stelliberty_m.Backup.Create.read_text
    stelliberty_m.Backup.Create.without_keys
collected_run = refl

restored_run :
    restore_preferences formats io collected prefs_path (disk_of (2 ∷ [])) ≡ (ok tt, printed)
unfolding restore_preferences find stelliberty_m.Backup.Disk.drop
restored_run = refl

collect-restore_preferences_example :
    (p : Prefs) × (s : String) × (formats.prefs_to_string p ≡ ok s)
    × (find prefs_path printed.entries ≡ some (file (formats.as_bytes s)))
    × ((j : String)
        → get j p ≡ (
            if is_excluded j excluded_preference_keys
            then get j (existing formats io prefs_path (disk_of (2 ∷ [])))
            else get j (existing formats io prefs_path (disk_of (1 ∷ [])))))
collect-restore_preferences_example =
    collect-restore_preferences formats io io prefs_path prefs_path (disk_of (1 ∷ []))
      (disk_of (1 ∷ [])) (disk_of (2 ∷ [])) printed collected collected_run restored_run

abbrev emptied : Disk
emptied = record {
  entries = (prefs_path, file (1 ∷ [])) ∷ [];
  folders = "/app" ∷ "/app/overrides" ∷ [];
}

emptied_run : clear_dir formats io file_key "/app/overrides" (disk_of (1 ∷ [])) ≡ (ok tt, emptied)
unfolding clear_dir stelliberty_m.Backup.Disk.entries_of stelliberty_m.Backup.Restore.clear_entries
    stelliberty_m.Backup.Disk.list_dir file_key stelliberty_m.Backup.Disk.remove_file find
    stelliberty_m.Backup.Disk.drop
emptied_run = refl
