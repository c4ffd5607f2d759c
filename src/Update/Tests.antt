-- ===== src/Update/Tests.antt =====
-- Runs of the update code and of its theorems on small releases.
use stelliberty_m.Base.{◌≡◌, ◌↔◌, refl, [], ◌∷◌, some, none, ok, err, true, false, arith}
use stelliberty_m.Base.Numerals.{d0, d1, d9}
use stelliberty_m.Update.Version.Written.{Written, values, version_text, tagged}
use stelliberty_m.Update.Version.Order.{IsOlder}
use stelliberty_m.Update.Check.{
  CheckAppUpdateRequest, GitHubRelease, Target, handle, handle_written,
}
use stelliberty_m.Update.Core.{File, Files, Disk, write_failed, replace_core}
use stelliberty_m.Update.Core.Replace.{Promise, replace_core-Promise}

abbrev release : GitHubRelease
release = record { tag_name = "v1.10.0"; html_url = "https://r"; body = none; assets = [] }

abbrev request : CheckAppUpdateRequest
request = record { current_version = "1.9"; github_repo = "o/r"; is_portable = true }

abbrev target : Target
target = record { platform = "windows"; arch = "x64" }

abbrev current : Written
current = record {
  major = record { first = d1; others = [] };
  minors = record { first = d9; others = [] } ∷ [];
}

abbrev latest : Written
latest = record {
  major = record { first = d1; others = [] };
  minors = record { first = d1; others = d0 ∷ [] } ∷ record { first = d0; others = [] } ∷ [];
}

current_run : "1.9" ≡ version_text current
current_run = refl

tag_run : "v1.10.0" ≡ tagged 1 (version_text latest)
tag_run = refl

handle_written_example :
    ((handle (λ s. s) target request (ok release)).latest_version ≡ version_text latest)
    × (((handle (λ s. s) target request (ok release)).has_update ≡ true)
        ↔ IsOlder (values current) (values latest))
    × ((handle (λ s. s) target request (err "offline")).has_update ≡ false)
    × ((handle (λ s. s) target request (err "offline")).error_message ≡ some "offline")
handle_written_example =
    handle_written (λ s. s) target request release current latest 1 "offline"
      (((omega arith, tt), omega arith), (((omega arith, tt), omega arith), tt))
      (
        ((omega arith, tt), omega arith),
        (((omega arith, (omega arith, tt)), omega arith), (((omega arith, tt), omega arith), tt)),
      )
      current_run tag_run

abbrev old : File
old = record { content = 1 ∷ []; is_executable = true }

abbrev files : Files
files = record { core = some old; backup = none }

-- A disk that is full when the new core is written, and one that refuses the permissions.
abbrev full : Disk
full = record {
  backup_rename = none;
  write = write_failed "no space" (some (record { content = 2 ∷ []; is_executable = false }));
  set_permissions = none;
  remove = none;
  restore_rename = none;
}

replace_core-Promise_example :
    Promise "linux" (2 ∷ 3 ∷ []) files (replace_core full "linux" (2 ∷ 3 ∷ []) files)
replace_core-Promise_example =
    replace_core-Promise full "linux" (2 ∷ 3 ∷ []) files old refl refl refl
