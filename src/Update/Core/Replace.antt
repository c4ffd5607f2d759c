-- ===== src/Update/Core/Replace.antt =====
-- updater.rs: `replace_core` and what it promises.
use stelliberty_m.Base.{
  ◌≡◌, refl, sym, String, Bool, true, false, Option, none, some, ok, err, ◌==◌,
}
use stelliberty_m.Update.Core.{
  Bytes, File, Files, Write, written, write_failed, Disk, Outcome, permitted, restored, rolled_back,
  write_core, back_up, replace_core,
}

-- What a replacement promises: the new core, or the old files' core as it was.
pub data Promise (platform : String) (bytes : Bytes) (f : Files) : Outcome → Type 0 where
  replaced :
      {f' : Files} {new : File}
      → f'.core ≡ some new
      → new.content ≡ bytes
      → ((platform == "windows") ≡ false → new.is_executable ≡ true)
      → Promise platform bytes f (ok tt, f')
  kept : {f' : Files} {e : String} → f'.core ≡ f.core → Promise platform bytes f (err e, f')

-- Where the permissions can be set, an old core can be put back, and there is an old core, the
-- replacement keeps its promise whatever else the disk refuses.
pub replace_core-Promise :
    (disk : Disk) (platform : String) (bytes : Bytes) (f : Files) (old : File)
    → f.core ≡ some old
    → disk.set_permissions ≡ none
    → disk.restore_rename ≡ none
    → Promise platform bytes f (replace_core disk platform bytes f)
unfolding replace_core back_up write_core permitted rolled_back restored
replace_core-Promise disk platform bytes f old h p r = by_backup f.core disk.backup_rename h
  where
    by_platform :
        (windows : Bool)
        → (platform == "windows") ≡ windows
        → Promise platform bytes f
            (permitted windows none bytes (record { core = none; backup = some old }))
    by_platform true w = replaced refl refl (λ n. cc)
    by_platform false w = replaced refl refl (λ n. refl)

    by_write :
        (w : Write)
        → Promise platform bytes f (
            write_core disk
              (platform == "windows")
              w
              bytes
              (record { core = none; backup = some old }))
    by_write written = rw p (by_platform (platform == "windows") refl)
    by_write (write_failed e part) = rw r (kept (sym h))

    by_backup :
        (core : Option File) (answer : Option String)
        → core ≡ some old
        → Promise platform bytes f (back_up disk (platform == "windows") core answer bytes f)
    by_backup none answer e = cc
    by_backup (some o) (some e) same = kept refl
    by_backup (some o) none same = let is_old : o ≡ old = cc in rw is_old (by_write disk.write)

-- A refused permission fails with the new core in place, which cannot be run, and the old core is only
-- in the backup.
pub replace_core_no_permission :
    (disk : Disk) (platform : String) (bytes : Bytes) (f : Files) (old : File) (e : String)
    → (platform == "windows") ≡ false
    → f.core ≡ some old
    → disk.backup_rename ≡ none
    → disk.write ≡ written
    → disk.set_permissions ≡ some e
    → replace_core disk platform bytes f ≡ (
      err e,
      record { core = some (record { content = bytes; is_executable = false }); backup = some old },
    )
unfolding replace_core back_up write_core permitted
replace_core_no_permission disk platform bytes f old e w h b wr p = rw (h, b, wr, w, p) refl
