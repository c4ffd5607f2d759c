-- ===== src/Backup/Create/Moved.antt =====
-- backup.rs: preferences that are carried from one machine to another.
use stelliberty_m.Base.{
  ◌≡◌, refl, sym, ap, ◌∙◌, String, Bool, true, false, [], Option, none, some, ok, if◌then◌else◌,
}
use stelliberty_m.Subscription.Json.{JsonValue}
use stelliberty_m.Backup.Disk.{Place, Node, file, Disk, Io, lift, find, exists, is_there}
use stelliberty_m.Backup.Disk.Laws.{>>=-ok}
use stelliberty_m.Backup.Content.{Prefs, get, excluded_preference_keys, Formats}
use stelliberty_m.Backup.Create.{read_text, read_prefs, collect_preferences}
use stelliberty_m.Backup.Restore.{parsed, restore_preferences}
use stelliberty_m.Backup.Restore.Preferences.{
  or_else, is_excluded, expected, readable, existing, without_keys-lookup, existing-absent,
  restore_preferences-Run,
}

module _ (f : Formats) where
  collect_preferences-lookup :
      (io : Io) (path : Place) (d d' : Disk) (prefs : Prefs) (j : String)
      → collect_preferences f io path d ≡ (ok prefs, d')
      → get j prefs
        ≡ (if is_excluded j excluded_preference_keys then none else get j (existing f io path d))
  unfolding collect_preferences exists read_prefs get parsed
  collect_preferences-lookup io path d d' prefs j h = by_node (find path d.entries) refl h
    where
      nothing : (b : Bool) → ◌≡◌ {A = Option JsonValue} none (if b then none else get j [])
      nothing true = refl
      nothing false = refl

      by_node :
          (o : Option Node)
          → find path d.entries ≡ o
          → read_prefs f io path (is_there o) d ≡ (ok prefs, d')
          → get j prefs ≡ (
              if is_excluded j excluded_preference_keys then none else get j (existing f io path d))
      by_node none e h =
          ap (λ r. get j (readable r.0)) (sym h)
          ∙ (nothing (is_excluded j excluded_preference_keys)
              ∙ rw (existing-absent f io path d e) refl)
      by_node (some node) e h =
          let (content, d₁, read, after) = >>=-ok (read_text f io path) _ d d' h in
          let (all, d₂, from, kept) = >>=-ok (lift (f.prefs_from_str content)) _ d₁ d' after in
          let same : existing f io path d ≡ all = rw read (ap (λ r. readable r.0) from) in
          ap (λ r. get j (readable r.0)) (sym kept)
          ∙ (without_keys-lookup excluded_preference_keys all j ∙ rw same refl)

  by_key :
      (b : Bool) (here there : Option JsonValue) (o : Option JsonValue)
      → o ≡ (if b then none else there)
      → (if b then or_else here o else o) ≡ (if b then here else there)
  by_key true none there o e = e
  by_key true (some v) there o e = refl
  by_key false here there o e = e

  -- Preferences that were collected on one machine and restored on another: a call that succeeds leaves
  -- a file that is the text of preferences which hold an excluded key as that machine had it, and every
  -- other key as the first machine had it.
  pub collect-restore_preferences :
      (io io' : Io) (path path' : Place) (d d' e e' : Disk) (prefs : Prefs)
      → collect_preferences f io path d ≡ (ok prefs, d')
      → restore_preferences f io' prefs path' e ≡ (ok tt, e')
      → (p : Prefs) × (s : String) × (f.prefs_to_string p ≡ ok s)
        × (find path' e'.entries ≡ some (file (f.as_bytes s)))
        × ((j : String)
            → get j p ≡ (
                if is_excluded j excluded_preference_keys
                then get j (existing f io' path' e)
                else get j (existing f io path d)))
  unfolding expected
  collect-restore_preferences io io' path path' d d' e e' prefs collects restores =
      let (p, s, printed, written, lookup) =
        restore_preferences-Run f io' prefs path' e e' restores in
      (
        p,
        s,
        printed,
        written,
        λ j.
            lookup j
            ∙ by_key (is_excluded j excluded_preference_keys) (get j (existing f io' path' e))
                (get j (existing f io path d)) (get j prefs)
                (collect_preferences-lookup io path d d' prefs j collects),
      )
