-- ===== src/Backup/Restore/Preferences.antt =====
-- backup.rs: what the preferences are after they were restored.
use stelliberty_m.Base.{
  ◌≡◌, refl, sym, ap, ◌∙◌, String, Bool, true, false, List, [], ◌∷◌, Option, none, some, Result, ok,
  err, if◌then◌else◌, ◌==◌, eq_iff, any, arith, Bool-cases, inl, inr,
}
use stelliberty_m.Subscription.Json.{JsonValue}
use stelliberty_m.Backup.Disk.{Place, Node, file, Disk, Io, find, exists, create_dir, is_there}
use stelliberty_m.Backup.Disk.Laws.{>>=-ok, write_file-find, read_file-absent}
use stelliberty_m.Backup.Content.{
  Prefs, Map, get, remove, insert, excluded_preference_keys, Formats,
}
use stelliberty_m.Backup.Create.{read_text, without_keys}
use stelliberty_m.Backup.Restore.{
  keep_key, keep_existing, parsed, merged_with, merge_read, merged_prefs, restore_preferences,
}

get-remove :
    {A : Type 0} (k j : String) (m : Map A)
    → get j (remove k m) ≡ (if k == j then none else get j m)
unfolding get remove
get-remove k j [] = ground arith
get-remove k j ((i, v) ∷ m) = ground (arith, eq_iff i k, eq_iff i j, eq_iff k j, get-remove k j m)

get-insert :
    {A : Type 0} (k j : String) (v : A) (m : Map A)
    → get j (insert k v m) ≡ (if k == j then some v else get j m)
unfolding get
get-insert k j v m = ground (arith, get-remove k j m)

abbrev pub or_else : {A : Type 0} → Option A → Option A → Option A
or_else (some a) o = some a
or_else none o = o

or_else-twice : {A : Type 0} (o p : Option A) → or_else o (or_else o p) ≡ or_else o p
or_else-twice none p = refl
or_else-twice (some a) p = refl

abbrev pub is_excluded : String → List String → Bool
is_excluded j keys = any (λ k. k == j) keys

keep_key-get :
    (k j : String) (o : Option JsonValue) (prefs : Prefs)
    → get j (keep_key k o prefs) ≡ (if k == j then or_else o (get j prefs) else get j prefs)
unfolding keep_key
keep_key-get k j none prefs = ground arith
keep_key-get k j (some v) prefs = get-insert k j v prefs

keep_key-lookup :
    (k j : String) (existing prefs : Prefs)
    → get j (keep_key k (get k existing) prefs)
      ≡ (if k == j then or_else (get j existing) (get j prefs) else get j prefs)
keep_key-lookup k j existing prefs =
    keep_key-get k j (get k existing) prefs ∙ elim (Bool-cases (k == j)) [
      | inl e ↦ let same = (eq_iff k j).0 e in rw (e, same)
      | inr e ↦ rw e refl
    ]

keep_existing-lookup :
    (keys : List String) (existing prefs : Prefs) (j : String)
    → get j (keep_existing keys existing prefs)
      ≡ (if is_excluded j keys then or_else (get j existing) (get j prefs) else get j prefs)
unfolding keep_existing
keep_existing-lookup [] existing prefs j = refl
keep_existing-lookup (k ∷ keys) existing prefs j =
    keep_existing-lookup keys existing (keep_key k (get k existing) prefs) j
    ∙ rw (keep_key-lookup k j existing prefs)
        (ground (arith, or_else-twice (get j existing) (get j prefs)))

pub without_keys-lookup :
    (keys : List String) (prefs : Prefs) (j : String)
    → get j (without_keys keys prefs) ≡ (if is_excluded j keys then none else get j prefs)
unfolding without_keys
without_keys-lookup [] prefs j = refl
without_keys-lookup (k ∷ keys) prefs j =
    without_keys-lookup keys (remove k prefs) j ∙ rw (get-remove k j prefs) (ground arith)

-- What the preferences file holds, as far as it can be read.
abbrev pub readable : Result Prefs → Prefs
readable (err e) = []
readable (ok prefs) = prefs

-- What a preference is to be: an excluded one as it was on this machine, if it was, and every other as
-- in the backup.
unfoldable pub expected : Prefs → Prefs → String → Option JsonValue
expected here prefs j =
    if is_excluded j excluded_preference_keys
    then or_else (get j here) (get j prefs)
    else get j prefs

module _ (f : Formats) (io : Io) where
  abbrev pub existing : Place → Disk → Prefs
  existing path disk = readable (parsed f io (read_text f io path disk).0)

  merged_with-lookup :
      (prefs : Prefs) (r : Result Prefs) (j : String)
      → get j (merged_with prefs r) ≡ expected (readable r) prefs j
  unfolding merged_with get expected
  merged_with-lookup prefs (err e) j = by_test (is_excluded j excluded_preference_keys)
    where
      by_test : (b : Bool) → get j prefs ≡ (if b then or_else none (get j prefs) else get j prefs)
      by_test true = refl
      by_test false = refl
  merged_with-lookup prefs (ok p) j = keep_existing-lookup excluded_preference_keys p prefs j

  -- An absent file cannot be read.
  pub existing-absent :
      (path : Place) (d : Disk) → find path d.entries ≡ none → existing path d ≡ []
  unfolding read_text parsed
  existing-absent path d h = let (e, r) = read_file-absent io path d h in rw r refl

  merged_prefs-lookup :
      (prefs : Prefs) (path : Place) (d d' : Disk) (p : Prefs) (j : String)
      → merged_prefs f io prefs path d ≡ (ok p, d')
      → get j p ≡ expected (existing path d) prefs j
  unfolding merged_prefs exists merge_read merged_with
  merged_prefs-lookup prefs path d d' p j h = by_node (find path d.entries) refl h
    where
      by_node :
          (o : Option Node)
          → find path d.entries ≡ o
          → merge_read f io prefs path (is_there o) d ≡ (ok p, d')
          → get j p ≡ expected (existing path d) prefs j
      by_node none e h =
          ap (λ r. get j (readable r.0)) (sym h)
          ∙ (merged_with-lookup prefs (err "") j
              ∙ ap (λ x. expected x prefs j) (sym (existing-absent path d e)))
      by_node (some node) e h =
          ap (λ r. get j (readable r.0)) (sym h)
          ∙ merged_with-lookup prefs (parsed f io (read_text f io path d).0) j

  pub restore_preferences-Run :
      (prefs : Prefs) (path : Place) (d d' : Disk)
      → restore_preferences f io prefs path d ≡ (ok tt, d')
      → (p : Prefs) × (s : String) × (f.prefs_to_string p ≡ ok s)
        × (find path d'.entries ≡ some (file (f.as_bytes s)))
        × ((j : String) → get j p ≡ expected (existing path d) prefs j)
  unfolding restore_preferences
  restore_preferences-Run prefs path d d' h =
      let (p, d₁, merged, after) = >>=-ok (merged_prefs f io prefs path) _ d d' h in
      let (s, d₂, printed, then_made) = >>=-ok (λ x. (f.prefs_to_string p, x)) _ d₁ d' after in
      let (u, d₃, made, written) = >>=-ok (create_dir io path.parent) _ d₂ d' then_made in
      (
        p,
        s,
        ap (λ r. r.0) printed,
        write_file-find io path (f.as_bytes s) d₃ d' written,
        λ j. merged_prefs-lookup prefs path d d₁ p j merged,
      )
