-- ===== src/Backup/Restore/Lost.antt =====
-- backup.rs: what a restoration that fails has already removed.
use stelliberty_m.Base.{
  ◌≡◌, ◌≢◌, refl, sym, ap, ◌∙◌, String, Bool, true, false, ◌&&◌, List, [], ◌∷◌, Option, none, some,
  ok, err, if◌then◌else◌, ◌==◌, eq_iff, Memᴰ, Bool-cases, inl, inr,
}
use stelliberty_m.Backup.Disk.{
  Bytes, Place, Node, file, Disk, Entries, Io, is_at, find, drop, list_dir, next, has_folder,
  entries_of, dir_exists,
}
use stelliberty_m.Backup.Disk.Laws.{>>=-ok, next-ok, remove_file-ok, entries_of-ok}
use stelliberty_m.Backup.Content.{Map, OverrideBackup, Formats}
use stelliberty_m.Backup.Create.{file_key}
use stelliberty_m.Backup.Restore.{
  remove_if, clear_entries, clear_there, clear_dir, restore_entries, restore_list,
  restore_overrides,
}

abbrev pub at : String → String → Place
at dir name = record { parent = dir; file_name = name }

list_dir-Mem :
    (dir name : String) (es : Entries) (node : Node)
    → find (at dir name) es ≡ some node
    → Memᴰ (name, node) (list_dir dir es)
unfolding find list_dir
list_dir-Mem dir name [] node h = cc
list_dir-Mem dir name ((q, n) ∷ es) node h =
    by_test (q.parent == dir) (q.file_name == name) refl (λ g. list_dir-Mem dir name es node g) h
  where
    by_test :
        (b c : Bool)
        → (q.file_name == name) ≡ c
        → (find (at dir name) es ≡ some node → Memᴰ (name, node) (list_dir dir es))
        → (if b && c then some n else find (at dir name) es) ≡ some node
        → Memᴰ (name, node) (if b then (q.file_name, n) ∷ list_dir dir es else list_dir dir es)
    by_test true true e later h = let same = (eq_iff q.file_name name).0 e in Memᴰ.head cc
    by_test true false e later h = Memᴰ.tail (later h)
    by_test false c e later h = later h

is_at-eq : (p q : Place) → is_at p q ≡ true → p ≡ q
is_at-eq p q h = by_test (p.parent == q.parent) (p.file_name == q.file_name) refl refl h
  where
    by_test :
        (b c : Bool)
        → (p.parent == q.parent) ≡ b
        → (p.file_name == q.file_name) ≡ c
        → (b && c) ≡ true
        → p ≡ q
    by_test true true e k h =
        let a = (eq_iff p.parent q.parent).0 e in
        let b = (eq_iff p.file_name q.file_name).0 k in
        ap (λ x. at x p.file_name) a ∙ ap (at q.parent) b
    by_test true false e k h = cc
    by_test false c e k h = cc

drop-find_same : (p : Place) (es : Entries) → find p (drop p es) ≡ none
unfolding find drop
drop-find_same p [] = refl
drop-find_same p ((r, n) ∷ es) = elim (Bool-cases (is_at r p)) [
  | inl e ↦ rw e (drop-find_same p es)
  | inr e ↦ rw (e, e) (drop-find_same p es)
]

-- What is there after a removal was there before it, and not at the place.
drop-find :
    (p q : Place) (es : Entries) (node : Node)
    → find q (drop p es) ≡ some node
    → find q es ≡ some node
unfolding find drop
drop-find p q [] node h = h
drop-find p q ((r, n) ∷ es) node h =
    by_test (is_at r p) (is_at r q) refl refl (λ g. drop-find p q es node g) h
  where
    by_test :
        (b c : Bool)
        → is_at r p ≡ b
        → is_at r q ≡ c
        → (find q (drop p es) ≡ some node → find q es ≡ some node)
        → find q (if b then drop p es else (r, n) ∷ drop p es) ≡ some node
        → (if c then some n else find q es) ≡ some node
    by_test true true e k later h =
        let none_there = drop-find_same p es in
        let same : q ≡ p = sym (is_at-eq r q k) ∙ is_at-eq r p e in cc
    by_test true false e k later h = later h
    by_test false true e k later h = rw k at h
    by_test false false e k later h = later (rw k at h)

module _ (f : Formats) (io : Io) where
  remove_if-find :
      (o : Option String) (p q : Place) (d d' : Disk) (node : Node)
      → remove_if f io o p d ≡ (ok tt, d')
      → find q d'.entries ≡ some node
      → find q d.entries ≡ some node
  unfolding remove_if
  remove_if-find none p q d d' node h there = ap (λ r. find q r.1.entries) h ∙ there
  remove_if-find (some key) p q d d' node h there =
      drop-find p q d.entries node (ap (find q) (sym (remove_file-ok io p d d' h)) ∙ there)

  clear_entries-find :
      (guard : String → Node → Option String) (dir : String) (es : List (String × Node)) (q : Place)
      (d d' : Disk) (node : Node)
      → clear_entries f io guard dir es d ≡ (ok tt, d')
      → find q d'.entries ≡ some node
      → find q d.entries ≡ some node
  unfolding clear_entries
  clear_entries-find guard dir [] q d d' node h there = ap (λ r. find q r.1.entries) h ∙ there
  clear_entries-find guard dir ((name, n) ∷ es) q d d' node h there =
      let (u, d₁, taken, after) = >>=-ok (next io (at dir name)) _ d d' h in
      let (v, d₂, removed, rest) =
        >>=-ok (remove_if f io (guard name n) (at dir name)) _ d₁ d' after in
      let later = clear_entries-find guard dir es q d₂ d' node rest there in
      let before = remove_if-find (guard name n) (at dir name) q d₁ d₂ node removed later in
      ap (λ x. find q x.entries) (next-ok io (at dir name) d d₁ taken) ∙ before

  clear_entries-gone :
      (dir name : String) (bytes : Bytes) (es : List (String × Node)) (d d' : Disk) (node : Node)
      → Memᴰ (name, file bytes) es
      → clear_entries f io file_key dir es d ≡ (ok tt, d')
      → find (at dir name) d'.entries ≢ some node
  unfolding clear_entries file_key remove_if
  clear_entries-gone dir name bytes [] d d' node m h there = elim m [ ]
  clear_entries-gone dir name bytes ((other, n) ∷ es) d d' node (Memᴰ.head e) h there =
      let p = at dir name in
      let (u, d₁, taken, after) = >>=-ok (next io (at dir other)) _ d d' h in
      let (v, d₂, removed, rest) =
        >>=-ok (remove_if f io (file_key other n) (at dir other)) _ d₁ d' after in
      let same : remove_if f io (file_key name (file bytes)) p d₁ ≡ (ok v, d₂) =
        ap (λ x. remove_if f io (file_key x.0 x.1) (at dir x.0) d₁) e ∙ removed in
      let dropped = remove_file-ok io p d₁ d₂ same in
      let later = clear_entries-find file_key dir es p d₂ d' node rest there in
      let gone : find p d₂.entries ≡ none = ap (find p) dropped ∙ drop-find_same p d₁.entries in cc
  clear_entries-gone dir name bytes ((other, n) ∷ es) d d' node (Memᴰ.tail m) h there =
      let (u, d₁, taken, after) = >>=-ok (next io (at dir other)) _ d d' h in
      let (v, d₂, removed, rest) =
        >>=-ok (remove_if f io (file_key other n) (at dir other)) _ d₁ d' after in
      clear_entries-gone dir name bytes es d₂ d' node m rest there

  clear_dir-gone :
      (dir name : String) (bytes : Bytes) (d d' : Disk)
      → has_folder dir d ≡ true
      → clear_dir f io file_key dir d ≡ (ok tt, d')
      → find (at dir name) d'.entries ≢ some (file bytes)
  unfolding clear_dir dir_exists clear_there entries_of
  clear_dir-gone dir name bytes d d' there h found =
      let emptied : clear_there f io file_key dir true d ≡ (ok tt, d') =
        ap (λ b. clear_there f io file_key dir b d) (sym there) ∙ h in
      let (es, d₁, listed, cleared) = >>=-ok (entries_of io dir) _ d d' emptied in
      let (same, all) = entries_of-ok io dir d d₁ es listed in
      let p = at dir name in
      let before = clear_entries-find file_key dir es p d₁ d' (file bytes) cleared found in
      let listed_there = list_dir-Mem dir name d₁.entries (file bytes) before in
      let read : es ≡ list_dir dir d₁.entries = all ∙ ap (λ x. list_dir dir x.entries) (sym same) in
      let run : clear_entries f io file_key dir (list_dir dir d₁.entries) d₁ ≡ (ok tt, d') =
        ap (λ x. clear_entries f io file_key dir x d₁) (sym read) ∙ cleared in
      clear_entries-gone dir name bytes (list_dir dir d₁.entries) d₁ d' (file bytes) listed_there
        run found

  -- Once the folder of the overrides was emptied, a first file of the backup that is no Base64 makes the
  -- restoration fail with that error, on a disk on which the folder has no file left.
  pub restore_overrides_lost :
      (backup : OverrideBackup) (dir : String) (list_path : Place) (d d₁ : Disk)
      (name bad e : String) (rest : Map String)
      → has_folder dir d ≡ true
      → clear_dir f io file_key dir d ≡ (ok tt, d₁)
      → backup.list ≡ none
      → backup.files ≡ (name, bad) ∷ rest
      → f.decode bad ≡ err e
      → (restore_overrides f io backup dir list_path d ≡ (err e, d₁))
        × ((other : String) (bytes : Bytes) → find (at dir other) d₁.entries ≢ some (file bytes))
  unfolding restore_overrides restore_list restore_entries
  restore_overrides_lost backup dir list_path d d₁ name bad e rest there cleared unlisted files
        refused =
      (
        rw (cleared, unlisted, files, refused) refl,
        λ other bytes. clear_dir-gone dir other bytes d d₁ there cleared,
      )
