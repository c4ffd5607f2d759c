-- ===== src/Backup/Disk/Laws.antt =====
-- backup.rs: what a call of the file system that succeeds has done.
use stelliberty_m.Base.{
  ◌≡◌, refl, sym, ap, ◌∙◌, String, Bool, true, false, List, Option, none, some, Result, ok, err,
  if◌then◌else◌, eq_iff,
}
use stelliberty_m.Backup.Disk.{
  Bytes, Place, Node, file, folder, Disk, Io, Action, Entries, ◌>>=◌, and_next, find, drop, read,
  read_file, unless, bytes_at, entries_of, read_dir, list_dir, next, next_entry, pure, remove,
  remove_at, remove_file, write, write_file, write_over, write_try, has_folder, put,
}

-- An action that succeeds does so part by part.
pub >>=-ok :
    {A B : Type 0} (m : Action A) (rest : A → Action B) (d d' : Disk) {b : B}
    → (m >>= rest) d ≡ (ok b, d')
    → (a : A) × (between : Disk) × (m d ≡ (ok a, between)) × (rest a between ≡ (ok b, d'))
>>=-ok {A = A} {B = B} m rest d d' {b} h = by_result (m d) refl h
  where
    by_result :
        (r : Result A × Disk)
        → m d ≡ r
        → and_next rest r ≡ (ok b, d')
        → (a : A) × (between : Disk) × (m d ≡ (ok a, between)) × (rest a between ≡ (ok b, d'))
    by_result (err e, x) s h = cc
    by_result (ok a, x) s h = (a, x, s, h)

pub find-put : (p : Place) (node : Node) (es : Entries) → find p (put p (some node) es) ≡ some node
unfolding find
find-put p node es =
    let a = (eq_iff p.parent p.parent).1 refl in
    let b = (eq_iff p.file_name p.file_name).1 refl in rw (a, b)

module _ (io : Io) (p : Place) (bytes : Bytes) (d d' : Disk) where
  by_folder :
      (there : Bool)
      → ◌≡◌ {A = Result (Unit {0}) × Disk}
          (if there
            then (ok tt, record d { entries = put p (some (file bytes)) d.entries })
            else (err "No such file or directory", d))
          (ok tt, d')
      → find p d'.entries ≡ some (file bytes)
  by_folder true h = ap (λ r. find p r.1.entries) (sym h) ∙ find-put p (file bytes) d.entries
  by_folder false h = cc

  write_over-find :
      (o : Option Node)
      → write_over io p bytes o d ≡ (ok tt, d')
      → find p d'.entries ≡ some (file bytes)
  unfolding write_over
  write_over-find (some folder) h = cc
  write_over-find none h = by_folder (has_folder p.parent d) h
  write_over-find (some (file b)) h = by_folder (has_folder p.parent d) h

  pub write_file-find :
      write_file io p bytes d ≡ (ok tt, d') → find p d'.entries ≡ some (file bytes)
  unfolding write_file write_try
  write_file-find h = by_refusal (io.refuses (write p)) h
    where
      by_refusal :
          (o : Option String)
          → write_try io p bytes o d ≡ (ok tt, d')
          → find p d'.entries ≡ some (file bytes)
      by_refusal (some e) h = cc
      by_refusal none h = write_over-find (find p d.entries) h

pub read_file-absent :
    (io : Io) (p : Place) (d : Disk)
    → find p d.entries ≡ none
    → (e : String) × (read_file io p d ≡ (err e, d))
unfolding read_file unless bytes_at
read_file-absent io p d h = by_refusal (io.refuses (read p))
  where
    by_refusal :
        (o : Option String)
        → (e : String) × (unless io o (λ disk. (bytes_at io (find p disk.entries), disk)) d
            ≡ (err e, d))
    by_refusal (some e) = (e, refl)
    by_refusal none = ("No such file or directory", rw h refl)

module _ (io : Io) (p : Place) (d d' : Disk) where
  pub next-ok : next io p d ≡ (ok tt, d') → d ≡ d'
  unfolding next unless
  next-ok h = by_refusal (io.refuses (next_entry p)) h
    where
      by_refusal : (o : Option String) → unless io o (pure tt) d ≡ (ok tt, d') → d ≡ d'
      by_refusal (some e) h = cc
      by_refusal none h = ap (λ r. r.1) h

  pub remove_file-ok : remove_file io p d ≡ (ok tt, d') → d'.entries ≡ drop p d.entries
  unfolding remove_file unless remove_at
  remove_file-ok h = by_refusal (io.refuses (remove p)) h
    where
      by_node : (o : Option Node) → remove_at io p o d ≡ (ok tt, d') → d'.entries ≡ drop p d.entries
      by_node none h = cc
      by_node (some folder) h = cc
      by_node (some (file bytes)) h = ap (λ r. r.1.entries) (sym h)

      by_refusal :
          (o : Option String)
          → unless io o (λ disk. remove_at io p (find p disk.entries) disk) d ≡ (ok tt, d')
          → d'.entries ≡ drop p d.entries
      by_refusal (some e) h = cc
      by_refusal none h = by_node (find p d.entries) h

pub entries_of-ok :
    (io : Io) (dir : String) (d d' : Disk) (es : List (String × Node))
    → entries_of io dir d ≡ (ok es, d')
    → (d' ≡ d) × (es ≡ list_dir dir d.entries)
unfolding entries_of unless
entries_of-ok io dir d d' es h = by_refusal (io.refuses (read_dir dir)) h
  where
    by_refusal :
        (o : Option String)
        → unless io o (λ disk. (ok (list_dir dir disk.entries), disk)) d ≡ (ok es, d')
        → (d' ≡ d) × (es ≡ list_dir dir d.entries)
    by_refusal (some e) h = cc
    by_refusal none h = (cc, cc)
