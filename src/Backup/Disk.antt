-- ===== src/Backup/Disk.antt =====
-- The files that backup.rs reads and writes, as a state, and `tokio::fs` on it. A path is its folder and
-- its name. Every call may be refused, which the record `Io` says.
pub mod Laws
use stelliberty_m.Base.{
  ℕ, String, Bool, true, false, not, ◌&&◌, List, [], ◌∷◌, Option, none, some, Result, ok, err,
  if◌then◌else◌, ◌==◌, any,
}

abbrev pub Bytes : Type 0
Bytes = List ℕ

pub record Place : Type 0 where
  pub parent : String
  pub file_name : String

pub data Node : Type 0 where
  file : Bytes → Node
  folder : Node

abbrev pub Entries : Type 0
Entries = List (Place × Node)

-- The folders are known by their whole path.
pub record Disk : Type 0 where
  pub entries : Entries
  pub folders : List String

pub data Call : Type 0 where
  read write remove next_entry : Place → Call
  create_dir_all read_dir : String → Call

-- `left` is what a write that fails leaves of the file.
pub record Io : Type 0 where
  pub refuses : Call → Option String
  pub left : Place → Option Node

abbrev pub is_at : Place → Place → Bool
is_at p q = p.parent == q.parent && p.file_name == q.file_name

unfoldable pub find : Place → Entries → Option Node
find p [] = none
find p ((q, node) ∷ es) = if is_at q p then some node else find p es

unfoldable pub drop : Place → Entries → Entries
drop p [] = []
drop p ((q, node) ∷ es) = let rest = drop p es in if is_at q p then rest else (q, node) ∷ rest

abbrev pub put : Place → Option Node → Entries → Entries
put p none es = drop p es
put p (some node) es = (p, node) ∷ drop p es

unfoldable pub list_dir : String → Entries → List (String × Node)
list_dir dir [] = []
list_dir dir ((q, node) ∷ es) =
    let rest = list_dir dir es in if q.parent == dir then (q.file_name, node) ∷ rest else rest

abbrev pub Action : Type 0 → Type 0
Action A = Disk → Result A × Disk

infixl 5 ◌>>=◌
abbrev pub and_next : {A B : Type 0} → (A → Action B) → Result A × Disk → Result B × Disk
and_next continue (err e, disk) = (err e, disk)
and_next continue (ok a, disk) = continue a disk

abbrev pub ◌>>=◌ : {A B : Type 0} → Action A → (A → Action B) → Action B
◌>>=◌ action continue disk = and_next continue (action disk)

abbrev pub pure : {A : Type 0} → A → Action A
pure a disk = (ok a, disk)

abbrev pub lift : {A : Type 0} → Result A → Action A
lift r disk = (r, disk)

abbrev pub has_folder : String → Disk → Bool
has_folder dir disk = any (λ f. f == dir) disk.folders

-- `Path::exists` of a file and of a folder.
abbrev pub is_there : Option Node → Bool
is_there none = false
is_there (some node) = true

unfoldable pub exists : Place → Action Bool
exists p disk = (ok (is_there (find p disk.entries)), disk)

unfoldable pub dir_exists : String → Action Bool
dir_exists dir disk = (ok (has_folder dir disk), disk)

module _ (io : Io) where
  unless : {A : Type 0} → Option String → Action A → Action A
  unless (some e) action disk = (err e, disk)
  unless none action disk = action disk

  bytes_at : Option Node → Result Bytes
  bytes_at none = err "No such file or directory"
  bytes_at (some folder) = err "Is a directory"
  bytes_at (some (file bytes)) = ok bytes

  unfoldable pub read_file : Place → Action Bytes
  unfolding unless bytes_at
  read_file p = unless (io.refuses (read p)) (λ disk. (bytes_at (find p disk.entries), disk))

  write_over : Place → Bytes → Option Node → Action (Unit {0})
  write_over p bytes (some folder) disk = (err "Is a directory", disk)
  write_over p bytes _ disk =
      if has_folder p.parent disk
      then (ok tt, record disk { entries = put p (some (file bytes)) disk.entries })
      else (err "No such file or directory", disk)

  write_try : Place → Bytes → Option String → Action (Unit {0})
  write_try p bytes (some e) disk =
      (err e, record disk { entries = put p (io.left p) disk.entries })
  write_try p bytes none disk = write_over p bytes (find p disk.entries) disk

  unfoldable pub write_file : Place → Bytes → Action (Unit {0})
  unfolding write_over write_try
  write_file p bytes = write_try p bytes (io.refuses (write p))

  remove_at : Place → Option Node → Action (Unit {0})
  remove_at p none disk = (err "No such file or directory", disk)
  remove_at p (some folder) disk = (err "Is a directory", disk)
  remove_at p (some (file bytes)) disk = (ok tt, record disk { entries = drop p disk.entries })

  unfoldable pub remove_file : Place → Action (Unit {0})
  unfolding unless remove_at
  remove_file p = unless (io.refuses (remove p)) (λ disk. remove_at p (find p disk.entries) disk)

  unfoldable pub create_dir : String → Action (Unit {0})
  unfolding unless
  create_dir dir =
      unless (io.refuses (create_dir_all dir))
        (λ disk. (ok tt, record disk { folders = dir ∷ disk.folders }))

  unfoldable pub entries_of : String → Action (List (String × Node))
  unfolding unless
  entries_of dir =
      unless (io.refuses (read_dir dir)) (λ disk. (ok (list_dir dir disk.entries), disk))

  -- `next_entry` on an entry that is there.
  unfoldable pub next : Place → Action (Unit {0})
  unfolding unless
  next p = unless (io.refuses (next_entry p)) (pure tt)
