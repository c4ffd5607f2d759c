-- ===== src/Update/Core.antt =====
-- native/hub/src/molecules/core_update/updater.rs: which file of a release is the core, how it is
-- unpacked, and how it replaces the old core. The archive readers are arguments. The two paths of
-- `replace_core` are the two fields of `Files`; what the disk refuses is a value of `Disk`.
pub mod Replace
use stelliberty_m.Base.{
  ℕ, String, Bool, true, false, not, ◌&&◌, ◌||◌, List, [], ◌∷◌, Option, none, some, Result, ok, err,
  ◌>>=◌, and_then, ok_or, if◌then◌else◌, ◌==◌, has_char, eqb, contains, ends_with, is_some,
}
use Prim.Native.String
use stelliberty_m.Subscription.Json.{JsonValue, object, Libraries, as_str, as_array}

abbrev pub Bytes : Type 0
Bytes = List ℕ

module _ (l : Libraries) where
  -- `Value::get(&str)`.
  unfoldable pub get_json : String → JsonValue → Option JsonValue
  get_json key (object m) = l.get key m
  get_json key _ = none

  -- The keyword is in the name of this asset.
  is_named : String → Option String → Bool
  is_named keyword none = false
  is_named keyword (some name) = contains name keyword

  abbrev pub asset_text : String → JsonValue → Option String
  asset_text key asset = and_then (get_json key asset) as_str

  pair_of : Option String → Option String → Option (String × String)
  pair_of (some url) (some name) = some (url, name)
  pair_of _ _ = none

  -- The first asset that fits ends the search, also if it has no URL.
  unfoldable pub find_in : String → List JsonValue → Option (String × String)
  unfolding get_json is_named pair_of
  find_in keyword [] = none
  find_in keyword (asset ∷ assets) =
      let rest = find_in keyword assets in
      if is_named keyword (asset_text "name" asset)
      then pair_of (asset_text "browser_download_url" asset) (asset_text "name" asset)
      else rest

  unfoldable pub find_asset : JsonValue → String → String → Option (String × String)
  unfolding find_in get_json
  find_asset release_info platform arch =
      and_then (and_then (get_json "assets" release_info) as_array)
        (find_in (String.◌++◌ platform (String.◌++◌ "-" arch)))

-- A file of a ZIP archive, and what reading it gives.
pub record ZipFile : Type 0 where
  pub name : String
  pub is_file : Bool
  pub contents : Result Bytes

is_executable : ZipFile → Bool
is_executable f = f.is_file && (ends_with f.name ".exe" || not (has_char (λ c. eqb c b'.') f.name))

-- `by_index` may fail for a file of the archive.
unfoldable pub first_executable : List (Result ZipFile) → Result Bytes
unfolding is_executable ends_with
first_executable [] = err "压缩包中未找到可执行文件"
first_executable (err e ∷ files) = err e
first_executable (ok f ∷ files) =
    let rest = first_executable files in if is_executable f then f.contents else rest

unfoldable pub extract_core :
    (Bytes → Result (List (Result ZipFile)))
    → (Bytes → Result Bytes)
    → String
    → Bytes
    → Result Bytes
unfolding first_executable ends_with
extract_core read_zip gunzip file_name file_bytes =
    if ends_with file_name ".zip"
    then (read_zip file_bytes >>= first_executable)
    else (if ends_with file_name ".gz"
        then gunzip file_bytes
        else err (String.◌++◌ "不支持的文件格式: " file_name))

pub record File : Type 0 where
  pub content : Bytes
  pub is_executable : Bool

-- The files at `core_path` and at `backup_path`.
pub record Files : Type 0 where
  pub core : Option File
  pub backup : Option File

-- `async_fs::write`: a failure may leave nothing, or a part.
pub data Write : Type 0 where
  written : Write
  write_failed : String → Option File → Write

-- What the disk answers to each call of `replace_core`; `none` is a success.
pub record Disk : Type 0 where
  pub backup_rename : Option String
  pub write : Write
  pub set_permissions : Option String
  pub remove : Option String
  pub restore_rename : Option String

abbrev pub Outcome : Type 0
Outcome = Result (Unit {0}) × Files

permitted : Bool → Option String → Bytes → Files → Outcome
permitted true answer bytes f =
    (ok tt, record f { core = some (record { content = bytes; is_executable = false }) })
permitted false (some e) bytes f =
    (err e, record f { core = some (record { content = bytes; is_executable = false }) })
permitted false none bytes f =
    (ok tt, record f { core = some (record { content = bytes; is_executable = true }) })

removed : Option String → Option File → Option File
removed (some e) core = core
removed none core = none

restored : Option String → String → File → Files → Outcome
restored (some e) why old f = (err e, f)
restored none why old f = (err why, record { core = some old; backup = none })

rolled_back : Disk → String → Option File → Files → Outcome
rolled_back disk why none f = (err why, f)
rolled_back disk why (some old) f =
    restored disk.restore_rename why old (record f { core = removed disk.remove f.core })

write_core : Disk → Bool → Write → Bytes → Files → Outcome
write_core disk windows written bytes f = permitted windows disk.set_permissions bytes f
write_core disk windows (write_failed e part) bytes f =
    rolled_back disk (String.◌++◌ "替换核心失败: " e) f.backup (record f { core = part })

back_up : Disk → Bool → Option File → Option String → Bytes → Files → Outcome
back_up disk windows none answer bytes f = write_core disk windows disk.write bytes f
back_up disk windows (some old) (some e) bytes f = (err e, f)
back_up disk windows (some old) none bytes f =
    write_core disk windows disk.write bytes (record { core = none; backup = some old })

-- The permissions are set where the platform is not Windows, on a Unix build.
unfoldable pub replace_core : Disk → String → Bytes → Files → Outcome
unfolding permitted removed restored rolled_back write_core back_up
replace_core disk platform bytes f =
    back_up disk (platform == "windows") f.core disk.backup_rename bytes f
