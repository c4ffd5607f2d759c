-- ===== src/Yaml/Assoc.antt =====
-- A concrete `Yaml`: a mapping is searched from the front, `insert` replaces in place or appends,
-- `remove` drops every entry of a key. It shows that `Laws` can hold, and runs in tests. A text
-- stands for itself as a `string`, but for one name of a stored document, so that parsing and
-- printing run too.
use stelliberty_m.Base.{
  ◌≡◌, refl, String, Bool, true, false, Option, none, some, ok, err, ◌==◌, eq_iff, arith,
  if◌then◌else◌,
}
use stelliberty_m.Yaml.{Value, null, string, Mapping, end, entry, Yaml, Laws}

-- Is this key the string `k`?
abbrev pub is_key : String → Value → Bool
is_key k (string s) = s == k
is_key k _ = false

abbrev pub get : String → Mapping → Option Value
get j end = none
get j (entry k v m) = if is_key j k then some v else get j m

abbrev pub insert : String → Value → Mapping → Mapping
insert k v end = entry (string k) v end
insert k v (entry j w m) = if is_key k j then entry j v m else entry j w (insert k v m)

abbrev pub remove : String → Mapping → Mapping
remove k end = end
remove k (entry j w m) = let rest = remove k m in if is_key k j then rest else entry j w rest

is_key-eq : (i k j : String) → (i == k) ≡ true → (i == j) ≡ (k == j)
is_key-eq i k j e = ground (arith, eq_iff i k)

get-insert :
    (k j : String) (v : Value) (m : Mapping)
    → get j (insert k v m) ≡ (if k == j then some v else get j m)
get-insert k j v end = refl
get-insert k j v (entry (string i) w m) =
    ground (arith, eq_iff i k, eq_iff i j, eq_iff k j, get-insert k j v m)
get-insert k j v (entry null w m) = get-insert k j v m
get-insert k j v (entry _ w m) = get-insert k j v m

get-remove : (k j : String) (m : Mapping) → get j (remove k m) ≡ (if k == j then none else get j m)
get-remove k j end = ground arith
get-remove k j (entry (string i) w m) =
    ground (arith, eq_iff i k, eq_iff i j, eq_iff k j, get-remove k j m)
get-remove k j (entry null w m) = get-remove k j m
get-remove k j (entry _ w m) = get-remove k j m

-- The library that reads one document, `root`, under every text but "", and prints every value as
-- its own text or as "doc".
abbrev pub assoc_yaml : Value → Yaml
assoc_yaml root = record {
  get = get;
  insert = insert;
  set = insert;
  remove = remove;
  tagged_str = λ t v. none;
  tagged_sequence = λ t v. none;
  tagged_mapping = λ t v. none;
  tagged_mapping_mut = λ t v. none;
  from_str = λ s. if s == "" then err "EOF" else ok root;
  to_string = λ v. ok "doc";
}

pub assoc_laws : (root : Value) → Laws (assoc_yaml root)
assoc_laws root = record {
  get-end = λ j. refl;
  get-insert = get-insert;
  get-set = λ k j v w m h. get-insert k j v m;
  get-remove = get-remove;
}
