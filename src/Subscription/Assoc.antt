-- ===== src/Subscription/Assoc.antt =====
-- Concrete `Libraries` for the subscription code: a map is searched from the front, `insert` replaces
-- in place or appends. A URL, a Base64 text and a document are tables of the few that tests use. It
-- shows that `Laws` can hold.
use stelliberty_m.Base.{
  ◌≡◌, refl, String, false, Option, none, some, ok, err, ◌==◌, eq_iff, arith, if◌then◌else◌,
}
use stelliberty_m.Yaml
use stelliberty_m.Subscription.Json.{
  JsonValue, Fields, end, field, Url, not_base64, plain, Libraries, Laws,
}

abbrev pub get : String → Fields → Option JsonValue
get j end = none
get j (field k v m) = if k == j then some v else get j m

abbrev pub insert : String → JsonValue → Fields → Fields
insert k v end = field k v end
insert k v (field j w m) = if j == k then field j v m else field j w (insert k v m)

get-insert :
    (k j : String) (v : JsonValue) (m : Fields)
    → get j (insert k v m) ≡ (if k == j then some v else get j m)
get-insert k j v end = refl
get-insert k j v (field i w m) =
    ground (arith, eq_iff i k, eq_iff i j, eq_iff k j, get-insert k j v m)

-- `url` is what every text is parsed as, `auth` the one Base64 text, and `secret` what it encodes.
abbrev pub assoc_libraries : Url → String → String → Libraries
assoc_libraries url auth secret = record {
  get = get;
  insert = insert;
  json_from_str = λ s. err "EOF";
  to_json = λ v. err "none";
  to_yaml = λ j. ok Yaml.null;
  get_value = λ k v. none;
  parse_url = λ s. if s == "" then err "relative URL without a base" else ok url;
  decode_percent = λ s. some s;
  decode_base64 = λ s. if s == auth then plain secret else not_base64 "invalid";
  is_alphanumeric = λ c. false;
  quote_short_ids = λ s. ok s;
}

pub assoc_laws : (url : Url) (auth secret : String) → Laws (assoc_libraries url auth secret)
assoc_laws url auth secret = record { get-end = λ j. refl; get-insert = get-insert }
