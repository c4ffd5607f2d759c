-- ===== src/Yaml.antt =====
-- The values of `serde_yaml_ng` that the configuration code reads and builds, and the library's
-- operations as a parameter. `Value` and `Number` have the constructors that the library documents
-- (a number's `float` holds the bits of an `f64`). How a `Mapping` finds, inserts and removes a
-- key, what a tagged value answers, parsing and printing are the fields of `Yaml`; `Laws` states
-- what the program relies on, and `Yaml/Assoc.antt` has an instance that meets it.
pub mod Assoc
use stelliberty_m.Base.{
  ℕ, ◌≡◌, ◌≢◌, String, Bool, true, false, List, [], ◌∷◌, Option, none, some, Result, ok, ◌==◌,
  if◌then◌else◌,
}

pub data Number : Type 0 where
  pos_int neg_int float : ℕ → Number

mutual
  pub data Value : Type 0 where
    null : Value
    bool : Bool → Value
    number : Number → Value
    string : String → Value
    sequence : Items → Value
    mapping : Mapping → Value
    tagged : String → Value → Value

  pub data Items : Type 0 where
    nil : Items
    cons : Value → Items → Items

  pub data Mapping : Type 0 where
    end : Mapping
    entry : Value → Value → Mapping → Mapping

-- `Mapping::new()`.
abbrev pub new : Mapping
new = end

infixr 65 ◌+++◌
-- `Vec::extend`.
unfoldable pub ◌+++◌ : Items → Items → Items
nil +++ ys = ys
cons x xs +++ ys = cons x (xs +++ ys)

abbrev pub to_list : Items → List Value
to_list nil = []
to_list (cons v vs) = v ∷ to_list vs

-- `iter().map(..).collect()` into a sequence.
abbrev pub from_list : List Value → Items
from_list [] = nil
from_list (v ∷ vs) = cons v (from_list vs)

-- The keys of a mapping are `YamlValue::String(k)` wherever the program names one. `set` writes
-- through `get_mut`; the `tagged_` fields are the answers of `as_str` and its like on `tagged t v`.
pub record Yaml : Type 0 where
  pub get : String → Mapping → Option Value
  pub insert : String → Value → Mapping → Mapping
  pub set : String → Value → Mapping → Mapping
  pub remove : String → Mapping → Mapping
  pub tagged_str : String → Value → Option String
  pub tagged_sequence : String → Value → Option Items
  pub tagged_mapping : String → Value → Option Mapping
  pub tagged_mapping_mut : String → Value → Option (Mapping × (Mapping → Value))
  pub from_str : String → Result Value
  pub to_string : Value → Result String

pub record Laws (y : Yaml) : Type 0 where
  pub get-end : (j : String) → y.get j end ≡ none
  pub get-insert :
      (k j : String) (v : Value) (m : Mapping)
      → y.get j (y.insert k v m) ≡ (if k == j then some v else y.get j m)
  pub get-set :
      (k j : String) (v w : Value) (m : Mapping)
      → y.get k m ≡ some w
      → y.get j (y.set k v m) ≡ (if k == j then some v else y.get j m)
  pub get-remove :
      (k j : String) (m : Mapping) → y.get j (y.remove k m) ≡ (if k == j then none else y.get j m)

module _ (y : Yaml) where
  abbrev pub as_str : Value → Option String
  as_str (string s) = some s
  as_str (tagged t v) = y.tagged_str t v
  as_str _ = none

  abbrev pub as_sequence : Value → Option Items
  as_sequence (sequence xs) = some xs
  as_sequence (tagged t v) = y.tagged_sequence t v
  as_sequence _ = none

  abbrev pub as_mapping : Value → Option Mapping
  as_mapping (mapping m) = some m
  as_mapping (tagged t v) = y.tagged_mapping t v
  as_mapping _ = none

  -- The mapping inside a value, and how the value is rebuilt after a write to it.
  abbrev pub as_mapping_mut : Value → Option (Mapping × (Mapping → Value))
  as_mapping_mut (mapping m) = some (m, mapping)
  as_mapping_mut (tagged t v) = y.tagged_mapping_mut t v
  as_mapping_mut _ = none
