-- ===== src/Override/Merge.antt =====
-- native/hub/src/atoms/override_processor/yaml_merger.rs: the deep merge of an override into a
-- base configuration, with the key forms `key!`, `+key`, `key+` and `<key>`.
pub mod Lookup
pub mod Total
pub mod Keys
use stelliberty_m.Base.{
  String, Option, none, some, Result, ok, ◌>>=◌, map_err, ok_or, is_empty, strip_prefix,
  strip_suffix, if◌then◌else◌,
}
use stelliberty_m.Yaml.{Value, sequence, mapping, Mapping, end, entry, Yaml, ◌+++◌, as_str}

-- What a key of the override asks for, with the key of the base that it is about.
pub data Directive : Type 0 where
  replace prepend append merge : String → Directive

-- `&key[1..key.len() - 1]` of a key in angle brackets with a text between them, else the key.
unwrap_key : String → Option String → String
unwrap_key key none = key
unwrap_key key (some inner) = if is_empty inner then key else inner

before_close : Option String → Option String
before_close none = none
before_close (some rest) = strip_suffix b'>' rest

unfoldable pub clean_key : String → String
unfolding strip_prefix strip_suffix unwrap_key before_close
clean_key key = unwrap_key key (before_close (strip_prefix b'<' key))

-- The order of the tests: `key!`, then `+key`, then `key+`, then any other key.
classify : String → Option String → Option String → Option String → Directive
classify key (some actual_key) _ _ = replace actual_key
classify key none (some actual_key) _ = prepend actual_key
classify key none none (some actual_key) = append actual_key
classify key none none none = merge (clean_key key)

unfoldable pub directive : String → Directive
unfolding strip_prefix strip_suffix clean_key classify
directive key = classify key (strip_suffix b'!' key) (strip_prefix b'+' key) (strip_suffix b'+' key)

module _ (y : Yaml) where
  -- The arrays are joined only where both sides are plain sequences.
  prepend_items : String → Option Value → Value → Mapping → Mapping
  prepend_items k (some (sequence old)) (sequence new) m = y.set k (sequence (new +++ old)) m
  prepend_items k _ new m = y.insert k new m

  append_items : String → Option Value → Value → Mapping → Mapping
  append_items k (some (sequence old)) (sequence new) m = y.set k (sequence (old +++ new)) m
  append_items k _ new m = y.insert k new m

  merge_present : (Value → Result Value) → String → Option Value → Value → Mapping → Result Mapping
  merge_present rec k none new m = ok (y.insert k new m)
  merge_present rec k (some old) new m = do merged ← rec old; ok (y.insert k merged (y.remove k m))

  -- One round of the loop; `rec` is the recursive call on a base value and this override value.
  unfoldable pub merge_entry : (Value → Result Value) → Directive → Value → Mapping → Result Mapping
  unfolding prepend_items append_items merge_present
  merge_entry rec (replace k) new m = ok (y.insert k new m)
  merge_entry rec (prepend k) new m = ok (prepend_items k (y.get k m) new m)
  merge_entry rec (append k) new m = ok (append_items k (y.get k m) new m)
  merge_entry rec (merge k) new m = merge_present rec k (y.get k m) new m

  -- A mapping over a mapping is merged; over any other base it replaces it.
  merge_onto : (Mapping → Result Mapping) → Value → Value → Result Value
  merge_onto entries (mapping base) over = do m ← entries base; ok (mapping m)
  merge_onto entries _ over = ok over

  unfoldable mutual
    unfolding merge_onto

    -- An array replaces an array, and any other value the base's.
    pub deep_merge : Value → Value → Result Value
    deep_merge base (mapping over) = merge_onto (λ b. merge_entries b over) base (mapping over)
    deep_merge base over = ok over

    pub merge_entries : Mapping → Mapping → Result Mapping
    merge_entries base end = ok base
    merge_entries base (entry key over rest) = do
      k ← ok_or (as_str y key) "键必须是字符串"
      m ← merge_entry (λ b. deep_merge b over) (directive k) over base
      merge_entries m rest

  -- `YamlMerger::apply`.
  unfoldable pub apply : String → String → Result String
  apply base_content override_content = do
    base ← map_err "解析基础配置失败：" (y.from_str base_content)
    over ← map_err "解析覆写配置失败：" (y.from_str override_content)
    merged ← deep_merge base over
    map_err "序列化配置失败：" (y.to_string merged)
