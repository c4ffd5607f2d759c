-- ===== src/Override/Tests.antt =====
-- Runs of the override code and of its theorems on small configurations.
use Prim.Native.String
use stelliberty_m.Base.{◌≡◌, refl, [], ◌∷◌, some, ok, false}
use stelliberty_m.Yaml.{
  Value, null, string, bool, sequence, nil, cons, mapping, Mapping, end, entry, Yaml, new,
}
use stelliberty_m.Yaml.Assoc.{assoc_yaml, assoc_laws}
use stelliberty_m.Override.Merge.{directive, append, merge, deep_merge, merge_entries}
use stelliberty_m.Override.Merge.Lookup.{after_entries, merge_entries-lookup}
use stelliberty_m.Override.Merge.Total.{deep_merge_total}
use stelliberty_m.Override.Script
use stelliberty_m.Override.Script.{Scripting, escape}
use stelliberty_m.Override.Script.Literal.{read, read-escape}
use stelliberty_m.Override.Processor
use stelliberty_m.Override.Processor.{OverrideConfig, yaml, javascript, apply_overrides, continue}
use stelliberty_m.Override.Request.{ApplyOverridesRequest, handle_apply}
use stelliberty_m.Override.Request.Laws.{Succeeds, handle_apply_of_Succeeds, handle_apply-Succeeds}

abbrev base : Mapping
base =
    entry (string "mode") (string "rule")
      (entry (string "rules") (sequence (cons (string "a") nil)) end)

-- `+rules: [b]` and `dns!: {}`.
abbrev over : Mapping
over =
    entry (string "+rules") (sequence (cons (string "b") nil))
      (entry (string "dns!") (mapping new) end)

abbrev library : Yaml
library = assoc_yaml (mapping base)

-- An engine that answers every script with "{}".
abbrev scripting : Scripting
scripting = record {
  Json = Value;
  Engine = Unit {0};
  new_engine = ok tt;
  to_value = λ v. ok v;
  to_string = λ v. ok "{}";
  from_str = λ s. ok (mapping new);
  from_value = λ v. ok v;
  eval = λ engine code. (ok "{}", engine);
}

abbrev merged : Mapping
merged = entry (string "mode") (string "rule") (
    entry (string "rules") (sequence (cons (string "b") (cons (string "a") nil)))
      (entry (string "dns") (mapping new) end))

merged_run : merge_entries library base over ≡ ok merged
unfolding merge_entries directive stelliberty_m.Override.Merge.merge_entry stelliberty_m.Yaml.◌+++◌
merged_run = refl

merge_entries-lookup_example :
    after_entries library "rules" (library.get "rules" base) over ≡ ok (library.get "rules" merged)
merge_entries-lookup_example =
    merge_entries-lookup library (assoc_laws (mapping base)) "rules" base over merged merged_run

deep_merge_total_example : (r : Value) × (deep_merge library (mapping base) (mapping over) ≡ ok r)
deep_merge_total_example =
    deep_merge_total library (mapping base) (mapping over)
      (("+rules", refl), tt, (("dns!", refl), tt, tt))

read-escape_example :
    read false (String.◌++◌ (escape "it's \\ here") (String.◌++◌ "'" ");"))
    ≡ some ("it's \\ here", ");")
read-escape_example = read-escape "it's \\ here" ");"

abbrev first : OverrideConfig
first = record { id = "1"; name = "first"; format = yaml; content = "mode: rule" }

abbrev second : OverrideConfig
second = record { id = "2"; name = "second"; format = javascript; content = "function main(c) {}" }

abbrev request : ApplyOverridesRequest
request = record {
  request_id = "r";
  base_config_content = "mode: rule";
  overrides = first ∷ second ∷ [];
}

request-Succeeds : Succeeds library scripting (λ s. ok s) request "doc"
unfolding apply_overrides Processor.new Processor.apply_one Script.apply
    stelliberty_m.Override.Merge.apply deep_merge stelliberty_m.Override.Merge.merge_entry directive
request-Succeeds = record {
  engine = tt;
  started_ok = refl;
  config = "mode: rule";
  parsed_ok = refl;
  applied = ("doc", tt, (refl, refl), ("doc", tt, refl, refl));
}

handle_apply-Succeeds_example :
    Succeeds library scripting
      (λ s. ok s)
      request
      (handle_apply library scripting (λ s. ok s) request).result_config
handle_apply-Succeeds_example =
    handle_apply-Succeeds library scripting (λ s. ok s) request
      (handle_apply_of_Succeeds library scripting (λ s. ok s) request "doc" request-Succeeds).0
