-- ===== src/Override/Merge/Total.antt =====
-- yaml_merger.rs: when the merge succeeds, its one error, and what it leaves alone.
use stelliberty_m.Base.{
  ◌≡◌, refl, sym, String, Option, none, some, Result, ok, ok_or, ◌==◌, ◌≢◌, eq_iff, >>=-eq-ok,
  ok_or-eq-ok, ok-injective, inl, inr, Bool-cases,
}
use stelliberty_m.Yaml.{Value, mapping, Mapping, end, entry, Yaml, Laws, as_str}
use stelliberty_m.Override.Merge.{
  Directive, replace, prepend, append, merge, directive, merge_present, merge_onto, merge_entry,
  deep_merge, merge_entries,
}
use stelliberty_m.Override.Merge.Lookup.{target, after_entries, merge_entries-lookup}

module _ (y : Yaml) where
  -- Every key is a string, in the mapping and in the mappings that are its values.
  abbrev mutual
    pub HasStringKeys : Value → Type 0
    HasStringKeys (mapping m) = StringKeys m
    HasStringKeys _ = Unit

    pub StringKeys : Mapping → Type 0
    StringKeys end = Unit
    StringKeys (entry key v rest) =
        ((k : String) × (as_str y key ≡ some k)) × HasStringKeys v × StringKeys rest

  merge_present-total :
      (rec : Value → Result Value) (k : String) (old : Option Value) (new : Value) (m : Mapping)
      → ((b : Value) → (r : Value) × (rec b ≡ ok r))
      → (m' : Mapping) × (merge_present y rec k old new m ≡ ok m')
  unfolding merge_present
  merge_present-total rec k none new m all = (_, refl)
  merge_present-total rec k (some old) new m all =
      let (r, e) = all old in (y.insert k r (y.remove k m), rw e)

  merge_entry-total :
      (rec : Value → Result Value) (d : Directive) (new : Value) (m : Mapping)
      → ((b : Value) → (r : Value) × (rec b ≡ ok r))
      → (m' : Mapping) × (merge_entry y rec d new m ≡ ok m')
  unfolding merge_entry
  merge_entry-total rec (replace k) new m all = (_, refl)
  merge_entry-total rec (prepend k) new m all = (_, refl)
  merge_entry-total rec (append k) new m all = (_, refl)
  merge_entry-total rec (merge k) new m all = merge_present-total rec k (y.get k m) new m all

  merge_onto-total :
      (entries : Mapping → Result Mapping) (base over : Value)
      → ((b : Mapping) → (m : Mapping) × (entries b ≡ ok m))
      → (r : Value) × (merge_onto y entries base over ≡ ok r)
  unfolding merge_onto
  merge_onto-total entries (mapping base) over all = let (m, e) = all base in (mapping m, rw e)
  merge_onto-total entries _ over all = (over, refl)

  mutual
    unfolding deep_merge

    merge_value-ok :
        (over base : Value) → HasStringKeys over → (r : Value) × (deep_merge y base over ≡ ok r)
    merge_value-ok (mapping over) base s =
        merge_onto-total _ base (mapping over) (λ b. merge_all-ok over b s)
    merge_value-ok over base s = (over, refl)

    merge_all-ok :
        (over base : Mapping) → StringKeys over → (m : Mapping) × (merge_entries y base over ≡ ok m)
    merge_all-ok end base s = (base, refl)
    merge_all-ok (entry key v rest) base ((k, e), sv, sr) =
        let (next, done) =
          merge_entry-total (λ b. deep_merge y b v) (directive k) v base
            (λ b. merge_value-ok v b sv) in
        let (m, last) = merge_all-ok rest next sr in (m, rw (e, done) last)

  -- Whatever the base, an override all of whose keys are strings is merged.
  pub deep_merge_total :
      (base over : Value) → HasStringKeys over → (r : Value) × (deep_merge y base over ≡ ok r)
  deep_merge_total base over s = merge_value-ok over base s

  -- No entry of the override is about the key `j`.
  abbrev pub Spares : String → Mapping → Type 0
  Spares j end = Unit
  Spares j (entry key v rest) =
      ((k : String) → as_str y key ≡ some k → target (directive k) ≢ j) × Spares j rest

  after_entries-Spares :
      (j : String) (old r : Option Value) (over : Mapping)
      → Spares j over
      → after_entries y j old over ≡ ok r
      → r ≡ old
  after_entries-Spares j old r end s h = sym (ok-injective h)
  after_entries-Spares j old r (entry key v rest) (s, ss) h =
      let (k, named, h') = >>=-eq-ok (ok_or (as_str y key) _) _ h in
      let other = s k (ok_or-eq-ok (as_str y key) _ named) in
      elim (Bool-cases (target (directive k) == j)) [
        | inl same ↦ absurd (other ((eq_iff _ _).0 same))
        | inr apart ↦ after_entries-Spares j old r rest ss (rw apart at h')
      ]

module _ (y : Yaml) (laws : Laws y) where
  -- Where the library has its laws and the merge succeeds, a key that no entry of the override is
  -- about keeps its value.
  pub merge_entries-Spares :
      (j : String) (base over m : Mapping)
      → Spares y j over
      → merge_entries y base over ≡ ok m
      → y.get j m ≡ y.get j base
  merge_entries-Spares j base over m s h =
      after_entries-Spares y j _ _ over s (merge_entries-lookup y laws j base over m h)
