-- ===== src/Override/Merge/Lookup.antt =====
-- yaml_merger.rs: what each key of the merged mapping holds, against a description that looks at
-- one key alone.
use stelliberty_m.Base.{
  ◌≡◌, refl, String, Option, none, some, Result, ok, ◌>>=◌, ok_or, ◌==◌, eq_iff, arith,
  if◌then◌else◌, >>=-eq-ok, ok-injective, Bool-cases, inl, inr,
}
use stelliberty_m.Yaml.{Value, sequence, Mapping, end, entry, Yaml, Laws, ◌+++◌, as_str}
use stelliberty_m.Override.Merge.{
  Directive, replace, prepend, append, merge, directive, prepend_items, append_items, merge_present,
  merge_entry, deep_merge, merge_entries,
}

-- The key of the base that a directive is about.
abbrev pub target : Directive → String
target (replace k) = k
target (prepend k) = k
target (append k) = k
target (merge k) = k

abbrev pub join_front : Option Value → Value → Value
join_front (some (sequence old)) (sequence new) = sequence (new +++ old)
join_front _ new = new

abbrev pub join_back : Option Value → Value → Value
join_back (some (sequence old)) (sequence new) = sequence (old +++ new)
join_back _ new = new

abbrev pub join_deep : (Value → Result Value) → Option Value → Value → Result Value
join_deep rec none new = ok new
join_deep rec (some old) new = rec old

-- The value that a directive leaves at its target, from the value that stood there.
abbrev pub outcome : (Value → Result Value) → Directive → Option Value → Value → Result Value
outcome rec (replace k) old new = ok new
outcome rec (prepend k) old new = ok (join_front old new)
outcome rec (append k) old new = ok (join_back old new)
outcome rec (merge k) old new = join_deep rec old new

-- The value at `j` after one entry of the override: another key's value stays.
abbrev pub after_entry :
    (Value → Result Value) → Directive → Value → String → Option Value → Result (Option Value)
after_entry rec d new j old =
    if target d == j then (outcome rec d old new >>= λ v. ok (some v)) else ok old

module _ (y : Yaml) where
  -- The value at `j` after all entries of the override, in their order.
  abbrev pub after_entries : String → Option Value → Mapping → Result (Option Value)
  after_entries j old end = ok old
  after_entries j old (entry key over rest) = do
    k ← ok_or (as_str y key) "键必须是字符串"
    next ← after_entry (λ b. deep_merge y b over) (directive k) over j old
    after_entries j next rest

module _ (y : Yaml) (laws : Laws y) where
  prepend_items-lookup :
      (k j : String) (old : Option Value) (new : Value) (m : Mapping)
      → y.get k m ≡ old
      → y.get j (prepend_items y k old new m)
        ≡ (if k == j then some (join_front old new) else y.get j m)
  unfolding prepend_items
  prepend_items-lookup k j (some (sequence xs)) (sequence ys) m e =
      laws.get-set k j _ (sequence xs) m e
  prepend_items-lookup k j _ new m e = laws.get-insert k j new m

  append_items-lookup :
      (k j : String) (old : Option Value) (new : Value) (m : Mapping)
      → y.get k m ≡ old
      → y.get j (append_items y k old new m)
        ≡ (if k == j then some (join_back old new) else y.get j m)
  unfolding append_items
  append_items-lookup k j (some (sequence xs)) (sequence ys) m e =
      laws.get-set k j _ (sequence xs) m e
  append_items-lookup k j _ new m e = laws.get-insert k j new m

  after_of_lookup :
      (rec : Value → Result Value) (d : Directive) (new r : Value) (j : String) (m m' : Mapping)
      → outcome rec d (y.get (target d) m) new ≡ ok r
      → y.get j m' ≡ (if target d == j then some r else y.get j m)
      → after_entry rec d new j (y.get j m) ≡ ok (y.get j m')
  after_of_lookup rec d new r j m m' o e = elim (Bool-cases (target d == j)) [
    | inl same ↦
        let key : target d ≡ j = (eq_iff _ _).0 same in
        let settled = rw key at o in rw (e, same, settled)
    | inr other ↦ rw (e, other)
  ]

  merge_present-lookup :
      (rec : Value → Result Value) (k : String) (old : Option Value) (new : Value) (j : String)
      (m m' : Mapping)
      → y.get k m ≡ old
      → merge_present y rec k old new m ≡ ok m'
      → (r : Value) × (join_deep rec old new ≡ ok r)
        × (y.get j m' ≡ (if k == j then some r else y.get j m))
  unfolding merge_present
  merge_present-lookup rec k none new j m m' e h =
      (new, refl, rw (← ok-injective h) (laws.get-insert k j new m))
  merge_present-lookup rec k (some old) new j m m' e h =
      let (r, merged, last) = >>=-eq-ok (rec old) _ h in
      (
        r,
        merged,
        rw (← ok-injective last)
            (ground (arith, laws.get-insert k j r (y.remove k m), laws.get-remove k j m)),
      )

  -- One entry changes the lookups of a mapping as `after_entry` says.
  pub merge_entry-lookup :
      (rec : Value → Result Value) (d : Directive) (new : Value) (j : String) (m m' : Mapping)
      → merge_entry y rec d new m ≡ ok m'
      → after_entry rec d new j (y.get j m) ≡ ok (y.get j m')
  unfolding merge_entry
  merge_entry-lookup rec (replace k) new j m m' h =
      after_of_lookup rec (replace k) new new j m m' refl
        (rw (← ok-injective h) (laws.get-insert k j new m))
  merge_entry-lookup rec (prepend k) new j m m' h =
      after_of_lookup rec (prepend k) new _ j m m' refl
        (rw (← ok-injective h) (prepend_items-lookup k j (y.get k m) new m refl))
  merge_entry-lookup rec (append k) new j m m' h =
      after_of_lookup rec (append k) new _ j m m' refl
        (rw (← ok-injective h) (append_items-lookup k j (y.get k m) new m refl))
  merge_entry-lookup rec (merge k) new j m m' h =
      let (r, merged, found) = merge_present-lookup rec k (y.get k m) new j m m' refl h in
      after_of_lookup rec (merge k) new r j m m' merged found

  -- Where the library has its laws and the merge succeeds, the merged mapping holds at every key what
  -- the entries of the override, in their order, make of the base's value.
  pub merge_entries-lookup :
      (j : String) (base over m : Mapping)
      → merge_entries y base over ≡ ok m
      → after_entries y j (y.get j base) over ≡ ok (y.get j m)
  unfolding merge_entries
  merge_entries-lookup j base end m h = rw (ok-injective h)
  merge_entries-lookup j base (entry key over rest) m h =
      let (k, named, h') = >>=-eq-ok (ok_or (as_str y key) _) _ h in
      let (next, done, h'') = >>=-eq-ok (merge_entry y _ (directive k) over base) _ h' in
      let step =
        merge_entry-lookup (λ b. deep_merge y b over) (directive k) over j base next done in
      rw (named, step) (merge_entries-lookup j next rest m h'')
