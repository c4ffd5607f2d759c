-- ===== src/Subscription/Parser/Output.antt =====
-- parser.rs: what a parse that succeeds returns, and what a generated configuration holds.
use Prim.Native.String.{len}
use stelliberty_m.Base.{
  ◌≡◌, refl, sym, ◌∙◌, ◌<◌, ◌↔◌, ◌||◌, ◌&&◌, false, if◌then◌else◌, All, Memᴰ, arith, eqb,
  remove_chars, is_whitespace, all_chars, Bool, contains, filter_map, >>=-eq-ok, map_err, ok_or,
  map_err-eq-ok, ok_or-eq-ok, ok-injective, ◌⊎◌, inl, inr, String, true, List, [], ◌∷◌, map, pos,
  Option, none, some, Result, ok, err, trim, Bool-cases,
}
use stelliberty_m.Yaml.{Value, Yaml}
use stelliberty_m.Subscription.Parser.Lines.{
  proxy_of, line_result, parse_lines_lem, parse_lines-none,
}
use stelliberty_m.Subscription.Json.{
  JsonValue, string, array, elements, object, Libraries, Laws, int, build, as_array, Decoded,
  not_base64, not_utf8, plain,
}
use stelliberty_m.Subscription.Parser.{
  lines, parse_lines, is_base64, decoded_or, is_ok, is_yaml_config, parse_yaml_json_proxies,
  parse_proxy_links, proxy_names, texts, group, clash_config, generate_clash_config, decode_content,
  from_links, from_yaml_json, parse_decoded, parse_subscription,
}

some_cancel : {A : Type 0} {a b : A} → some a ≡ some b → a ≡ b
some_cancel h = cc

or-cases : (a b : Bool) → (a || b) ≡ true → (a ≡ true) ⊎ (b ≡ true)
or-cases true b h = inl refl
or-cases false b h = inr h

module _ (y : Yaml) (l : Libraries) where
  abbrev pub compact : String → String
  compact content = remove_chars is_whitespace content

  -- More than 50 bytes beside the spaces, all of them letters, digits, "+", "/" or "=".
  abbrev pub LooksBase64 : String → Type 0
  LooksBase64 content =
      (50 < len (compact content))
      × (all_chars (λ c. l.is_alphanumeric c || eqb c b'+' || eqb c b'/' || eqb c b'=')
            (compact content)
          ≡ true)

  -- The content, or the text that it encodes in Base64.
  abbrev pub IsDecoded : String → String → Type 0
  IsDecoded content decoded =
      (LooksBase64 content × (l.decode_base64 (compact content) ≡ plain decoded))
      ⊎ ((decoded ≡ content)
          × (LooksBase64 content → (s : String) → ¬ (l.decode_base64 (compact content) ≡ plain s)))

  -- A configuration: YAML with the key of the proxies, and that of the groups or of the rules.
  abbrev pub IsConfig : String → Type 0
  IsConfig decoded =
      ((v : Value) × (y.from_str decoded ≡ ok v))
      × (contains decoded "proxies:" ≡ true)
      × ((contains decoded "proxy-groups:" ≡ true) ⊎ (contains decoded "rules:" ≡ true))

  -- The list of proxies that a YAML or JSON text has at its key.
  abbrev pub Listed : String → List JsonValue → Type 0
  Listed decoded proxies =
      (v : Value) × (list : Value) × (j : JsonValue) × (y.from_str decoded ≡ ok v)
      × (l.get_value "proxies" v ≡ some list)
      × (l.to_json list ≡ ok j)
      × (as_array j ≡ some proxies)

  -- The proxies of the lines that give one, in their order.
  abbrev pub Linked : String → List JsonValue → Type 0
  Linked decoded proxies =
      proxies ≡ filter_map (λ line. proxy_of y l (line_result y l line)) (lines decoded)

  -- A text that is generated from proxies, one at least: those of a list that the content has, or, where
  -- it has none or an empty one, those of its links.
  pub record Generated (decoded out : String) : Type 0 where
    pub proxy : JsonValue
    pub more : List JsonValue
    pub found :
        Listed decoded (proxy ∷ more)
        ⊎ (Linked decoded (proxy ∷ more)
            × ((q : JsonValue) (qs : List JsonValue) → ¬ Listed decoded (q ∷ qs)))
    pub value : Value
    pub text : String
    pub to_value : l.to_yaml (clash_config y l (proxy ∷ more)) ≡ ok value
    pub printed : y.to_string value ≡ ok text
    pub quoted : l.quote_short_ids text ≡ ok out

  is_base64_iff : (content : String) → (is_base64 y l content ≡ true) ↔ LooksBase64 content
  unfolding is_base64
  is_base64_iff content = (λ h. (ground arith, ground arith), λ (n, a). ground arith)

  decode_content-IsDecoded : (content : String) → IsDecoded content (decode_content y l content)
  unfolding decode_content
  decode_content-IsDecoded content = elim (Bool-cases (is_base64 y l content)) [
    | inl e ↦
        rw e (by_decoded ((is_base64_iff content).0 e) (l.decode_base64 (compact content)) refl)
    | inr e ↦ rw e (inr (refl, λ looks s h. let t = (is_base64_iff content).1 looks in cc))
  ]
    where
      by_decoded :
          LooksBase64 content
          → (d : Decoded) → l.decode_base64 (compact content) ≡ d
          → IsDecoded content (decoded_or y l content d)
      by_decoded looks (not_base64 e) h = inr (refl, λ _ s g. cc)
      by_decoded looks (not_utf8 e) h = inr (refl, λ _ s g. cc)
      by_decoded looks (plain s) h = inl (looks, h)

  is_yaml_config-IsConfig :
      (decoded : String) → is_yaml_config y l decoded ≡ true → IsConfig decoded
  unfolding is_yaml_config is_ok
  is_yaml_config-IsConfig decoded h = by_read (y.from_str decoded) refl h
    where
      by_read :
          (r : Result Value)
          → y.from_str decoded ≡ r
          → (if is_ok y l r
              then contains decoded "proxies:"
                && (contains decoded "proxy-groups:" || contains decoded "rules:")
              else false)
            ≡ true
          → IsConfig decoded
      by_read (ok v) e g = (
        (v, e),
        ground arith,
        or-cases (contains decoded "proxy-groups:") (contains decoded "rules:") (ground arith),
      )
      by_read (err m) e g = cc

  parse_yaml_json_proxies-Listed :
      (decoded : String) (proxies : List JsonValue)
      → (parse_yaml_json_proxies y l decoded ≡ ok proxies) ↔ Listed decoded proxies
  unfolding parse_yaml_json_proxies
  parse_yaml_json_proxies-Listed decoded proxies = (
    λ h.
        let (v, read, h₁) = >>=-eq-ok (map_err _ (y.from_str decoded)) _ h in
        let (list, at, h₂) = >>=-eq-ok (ok_or (l.get_value "proxies" v) _) _ h₁ in
        let (j, made, h₃) = >>=-eq-ok (map_err _ (l.to_json list)) _ h₂ in
        (
          v,
          list,
          j,
          map_err-eq-ok _ _ read,
          ok_or-eq-ok _ _ at,
          map_err-eq-ok _ _ made,
          ok_or-eq-ok _ _ h₃,
        ),
    λ (v, list, j, read, at, made, is). rw (read, at, made, is) refl,
  )

  parse_lines-Linked :
      (ls : List String) (proxies : List JsonValue)
      → parse_lines y l ls ≡ some proxies
      → proxies ≡ filter_map (λ line. proxy_of y l (line_result y l line)) ls
  parse_lines-Linked ls proxies h = some_cancel (
      sym h
      ∙ parse_lines_lem y l ls
          (none_panics ls (λ line m e. let no = parse_lines-none y l ls m e in cc)))
    where
      none_panics :
          (ks : List String)
          → ((line : String) → Memᴰ line ks → ¬ (line_result y l line ≡ none))
          → All (λ line. ¬ (line_result y l line ≡ none)) ks
      none_panics [] f = tt
      none_panics (k ∷ ks) f =
          (f k (Memᴰ.head refl), none_panics ks (λ line m. f line (Memᴰ.tail m)))

  generate-Generated :
      (decoded out : String) (p : JsonValue) (ps : List JsonValue)
      → (Listed decoded (p ∷ ps)
          ⊎ (Linked decoded (p ∷ ps)
              × ((q : JsonValue) (qs : List JsonValue) → ¬ Listed decoded (q ∷ qs))))
      → generate_clash_config y l (p ∷ ps) ≡ ok out
      → Generated decoded out
  unfolding generate_clash_config
  generate-Generated decoded out p ps found h =
      let (value, made, h₁) = >>=-eq-ok (map_err _ (l.to_yaml (clash_config y l (p ∷ ps)))) _ h in
      let (text, printed, h₂) = >>=-eq-ok (map_err _ (y.to_string value)) _ h₁ in
      record {
        proxy = p;
        more = ps;
        found = found;
        value = value;
        text = text;
        to_value = map_err-eq-ok _ _ made;
        printed = map_err-eq-ok _ _ printed;
        quoted = map_err-eq-ok _ _ h₂;
      }

  from_links-Generated :
      (decoded out : String) (o : Option (List JsonValue))
      → parse_proxy_links y l decoded ≡ o
      → ((q : JsonValue) (qs : List JsonValue) → ¬ Listed decoded (q ∷ qs))
      → from_links y l o ≡ some (ok out)
      → Generated decoded out
  unfolding from_links parse_proxy_links
  from_links-Generated decoded out none e n h = cc
  from_links-Generated decoded out (some []) e n h = cc
  from_links-Generated decoded out (some (p ∷ ps)) e n h =
      generate-Generated decoded out p ps (inr (parse_lines-Linked (lines decoded) (p ∷ ps) e, n))
        (some_cancel h)

  from_yaml_json-Generated :
      (decoded out : String) (r : Result (List JsonValue))
      → parse_yaml_json_proxies y l decoded ≡ r
      → from_yaml_json y l decoded r ≡ some (ok out)
      → Generated decoded out
  unfolding from_yaml_json
  from_yaml_json-Generated decoded out (ok (p ∷ ps)) e h =
      generate-Generated decoded out p ps
        (inl ((parse_yaml_json_proxies-Listed decoded (p ∷ ps)).0 e)) (some_cancel h)
  from_yaml_json-Generated decoded out (ok []) e h =
      from_links-Generated decoded out (parse_proxy_links y l decoded) refl
        (λ q qs listed.
          let f = (parse_yaml_json_proxies-Listed decoded (q ∷ qs)).1 listed in
          let g : [] ≡ q ∷ qs = ok-injective (sym e ∙ f) in cc)
        h
  from_yaml_json-Generated decoded out (err m) e h =
      from_links-Generated decoded out (parse_proxy_links y l decoded) refl
        (λ q qs listed. let f = (parse_yaml_json_proxies-Listed decoded (q ∷ qs)).1 listed in cc) h

  -- A parse that succeeds decodes the content without the spaces around it, where it looks like Base64 and
  -- is that of a text. It returns the decoded content itself, which is then YAML with the keys of a
  -- configuration; or a configuration generated from the proxies, of which there is one, that the decoded
  -- content lists at its key, or, where it lists none, from those of the lines that are links.
  pub parse_subscription-ok :
      (content out : String)
      → parse_subscription y l content ≡ some (ok out)
      → (decoded : String) × IsDecoded (trim content) decoded
        × ((IsConfig decoded × (out ≡ decoded)) ⊎ Generated decoded out)
  unfolding parse_subscription parse_decoded
  parse_subscription-ok content out h =
      let decoded = decode_content y l (trim content) in
      (
        decoded,
        decode_content-IsDecoded (trim content),
        elim (Bool-cases (is_yaml_config y l decoded)) [
          | inl e ↦ let g = rw e at h in inl (is_yaml_config-IsConfig decoded e, cc)
          | inr e ↦ inr (
              from_yaml_json-Generated decoded out (parse_yaml_json_proxies y l decoded) refl
                (rw e at h))
        ],
      )

abbrev pub Named : Libraries → JsonValue → String → JsonValue → Type 0
Named l (object m) key v = l.get key m ≡ some v
Named l _ key v = ⊥

module _ (y : Yaml) (l : Libraries) (laws : Laws l) where
  -- The two groups of a configuration with these proxies.
  abbrev pub select_group : List JsonValue → JsonValue
  select_group proxies = group y l (
      ("name", string "PROXY")
      ∷ ("type", string "select")
      ∷ ("proxies", texts y l (proxy_names y l proxies))
      ∷ [])

  abbrev pub test_group : List JsonValue → JsonValue
  test_group proxies = group y l (
      ("name", string "AUTO")
      ∷ ("type", string "url-test")
      ∷ ("proxies", texts y l (proxy_names y l proxies))
      ∷ ("url", string "https://www.gstatic.com/generate_204")
      ∷ ("interval", int (pos 300))
      ∷ [])

  -- The generated configuration holds the proxies as they are; both groups list the names of the
  -- proxies that have one, in their order; the one rule sends all to the first group.
  pub clash_config_lem :
      (proxies : List JsonValue)
      → Named l (clash_config y l proxies) "proxies" (array (elements proxies))
        × Named l
            (clash_config y l proxies)
            "proxy-groups"
            (array (elements (select_group proxies ∷ test_group proxies ∷ [])))
        × Named l (clash_config y l proxies) "rules" (array (elements (string "MATCH,PROXY" ∷ [])))
        × Named l (select_group proxies) "name" (string "PROXY")
        × Named l
            (select_group proxies)
            "proxies"
            (array (elements (map string (proxy_names y l proxies))))
        × Named l
            (test_group proxies)
            "proxies"
            (array (elements (map string (proxy_names y l proxies))))
  unfolding clash_config build group texts
  clash_config_lem proxies = (
    simp (laws.get-insert),
    simp (laws.get-insert),
    simp (laws.get-insert),
    simp (laws.get-insert),
    simp (laws.get-insert),
    simp (laws.get-insert),
  )
