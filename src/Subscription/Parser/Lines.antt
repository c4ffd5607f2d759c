-- ===== src/Subscription/Parser/Lines.antt =====
-- parser.rs: which lines of a list of links give a proxy, and which one ends the parse.
use Prim.Native.String.{len}
use package.text.Mathlib.Text.{is_char_boundary}
use stelliberty_m.Base.{
  min, ◌≡◌, ◌↔◌, refl, sym, ap, ◌∙◌, String, false, List, [], ◌∷◌, Option, none, some, Result, ok,
  err, any, consider, filter_map, All, Memᴰ, if◌then◌else◌, trim, starts_with, Bool-cases, inl, inr,
  arith,
}
use stelliberty_m.Yaml.{Yaml}
use stelliberty_m.Subscription.Json.{JsonValue, Libraries}
use stelliberty_m.Subscription.Parser.{
  is_skipped, parse_single_proxy, unsupported, push, parse_lines,
}

abbrev pub schemes : List String
schemes =
    "vless://" ∷ "vmess://" ∷ "hysteria2://" ∷ "hy2://" ∷ "hysteria://" ∷ "ss://" ∷ "ssr://"
    ∷ "trojan://" ∷ "tuic://" ∷ "http://" ∷ "https://" ∷ "socks://" ∷ "socks5://" ∷ []

-- Byte 20 of the link, if it is that long, lies inside a character.
abbrev pub CutsChar : String → Type 0
CutsChar link = is_char_boundary link (min (len link) 20) ≡ false

module _ (y : Yaml) (l : Libraries) where
  unsupported_iff : (link : String) → (unsupported y l link ≡ none) ↔ CutsChar link
  unfolding unsupported
  unsupported_iff link = elim (Bool-cases (is_char_boundary link (min (len link) 20))) [
    | inl e ↦ rw e (λ h. cc, λ h. cc)
    | inr e ↦ rw e (λ h. refl, λ h. refl)
  ]

  -- A link panics exactly where no scheme is known and its byte 20 lies inside a character.
  pub parse_single_proxy-none_iff :
      (link : String)
      → (parse_single_proxy y l link ≡ none)
        ↔ ((any (λ p. starts_with link p) schemes ≡ false) × CutsChar link)
  unfolding parse_single_proxy
  parse_single_proxy-none_iff link = ground (arith, unsupported_iff link)

  -- What a line gives: a proxy, nothing, or (the outer `none`) a panic.
  abbrev pub line_result : String → Option (Result JsonValue)
  line_result line =
      if is_skipped y l (trim line) then some (err "") else parse_single_proxy y l (trim line)

  abbrev pub proxy_of : Option (Result JsonValue) → Option JsonValue
  proxy_of (some (ok proxy)) = some proxy
  proxy_of _ = none

  parse_lines-cons :
      (line : String) (ls : List String)
      → parse_lines y l (line ∷ ls) ≡ push y l (line_result line) (parse_lines y l ls)
  unfolding parse_lines push
  parse_lines-cons line ls = elim (Bool-cases (is_skipped y l (trim line))) [
    | inl e ↦ rw e
    | inr e ↦ rw e
  ]

  -- Where no line panics, the proxies are those of the lines that give one, in their order.
  pub parse_lines_lem :
      (ls : List String)
      → All (λ line. ¬ (line_result line ≡ none)) ls
      → parse_lines y l ls ≡ some (filter_map (λ line. proxy_of (line_result line)) ls)
  unfolding parse_lines push
  parse_lines_lem [] all = refl
  parse_lines_lem (line ∷ ls) (here, all) =
      parse_lines-cons line ls ∙ rw (parse_lines_lem ls all) (by_result (line_result line) here)
    where
      rest : List JsonValue
      rest = filter_map (λ other. proxy_of (line_result other)) ls

      by_result :
          (r : Option (Result JsonValue))
          → ¬ (r ≡ none)
          → push y l r (some rest) ≡ some (consider (proxy_of r) rest)
      by_result none h = elim (h refl) [ ]
      by_result (some (ok p)) h = refl
      by_result (some (err e)) h = refl

  push-none : (r : Option (Result JsonValue)) → push y l r none ≡ none
  unfolding push
  push-none none = refl
  push-none (some (ok p)) = refl
  push-none (some (err e)) = refl

  -- One line that panics, wherever it stands, ends the whole parse: the proxies of the other lines are
  -- lost.
  pub parse_lines-none :
      (ls : List String) {line : String}
      → Memᴰ line ls
      → line_result line ≡ none
      → parse_lines y l ls ≡ none
  unfolding push
  parse_lines-none [] m h = elim m [ ]
  parse_lines-none (line ∷ ls) (Memᴰ.head e) h =
      let same : line_result line ≡ none = ap (λ t. line_result t) (sym e) ∙ h in
      parse_lines-cons line ls ∙ rw same
  parse_lines-none (line ∷ ls) (Memᴰ.tail d) h =
      parse_lines-cons line ls ∙ rw (parse_lines-none ls d h) (push-none (line_result line))
