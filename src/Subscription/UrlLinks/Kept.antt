-- ===== src/Subscription/UrlLinks/Kept.antt =====
-- parser.rs: which fields of a VLESS proxy come from the URL.
use stelliberty_m.Base.{
  ◌≡◌, refl, ap, sym, ◌∙◌, String, Bool, true, false, List, [], ◌∷◌, Option, none, some, ok, ok_or,
  any, ◌==◌, Bool-cases, inl, inr, pos, ℕ, >>=-eq-ok, ok-injective, ok_or-eq-ok, map_err,
  map_err-eq-ok, arith,
}
use stelliberty_m.Subscription.Json.{
  JsonValue, string, object, Fields, Url, Libraries, Laws, int, build, put_some,
}
use stelliberty_m.Subscription.Common.{Params, find, has, params_of, name_or, url_parts}
use stelliberty_m.Subscription.UrlLinks.{reality, tls, put_network, transport, parse_vless}

-- The keys that the options of a link may write.
abbrev pub option_keys : List String
option_keys =
    "reality-opts" ∷ "tls" ∷ "servername" ∷ "flow" ∷ "ws-opts" ∷ "grpc-opts" ∷ "network" ∷ "sni"
    ∷ []

abbrev pub is_option : String → Bool
is_option j = any (λ k. k == j) option_keys

module _ (l : Libraries) (laws : Laws l) (j : String) where
  put_some-frame :
      (k : String) (o : Option String) (m : Fields)
      → (k == j) ≡ false
      → l.get j (put_some l k o m) ≡ l.get j m
  unfolding put_some
  put_some-frame k none m h = refl
  put_some-frame k (some s) m h = rw (laws.get-insert, h)

  -- A key that is none of the options is none of these.
  option_ne :
      is_option j ≡ false
      → ((("reality-opts" == j) ≡ false) × (("tls" == j) ≡ false) × (("servername" == j) ≡ false))
        × ((("flow" == j) ≡ false) × (("ws-opts" == j) ≡ false) × (("grpc-opts" == j) ≡ false))
        × ((("network" == j) ≡ false) × (("sni" == j) ≡ false))
  option_ne h = ground arith

  reality-frame :
      (params : Params) (m : Fields)
      → is_option j ≡ false
      → l.get j (reality l params m) ≡ l.get j m
  unfolding reality build
  reality-frame params m h =
      let ((a, b, c), (d, e, f), (g, i)) = option_ne h in
      elim (Bool-cases (has l "security" "reality" params)) [
        | inl x ↦
            rw x (put_some-frame "flow" (find "flow" params) _ d ∙ simp (laws.get-insert, a, b, c))
        | inr x ↦ rw x
      ]

  tls-frame :
      (params : Params) (m : Fields) → is_option j ≡ false → l.get j (tls l params m) ≡ l.get j m
  unfolding tls
  tls-frame params m h =
      let ((a, b, c), (d, e, f), (g, i)) = option_ne h in
      elim (Bool-cases (has l "security" "tls" params)) [
        | inl x ↦
            rw x (put_some-frame "servername" (find "sni" params) _ c ∙ rw (laws.get-insert, b))
        | inr x ↦ rw x
      ]

  put_network-frame :
      (w : Bool) (network : String) (m : Fields)
      → is_option j ≡ false
      → l.get j (put_network l w network m) ≡ l.get j m
  unfolding put_network
  put_network-frame false network m h = refl
  put_network-frame true network m h =
      let ((a, b, c), (d, e, f), (g, i)) = option_ne h in rw (laws.get-insert, g)

  transport-frame :
      (w : Bool) (params : Params) (m : Fields)
      → is_option j ≡ false
      → l.get j (transport l w params m) ≡ l.get j m
  unfolding transport
  transport-frame w params m h =
      let ((a, b, c), (d, e, f), (g, i)) = option_ne h in
      let under = put_network-frame w "ws" m h in
      elim (Bool-cases (has l "type" "grpc" params)) [
        | inl x ↦ elim (Bool-cases (has l "type" "ws" params)) [
          | inl z ↦
              rw (x, z, laws.get-insert, f)
                (put_network-frame w "grpc" _ h ∙ rw (laws.get-insert, e) under)
          | inr z ↦ rw (x, z, laws.get-insert, f) (put_network-frame w "grpc" m h)
        ]
        | inr x ↦ elim (Bool-cases (has l "type" "ws" params)) [
          | inl z ↦ rw (x, z, laws.get-insert, e) under
          | inr z ↦ rw (x, z)
        ]
      ]

-- The parts of a link that the parser of URLs found, and where a proxy holds them.
pub record VlessOf (l : Libraries) (link : String) (v : JsonValue) : Type 0 where
  pub url : Url
  pub server : String
  pub port : ℕ
  pub fields : Fields
  pub parsed : l.parse_url link ≡ ok url
  pub host_is : url.host_str ≡ some server
  pub port_is : url.port ≡ some port
  pub is_object : v ≡ object fields
  pub name_kept : l.get "name" fields ≡ some (string (name_or l url "VLESS"))
  pub type_kept : l.get "type" fields ≡ some (string "vless")
  pub server_kept : l.get "server" fields ≡ some (string server)
  pub port_kept : l.get "port" fields ≡ some (int (pos port))
  pub uuid_kept : l.get "uuid" fields ≡ some (string url.username)

url_parts-ok :
    (l : Libraries) (link : String) {url : Url} {server : String}
    → url_parts l link ≡ ok (url, server)
    → (l.parse_url link ≡ ok url) × (url.host_str ≡ some server)
unfolding url_parts
url_parts-ok l link h =
    let (u, read, h₁) = >>=-eq-ok (map_err _ (l.parse_url link)) _ h in
    let (s, host, h₂) = >>=-eq-ok (ok_or u.host_str _) _ h₁ in
    let same = ok-injective h₂ in
    let url_is = ap (λ (p : Url × String). p.0) same in
    let server_is = ap (λ (p : Url × String). p.1) same in
    (rw (← url_is) (map_err-eq-ok _ _ read), rw (← url_is, ← server_is) (ok_or-eq-ok _ _ host))

-- A VLESS link that is read gives an object that names the link's host, port and user, whatever the
-- link's parameters say.
pub parse_vless-VlessOf :
    (l : Libraries) (laws : Laws l) (link : String) (v : JsonValue)
    → parse_vless l link ≡ ok v
    → VlessOf l link v
unfolding parse_vless build
parse_vless-VlessOf l laws link v h =
    let ((url, server), parts, h₁) = >>=-eq-ok (url_parts l link) _ h in
    let (port, some_port, h₂) = >>=-eq-ok (ok_or url.port "缺少端口") _ h₁ in
    let (parsed, host) = url_parts-ok l link parts in
    record {
      url = url;
      server = server;
      port = port;
      fields = _;
      parsed = parsed;
      host_is = host;
      port_is = ok_or-eq-ok _ _ some_port;
      is_object = sym (ok-injective h₂);
      name_kept = kept "name" refl _ url ∙ simp (laws.get-insert);
      type_kept = kept "type" refl _ url ∙ simp (laws.get-insert);
      server_kept = kept "server" refl _ url ∙ simp (laws.get-insert);
      port_kept = kept "port" refl _ url ∙ simp (laws.get-insert);
      uuid_kept = kept "uuid" refl _ url ∙ simp (laws.get-insert);
    }
  where
    kept :
        (j : String)
        → is_option j ≡ false
        → (m : Fields) (url : Url)
        → l.get j (
            transport l false
              (params_of l url)
              (tls l (params_of l url) (reality l (params_of l url) m)))
          ≡ l.get j m
    kept j e m url =
        transport-frame l laws j false (params_of l url) _ e
        ∙ tls-frame l laws j (params_of l url) _ e
        ∙ reality-frame l laws j (params_of l url) m e
