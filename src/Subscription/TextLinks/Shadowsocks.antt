-- ===== src/Subscription/TextLinks/Shadowsocks.antt =====
-- parser.rs: Shadowsocks links that are written from their parts.
use Prim.Native.Char.{Char, code}
use Prim.Native.String
use text.Mathlib.TextLemmas.{nil-append, cons-append}
use stelliberty_m.Base.{
  ◌≡◌, refl, ◌⊎◌, inl, inr, ◌||◌, Bool, false, has_char, eqb, String, true, [], ◌∷◌, some, ok,
  Lacks, split_once, split_once-append, rsplit_once, rsplit_once-append, strip_text,
  strip_text-append, parse_i64, ℤ,
}
use stelliberty_m.Subscription.Json.{JsonValue, bool, string, object, Libraries, int, json, plain}
use stelliberty_m.Subscription.Common.{url_decode, decode}
use stelliberty_m.Subscription.TextLinks.{ss_auth, parse_shadowsocks}

module _ (l : Libraries) where
  abbrev pub ss_proxy : String → String → ℤ → String → String → JsonValue
  ss_proxy name server port method password = object (
      json l (
        ("name", string name)
        ∷ ("type", string "ss")
        ∷ ("server", string server)
        ∷ ("port", int port)
        ∷ ("cipher", string method)
        ∷ ("password", string password)
        ∷ ("udp", bool true)
        ∷ []))

abbrev pub joined : String → Char → String → String
joined s mark t = String.◌++◌ s (String.◌∷◌ mark t)

-- The link of these parts; `auth` is the part in front of the "@".
abbrev pub ss_link : String → String → String → String → String
ss_link auth server port name =
    String.◌++◌ "ss://" (joined auth "@" (joined (joined server ":" port) "#" name))

module _ (l : Libraries) where
  -- The part of method and password: in Base64, or as it is.
  abbrev pub AuthOf : String → String → String → Type 0
  AuthOf auth method password =
      ((l.decode_base64 auth ≡ plain (joined method ":" password)) × Lacks b':' auth)
      ⊎ (auth ≡ joined method ":" password)

  or_true : (b : Bool) → (b || true) ≡ true
  or_true true = refl
  or_true false = refl

  has_char-joined : (s t : String) → has_char (λ c. eqb c b':') (joined s ":" t) ≡ true
  has_char-joined String.[] t = rw (nil-append) refl
  has_char-joined (String.◌∷◌ c s) t =
      rw (cons-append, has_char-joined s t) (or_true (eqb (code c) b':'))

  ss_auth-AuthOf :
      (auth method password : String)
      → AuthOf auth method password
      → ss_auth l auth ≡ ok (joined method ":" password)
  unfolding ss_auth decode
  ss_auth-AuthOf auth method password (inl (dec, colon)) = rw (colon, dec) refl
  ss_auth-AuthOf auth method password (inr same) = rw (same, has_char-joined method password) refl

  -- A link whose first part is that of method and password, in Base64 or as it is, and has no "@"; the
  -- method has no colon, server and port no "#", the port no colon. It is read as a proxy of these parts,
  -- whose name is the link's with its percent escapes decoded.
  pub parse_shadowsocks-ss_link :
      (auth method password server port_str name : String) (port : ℤ)
      → AuthOf auth method password
      → Lacks b'@' auth
      → Lacks b':' method
      → Lacks b'#' (joined server ":" port_str)
      → Lacks b':' port_str
      → parse_i64 port_str ≡ some port
      → parse_shadowsocks l (ss_link auth server port_str name)
        ≡ ok (ss_proxy l (url_decode l name) server port method password)
  unfolding parse_shadowsocks
  parse_shadowsocks-ss_link auth method password server port_str name port form at m sp p n =
      let host : String = joined server ":" port_str in
      let rest : String = joined host "#" name in
      let e₁ : strip_text "ss://" (ss_link auth server port_str name)
          ≡ some (joined auth "@" rest) =
        strip_text-append "ss://" (joined auth "@" rest) in
      let e₂ : split_once b'@' (joined auth "@" rest) ≡ some (auth, rest) =
        split_once-append b'@' auth "@" rest at refl in
      let e₃ : split_once b':' (joined method ":" password) ≡ some (method, password) =
        split_once-append b':' method ":" password m refl in
      let e₄ : split_once b'#' rest ≡ some (host, name) =
        split_once-append b'#' host "#" name sp refl in
      let e₅ : rsplit_once b':' host ≡ some (server, port_str) =
        rsplit_once-append b':' server ":" port_str p refl in
      let e₆ : ss_auth l auth ≡ ok (joined method ":" password) =
        ss_auth-AuthOf auth method password form in
      rw (e₁, e₂, e₆, e₃, e₄, e₅, n) refl
