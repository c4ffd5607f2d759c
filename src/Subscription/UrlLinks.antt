-- ===== src/Subscription/UrlLinks.antt =====
-- parser.rs: the links that `Url::parse` reads. A default port is written where the URL has none.
pub mod Kept
use stelliberty_m.Base.{
  ℕ, String, Bool, true, false, List, [], ◌∷◌, Option, none, some, Result, ok, ◌>>=◌, ok_or,
  and_then, unwrap_or, is_empty, if◌then◌else◌, split, map, strip_text, starts_with, parse_i64, ℤ,
  pos,
}
use stelliberty_m.Subscription.Json.{
  JsonValue, bool, string, array, elements, object, Fields, Url, Libraries, int, json, build,
  put_some,
}
use stelliberty_m.Subscription.Common.{
  Params, find, flag, has, params_of, name_or, url_parts, ws_opts, grpc_opts,
}

module _ (l : Libraries) where
  reality : Params → Fields → Fields
  reality params m =
      if has l "security" "reality" params
      then put_some l "flow" (find "flow" params) (
          build l
            ((
              "reality-opts",
              object (
                  json l (
                    ("public-key", string (unwrap_or (find "pbk" params) ""))
                    ∷ ("short-id", string (unwrap_or (find "sid" params) ""))
                    ∷ [])),
            )
              ∷ ("tls", bool true)
              ∷ ("servername", string (unwrap_or (find "sni" params) ""))
              ∷ [])
            m)
      else m

  tls : Params → Fields → Fields
  tls params m =
      if has l "security" "tls" params
      then put_some l "servername" (find "sni" params) (l.insert "tls" (bool true) m)
      else m

  -- The entries of a proxy over WebSocket or gRPC; `network` is written for trojan only.
  put_network : Bool → String → Fields → Fields
  put_network true network m = l.insert "network" (string network) m
  put_network false network m = m

  transport : Bool → Params → Fields → Fields
  transport with_network params m =
      let over_ws =
        if has l "type" "ws" params
        then l.insert "ws-opts"
            (ws_opts l (unwrap_or (find "path" params) "/") (find "host" params))
            (put_network with_network "ws" m)
        else m in
      if has l "type" "grpc" params
      then l.insert "grpc-opts" (grpc_opts l (unwrap_or (find "serviceName" params) ""))
          (put_network with_network "grpc" over_ws)
      else over_ws

  unfoldable pub parse_vless : String → Result JsonValue
  unfolding url_parts reality tls put_network transport
  parse_vless link = do
    (url, server) ← url_parts l link
    port ← ok_or url.port "缺少端口"
    let params = params_of l url
    ok (
        object (
          transport false params (
            tls params (
              reality params (
                json l (
                  ("name", string (name_or l url "VLESS"))
                  ∷ ("type", string "vless")
                  ∷ ("server", string server)
                  ∷ ("port", int (pos port))
                  ∷ ("uuid", string url.username)
                  ∷ ("network", string (unwrap_or (find "type" params) "tcp"))
                  ∷ ("udp", bool true)
                  ∷ ("skip-cert-verify", bool false)
                  ∷ []))))))

  obfs : Params → Fields → Fields
  obfs params m = with_obfs (find "obfs" params)
    where
      with_obfs : Option String → Fields
      with_obfs none = m
      with_obfs (some o) =
          put_some l "obfs-password" (find "obfs-password" params) (l.insert "obfs" (string o) m)

  unfoldable pub parse_hysteria2 : String → Result JsonValue
  unfolding url_parts strip_text obfs
  parse_hysteria2 link = do
    (url, server) ← url_parts l (unwrap_or (strip_text "hy2://" link) link)
    let params = params_of l url
    ok (
        object (
          obfs params (
            put_some l "sni" (find "sni" params) (
              json l (
                ("name", string (name_or l url "Hysteria2"))
                ∷ ("type", string "hysteria2")
                ∷ ("server", string server)
                ∷ ("port", int (pos (unwrap_or url.port 443)))
                ∷ ("password", string url.username)
                ∷ ("skip-cert-verify", bool (flag l "insecure" params))
                ∷ [])))))

  number_or : String → ℕ → Params → ℤ
  number_or key default params = unwrap_or (and_then (find key params) parse_i64) (pos default)

  unfoldable pub parse_hysteria : String → Result JsonValue
  unfolding url_parts number_or
  parse_hysteria link = do
    (url, server) ← url_parts l link
    let params = params_of l url
    ok (
        object (
          put_some l "sni" (find "peer" params) (
            put_some l "obfs" (find "obfs" params) (
              json l (
                ("name", string (name_or l url "Hysteria"))
                ∷ ("type", string "hysteria")
                ∷ ("server", string server)
                ∷ ("port", int (pos (unwrap_or url.port 443)))
                ∷ ("auth", string url.username)
                ∷ ("protocol", string (unwrap_or (find "protocol" params) "udp"))
                ∷ ("up", int (number_or "upmbps" 10 params))
                ∷ ("down", int (number_or "downmbps" 50 params))
                ∷ ("skip-cert-verify", bool (flag l "insecure" params))
                ∷ [])))))

  unfoldable pub parse_trojan : String → Result JsonValue
  unfolding url_parts transport put_network
  parse_trojan link = do
    (url, server) ← url_parts l link
    let params = params_of l url
    ok (
        object (
          transport true params (
            put_some l "sni" (find "sni" params) (
              json l (
                ("name", string (name_or l url "Trojan"))
                ∷ ("type", string "trojan")
                ∷ ("server", string server)
                ∷ ("port", int (pos (unwrap_or url.port 443)))
                ∷ ("password", string url.username)
                ∷ ("udp", bool true)
                ∷ ("skip-cert-verify", bool (flag l "allowInsecure" params))
                ∷ [])))))

  put_list : String → Option String → Fields → Fields
  put_list key none m = m
  put_list key (some s) m = l.insert key (array (elements (map string (split b',' s)))) m

  unfoldable pub parse_tuic : String → Result JsonValue
  unfolding url_parts put_list split
  parse_tuic link = do
    (url, server) ← url_parts l link
    let params = params_of l url
    ok (
        object (
          put_some l "congestion-control" (find "congestion_control" params) (
            put_list "alpn" (find "alpn" params) (
              put_some l "sni" (find "sni" params) (
                json l (
                  ("name", string (name_or l url "TUIC"))
                  ∷ ("type", string "tuic")
                  ∷ ("server", string server)
                  ∷ ("port", int (pos (unwrap_or url.port 443)))
                  ∷ ("uuid", string url.username)
                  ∷ ("password", string (unwrap_or url.password ""))
                  ∷ ("skip-cert-verify", bool (flag l "insecure" params))
                  ∷ []))))))

  -- A user name that is empty is left out.
  user_of : Url → Option String
  user_of url = if is_empty url.username then none else some url.username

  put_credentials : Url → Fields → Fields
  put_credentials url m = put_some l "password" url.password (put_some l "username" (user_of url) m)

  unfoldable pub parse_http : String → Result JsonValue
  unfolding url_parts user_of put_credentials
  parse_http link = do
    (url, server) ← url_parts l link
    let is_https = starts_with link "https"
    let proxy = put_credentials url (
        json l (
          ("name", string (name_or l url "HTTP"))
          ∷ ("type", string "http")
          ∷ ("server", string server)
          ∷ ("port", int (pos (unwrap_or url.port (if is_https then 443 else 80))))
          ∷ []))
    ok (object (if is_https then l.insert "tls" (bool true) proxy else proxy))

  unfoldable pub parse_socks : String → Result JsonValue
  unfolding url_parts user_of put_credentials
  parse_socks link = do
    (url, server) ← url_parts l link
    ok (
        object (
          put_credentials url (
            json l (
              ("name", string (name_or l url "SOCKS5"))
              ∷ ("type", string "socks5")
              ∷ ("server", string server)
              ∷ ("port", int (pos (unwrap_or url.port 1080)))
              ∷ ("udp", bool true)
              ∷ []))))
