-- ===== src/Subscription/TextLinks.antt =====
-- parser.rs: the links that are taken apart as text: VMess, Shadowsocks and ShadowsocksR.
pub mod Shadowsocks
use stelliberty_m.Base.{
  ℕ, String, Bool, true, false, List, [], ◌∷◌, Option, none, some, Result, ok, err, ◌>>=◌, map_err,
  ok_or, and_then, unwrap_or, if◌then◌else◌, ◌==◌, split, split_once, split_once_text, rsplit_once,
  strip_text, has_char, eqb, parse_i64, ℤ, pos,
}
use stelliberty_m.Subscription.Json.{
  JsonValue, bool, string, object, Fields, Libraries, int, json, text_at, put_some,
}
use stelliberty_m.Subscription.Common.{
  Params, find, parse_query_params, url_decode, decode, decode_some, ws_opts, grpc_opts,
}

module _ (l : Libraries) where
  -- `doc[key].as_str().unwrap_or(default)`, and that text as a number.
  text_or : JsonValue → String → String → String
  text_or doc key default = unwrap_or (text_at l doc key) default

  number_or : JsonValue → String → String → ℕ → ℤ
  number_or doc key default n = unwrap_or (parse_i64 (text_or doc key default)) (pos n)

  vmess_tls : JsonValue → Fields → Fields
  vmess_tls doc m =
      if text_or doc "tls" "" == "tls"
      then put_some l "servername" (text_at l doc "sni") (l.insert "tls" (bool true) m)
      else m

  vmess_transport : JsonValue → String → Fields → Fields
  vmess_transport doc network m =
      let over_ws =
        if network == "ws"
        then l.insert "ws-opts" (ws_opts l (text_or doc "path" "/") (text_at l doc "host")) m
        else m in
      if network == "grpc"
      then l.insert "grpc-opts" (grpc_opts l (text_or doc "path" "")) over_ws
      else over_ws

  vmess_proxy : JsonValue → Fields
  vmess_proxy doc =
      let network = text_or doc "net" "tcp" in
      vmess_transport doc network (
        vmess_tls doc (
          l.insert "network" (string network) (
            json l (
              ("name", string (text_or doc "ps" "VMess"))
              ∷ ("type", string "vmess")
              ∷ ("server", string (text_or doc "add" ""))
              ∷ ("port", int (number_or doc "port" "443" 443))
              ∷ ("uuid", string (text_or doc "id" ""))
              ∷ ("alterId", int (number_or doc "aid" "0" 0))
              ∷ ("cipher", string (text_or doc "scy" "auto"))
              ∷ ("udp", bool true)
              ∷ []))))

  unfoldable pub parse_vmess : String → Result JsonValue
  unfolding text_or number_or vmess_tls vmess_transport vmess_proxy decode
  parse_vmess link = do
    encoded ← ok_or (strip_text "vmess://" link) "无效的 VMess 链接"
    json_str ← decode l "Base64 解码失败：" "UTF-8 转换失败：" encoded
    doc ← map_err "JSON 解析失败：" (l.json_from_str json_str)
    ok (object (vmess_proxy doc))

  -- The part in front of the "@" is plain if it has a colon.
  ss_auth : String → Result String
  ss_auth auth_part =
      if has_char (λ c. eqb c b':') auth_part
      then ok auth_part
      else decode l "Base64 解码失败：" "UTF-8 转换失败：" auth_part

  unfoldable pub parse_shadowsocks : String → Result JsonValue
  unfolding ss_auth decode
  parse_shadowsocks link = do
    body ← ok_or (strip_text "ss://" link) "无效的 SS 链接"
    (auth_part, rest) ← ok_or (split_once b'@' body) "SS 链接格式错误：缺少 @"
    decoded_auth ← ss_auth auth_part
    (method, password) ← ok_or (split_once b':' decoded_auth) "SS 认证格式错误"
    let (server_port, name_part) = unwrap_or (split_once b'#' rest) (rest, "Shadowsocks")
    (server, port_str) ← ok_or (rsplit_once b':' server_port) "SS 链接格式错误：缺少端口"
    port ← ok_or (parse_i64 port_str) "端口解析失败"
    ok (
        object (
          json l (
            ("name", string (url_decode l name_part))
            ∷ ("type", string "ss")
            ∷ ("server", string server)
            ∷ ("port", int port)
            ∷ ("cipher", string method)
            ∷ ("password", string password)
            ∷ ("udp", bool true)
            ∷ [])))

  -- The proxy of at least six parts.
  ssr_proxy : Params → List String → Result JsonValue
  ssr_proxy params (server ∷ port_str ∷ protocol ∷ method ∷ obfs ∷ password_b64 ∷ more) = do
    port ← ok_or (parse_i64 port_str) "端口解析失败"
    password ← decode l "密码解码失败：" "密码UTF-8 转换失败：" password_b64
    let name = unwrap_or (and_then (find "remarks" params) (decode_some l)) "ShadowsocksR"
    ok (
        object (
          put_some l "protocol-param" (and_then (find "protoparam" params) (decode_some l)) (
            put_some l "obfs-param" (and_then (find "obfsparam" params) (decode_some l)) (
              json l (
                ("name", string name)
                ∷ ("type", string "ssr")
                ∷ ("server", string server)
                ∷ ("port", int port)
                ∷ ("cipher", string method)
                ∷ ("password", string password)
                ∷ ("protocol", string protocol)
                ∷ ("obfs", string obfs)
                ∷ ("udp", bool true)
                ∷ [])))))
  ssr_proxy params _ = err "SSR 链接格式错误"

  unfoldable pub parse_shadowsocksr : String → Result JsonValue
  unfolding ssr_proxy decode decode_some
  parse_shadowsocksr link = do
    encoded ← ok_or (strip_text "ssr://" link) "无效的 SSR 链接"
    decoded_str ← decode l "Base64 解码失败：" "UTF-8 转换失败：" encoded
    let (main_part, params_part) = unwrap_or (split_once_text "/?" decoded_str) (decoded_str, "")
    ssr_proxy (parse_query_params l params_part) (split b':' main_part)
