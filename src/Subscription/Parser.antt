-- ===== src/Subscription/Parser.antt =====
-- parser.rs: `parse_subscription` and what it calls. `none` stands for the panic of the one slice that
-- cuts a text at a byte; it ends the whole parse.
pub mod Lines
pub mod Output
use Prim.Native.String.{len}
use text.Mathlib.Text.{is_char_boundary}
use stelliberty_m.Base.{
  ℕ, min, String, Bool, true, false, not, ◌&&◌, ◌||◌, List, [], ◌∷◌, ◌++◌, map, filter_map, Option,
  none, some, Result, ok, err, ◌>>=◌, map_err, ok_or, if◌then◌else◌, ◌==◌, eqb, ltb, is_empty, trim,
  starts_with, contains, remove_chars, is_whitespace, all_chars, split, ℤ, pos, strip_suffix,
}
use stelliberty_m.Yaml.{Value, Yaml}
use stelliberty_m.Subscription.Json.{
  JsonValue, string, array, elements, object, Decoded, not_base64, not_utf8, plain, Libraries, int,
  json, text_at, as_array,
}
use stelliberty_m.Subscription.UrlLinks.{
  parse_vless, parse_hysteria2, parse_hysteria, parse_trojan, parse_tuic, parse_http, parse_socks,
}
use stelliberty_m.Subscription.TextLinks.{parse_vmess, parse_shadowsocks, parse_shadowsocksr}

-- The line without the `\r` at its end.
without_cr : String → String
without_cr line = cut (strip_suffix b'\r' line)
  where
    cut : Option String → String
    cut none = line
    cut (some s) = s

-- The text behind the last line break is a line only if it is not empty.
drop_last_empty : List String → List String
drop_last_empty [] = []
drop_last_empty (s ∷ []) = if is_empty s then [] else (s ∷ [])
drop_last_empty (s ∷ t ∷ ss) = s ∷ drop_last_empty (t ∷ ss)

-- `str::lines`.
unfoldable pub lines : String → List String
unfolding without_cr drop_last_empty split strip_suffix
lines s = map without_cr (drop_last_empty (split b'\n' s))

module _ (y : Yaml) (l : Libraries) where
  is_ok : Result Value → Bool
  is_ok (ok v) = true
  is_ok (err e) = false

  unfoldable pub is_yaml_config : String → Bool
  unfolding is_ok contains
  is_yaml_config content =
      if is_ok (y.from_str content)
      then contains content "proxies:"
        && (contains content "proxy-groups:" || contains content "rules:")
      else false

  is_base64_char : ℕ → Bool
  is_base64_char c = l.is_alphanumeric c || eqb c b'+' || eqb c b'/' || eqb c b'='

  unfoldable pub is_base64 : String → Bool
  unfolding is_base64_char remove_chars
  is_base64 content =
      let clean = remove_chars is_whitespace content in
      ltb 50 (len clean) && all_chars is_base64_char clean

  unfoldable pub parse_yaml_json_proxies : String → Result (List JsonValue)
  parse_yaml_json_proxies content = do
    yaml_value ← map_err "YAML 解析失败：" (y.from_str content)
    proxies_value ← ok_or (l.get_value "proxies" yaml_value) "未找到 proxies 字段"
    proxies_json ← map_err "转换为 JSON 失败：" (l.to_json proxies_value)
    ok_or (as_array proxies_json) "proxies 不是数组"

  -- The message of the last branch slices the link at 20 bytes, which panics inside a character. Its
  -- text, which is only logged, is not kept.
  unsupported : String → Option (Result JsonValue)
  unsupported link =
      if is_char_boundary link (min (len link) 20) then some (err "不支持的协议：") else none

  unfoldable pub parse_single_proxy : String → Option (Result JsonValue)
  unfolding unsupported starts_with
  parse_single_proxy link =
      if starts_with link "vless://"
      then some (parse_vless l link)
      else (if starts_with link "vmess://"
          then some (parse_vmess l link)
          else (if starts_with link "hysteria2://" || starts_with link "hy2://"
              then some (parse_hysteria2 l link)
              else (if starts_with link "hysteria://"
                  then some (parse_hysteria l link)
                  else (if starts_with link "ss://"
                      then some (parse_shadowsocks l link)
                      else (if starts_with link "ssr://"
                          then some (parse_shadowsocksr l link)
                          else (if starts_with link "trojan://"
                              then some (parse_trojan l link)
                              else (if starts_with link "tuic://"
                                  then some (parse_tuic l link)
                                  else (if starts_with link "http://" || starts_with link "https://"
                                      then some (parse_http l link)
                                      else (if starts_with link "socks://"
                                            || starts_with link "socks5://"
                                          then some (parse_socks l link)
                                          else unsupported link)))))))))

  -- A line that is empty, or a comment, is skipped.
  unfoldable pub is_skipped : String → Bool
  unfolding starts_with
  is_skipped line = is_empty line || starts_with line "#"

  push : Option (Result JsonValue) → Option (List JsonValue) → Option (List JsonValue)
  push none rest = none
  push (some (ok proxy)) none = none
  push (some (ok proxy)) (some proxies) = some (proxy ∷ proxies)
  push (some (err e)) rest = rest

  unfoldable pub parse_lines : List String → Option (List JsonValue)
  unfolding push trim is_skipped parse_single_proxy
  parse_lines [] = some []
  parse_lines (line ∷ rest) =
      let proxies = parse_lines rest in
      if is_skipped (trim line) then proxies else push (parse_single_proxy (trim line)) proxies

  -- It returns `Ok` wherever it returns.
  unfoldable pub parse_proxy_links : String → Option (List JsonValue)
  unfolding lines parse_lines
  parse_proxy_links content = parse_lines (lines content)

  unfoldable pub proxy_names : List JsonValue → List String
  unfolding text_at
  proxy_names proxies = filter_map (λ p. text_at l p "name") proxies

  pub group : List (String × JsonValue) → JsonValue
  group entries = object (json l entries)

  pub texts : List String → JsonValue
  texts names = array (elements (map string names))

  unfoldable pub clash_config : List JsonValue → JsonValue
  unfolding proxy_names group texts
  clash_config proxies =
      let names = proxy_names proxies in
      group (
        ("proxies", array (elements proxies))
        ∷ (
          "proxy-groups",
          array (
              elements (
                group (
                  ("name", string "PROXY")
                  ∷ ("type", string "select")
                  ∷ ("proxies", texts names)
                  ∷ [])
                ∷ group (
                    ("name", string "AUTO")
                    ∷ ("type", string "url-test")
                    ∷ ("proxies", texts names)
                    ∷ ("url", string "https://www.gstatic.com/generate_204")
                    ∷ ("interval", int (pos 300))
                    ∷ [])
                ∷ [])),
        )
        ∷ ("rules", texts ("MATCH,PROXY" ∷ []))
        ∷ [])

  unfoldable pub generate_clash_config : List JsonValue → Result String
  unfolding clash_config
  generate_clash_config proxies = do
    yaml_value ← map_err "JSON 转 YAML 失败：" (l.to_yaml (clash_config proxies))
    yaml_string ← map_err "YAML 序列化失败：" (y.to_string yaml_value)
    map_err "正则表达式创建失败：" (l.quote_short_ids yaml_string)

  -- A content that looks like Base64 but is not, or not of a text, is taken as it is.
  decoded_or : String → Decoded → String
  decoded_or content (not_base64 e) = content
  decoded_or content (not_utf8 e) = content
  decoded_or content (plain s) = s

  unfoldable pub decode_content : String → String
  unfolding decoded_or is_base64 remove_chars
  decode_content content =
      if is_base64 content
      then decoded_or content (l.decode_base64 (remove_chars is_whitespace content))
      else content

  from_links : Option (List JsonValue) → Option (Result String)
  from_links none = none
  from_links (some []) = some (err "未找到任何有效的代理链接")
  from_links (some (p ∷ ps)) = some (generate_clash_config (p ∷ ps))

  -- Without a list of proxies, or with an empty one, the content is read as links.
  from_yaml_json : String → Result (List JsonValue) → Option (Result String)
  from_yaml_json decoded (ok (p ∷ ps)) = some (generate_clash_config (p ∷ ps))
  from_yaml_json decoded (ok []) = from_links (parse_proxy_links decoded)
  from_yaml_json decoded (err e) = from_links (parse_proxy_links decoded)

  unfoldable pub parse_decoded : String → Option (Result String)
  unfolding is_yaml_config parse_yaml_json_proxies generate_clash_config parse_proxy_links
      from_links from_yaml_json
  parse_decoded decoded =
      if is_yaml_config decoded
      then some (ok decoded)
      else from_yaml_json decoded (parse_yaml_json_proxies decoded)

  -- `ProxyParser::parse_subscription`.
  unfoldable pub parse_subscription : String → Option (Result String)
  unfolding trim decode_content parse_decoded
  parse_subscription content = parse_decoded (decode_content (trim content))
