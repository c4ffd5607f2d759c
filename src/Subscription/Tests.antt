-- ===== src/Subscription/Tests.antt =====
-- Runs of the subscription code and of its theorems on small texts.
use stelliberty_m.Base.{
  inl, List, map, filter_map, any, parse_i64, starts_with, trim, Memᴰ, ◌≡◌, ◌⊎◌, ◌↔◌, refl, ℕ, [],
  ◌∷◌, String, Option, some, none, ok, err, true, false, pos,
}
use stelliberty_m.Yaml
use stelliberty_m.Yaml.{Yaml}
use stelliberty_m.Yaml.Assoc.{assoc_yaml}
use stelliberty_m.Subscription.Json.{
  JsonValue, bool, int, array, elements, string, object, field, end, Url, Libraries, Laws,
}
use stelliberty_m.Subscription.Assoc.{assoc_libraries, assoc_laws}
use stelliberty_m.Subscription.UrlLinks.{parse_vless}
use stelliberty_m.Subscription.UrlLinks.Kept.{VlessOf, parse_vless-VlessOf}
use stelliberty_m.Subscription.Common.{url_decode}
use stelliberty_m.Subscription.TextLinks.{parse_shadowsocks}
use stelliberty_m.Subscription.TextLinks.Shadowsocks.{ss_proxy, ss_link, parse_shadowsocks-ss_link}
use stelliberty_m.Subscription.Parser.{
  is_skipped, is_yaml_config, parse_single_proxy, parse_subscription, decode_content,
}
use stelliberty_m.Subscription.Parser.Lines.{line_result}
use stelliberty_m.Subscription.Parser.Output.{IsDecoded, IsConfig, Generated, parse_subscription-ok}

abbrev link : String
link = "vless://u@h:8443?security=tls&sni=s&type=grpc#N"

abbrev url : Url
url = record {
  username = "u";
  password = none;
  host_str = some "h";
  port = some 8443;
  query = some "security=tls&sni=s&type=grpc";
  fragment = some "N";
}

abbrev libraries : Libraries
libraries = assoc_libraries url "YWVzOnB3" "aes:pw"

abbrev laws : Laws libraries
laws = assoc_laws url "YWVzOnB3" "aes:pw"

-- A library that reads every text but "" as null.
abbrev yaml : Yaml
yaml = assoc_yaml Yaml.null

abbrev node : JsonValue
node = object (
    field "name" (string "N") (
      field "type" (string "vless") (
        field "server" (string "h") (
          field "port" (int (pos 8443)) (
            field "uuid" (string "u") (
              field "network" (string "grpc") (
                field "udp" (bool true) (
                  field "skip-cert-verify" (bool false) (
                    field "tls" (bool true) (
                      field "servername" (string "s") (
                        field "grpc-opts" (object (field "grpc-service-name" (string "") end))
                          end)))))))))))

node_run : parse_vless libraries link ≡ ok node
unfolding parse_vless stelliberty_m.Subscription.Common.parse_query_params stelliberty_m.Base.split
    stelliberty_m.Base.split_once url_decode stelliberty_m.Subscription.Json.put_some
    stelliberty_m.Subscription.Json.build stelliberty_m.Subscription.Common.grpc_opts
node_run = refl

parse_vless-VlessOf_example : VlessOf libraries link node
parse_vless-VlessOf_example = parse_vless-VlessOf libraries laws link node node_run

port_run : parse_i64 "443" ≡ some (pos 443)
unfolding parse_i64
port_run = refl

parse_shadowsocks-ss_link_example :
    parse_shadowsocks libraries (ss_link "YWVzOnB3" "h" "443" "N")
    ≡ ok (ss_proxy libraries (url_decode libraries "N") "h" (pos 443) "aes" "pw")
parse_shadowsocks-ss_link_example =
    parse_shadowsocks-ss_link libraries "YWVzOnB3" "aes" "pw" "h" "443" "N" (pos 443)
      (inl (refl, refl)) refl refl refl refl port_run

-- Its byte 20 is the last one of its seventh character.
abbrev cut_link : String
cut_link = "未知协议链接甲乙"

abbrev config : String
config = " proxies: []\nrules: []\n"

cut_link_run : line_result yaml libraries cut_link ≡ none
unfolding parse_single_proxy is_skipped trim
cut_link_run = refl

config_run : parse_subscription yaml libraries config ≡ some (ok "proxies: []\nrules: []")
unfolding parse_subscription trim decode_content is_yaml_config
config_run = refl

comment_run : line_result yaml libraries "# nodes" ≡ some (err "")
unfolding is_skipped trim starts_with
comment_run = refl

link_run : line_result yaml libraries link ≡ some (ok node)
unfolding is_skipped trim starts_with parse_single_proxy
link_run = rw node_run refl

other_run : line_result yaml libraries "ftp://x" ≡ some (err "不支持的协议：")
unfolding is_skipped trim starts_with parse_single_proxy
other_run = refl

parse_subscription-ok_example :
    (decoded : String) × IsDecoded yaml libraries (trim config) decoded
    × ((IsConfig yaml libraries decoded × ("proxies: []\nrules: []" ≡ decoded))
        ⊎ Generated yaml libraries decoded "proxies: []\nrules: []")
parse_subscription-ok_example =
    parse_subscription-ok yaml libraries config "proxies: []\nrules: []" config_run
