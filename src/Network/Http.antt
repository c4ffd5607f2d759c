-- ===== src/Network/Http.antt =====
-- ipc_client.rs: one request over a connection. Its reader of the status line and of a chunked body is
-- that of native/hub/src/atoms/ipc_client/client.rs again; a response without a length is read as empty.
use Prim.Native.String
use Prim.Native.String.{len}
use stelliberty_m.Base.{
  ℕ, String, false, List, [], ◌∷◌, Option, none, some, Result, ok, err, if◌then◌else◌,
}
use stelliberty_m.Ipc.Stream.{Stream, read_exact}
use stelliberty_m.Ipc.Utf8.{from_utf8}
use stelliberty_m.Ipc.Http.{
  Run, returns, out_of_fuel, then_run, failing, read_headers, parse_status_code, BodyInfo,
  parse_headers, read_chunked_body, decoded,
}

pub record HttpResponse : Type 0 where
  pub status_code : ℕ
  pub body : String

body_part : (ℕ → String) → Option String → String
body_part show none = "\r\n"
body_part show (some body) = String.◌++◌ "Content-Type: application/json\r\n" (
    String.◌++◌ "Content-Length: "
      (String.◌++◌ (show (len body)) (String.◌++◌ "\r\n" (String.◌++◌ "\r\n" body))))

-- `show` prints a length in decimal.
unfoldable pub build_http_request_static : (ℕ → String) → String → String → Option String → String
unfolding body_part
build_http_request_static show method path body = String.◌++◌ method (
    String.◌++◌ " " (
      String.◌++◌ path
        (String.◌++◌ " HTTP/1.1\r\n" (String.◌++◌ "Host: localhost\r\n" (body_part show body)))))

unfoldable pub parse_status_code_static : String → Result ℕ
parse_status_code_static = parse_status_code

unfoldable pub read_chunked_body_static : ℕ → Stream → Run String
read_chunked_body_static = read_chunked_body

read_length : Option ℕ → Stream → Run String
read_length none s = returns (ok "") s
read_length (some n) s =
    then_run (failing "读取响应体失败：" (read_exact n s))
      (λ body t. returns (decoded "解码响应体失败：" (from_utf8 body)) t)

read_body : ℕ → BodyInfo → Stream → Run String
read_body fuel info s =
    if info.is_chunked then read_chunked_body_static fuel s else read_length info.content_length s

with_status : ℕ → Run String → Run HttpResponse
with_status status out_of_fuel = out_of_fuel
with_status status (returns (err e) s) = returns (err e) s
with_status status (returns (ok body) s) =
    returns (ok (record { status_code = status; body = body })) s

respond : ℕ → List String → Stream → Run HttpResponse
respond fuel [] s = returns (err "响应为空") s
respond fuel (status_line ∷ lines) s =
    then_run (parse_status_code_static status_line, s)
      (λ status t. with_status status (
        read_body fuel (parse_headers lines (record { content_length = none; is_chunked = false }))
          t))

after_headers : ℕ → Run (List String) → Run HttpResponse
after_headers fuel out_of_fuel = out_of_fuel
after_headers fuel (returns (err e) s) = returns (err e) s
after_headers fuel (returns (ok lines) s) = respond fuel lines s

unfoldable pub read_http_response_static : ℕ → Stream → Run HttpResponse
unfolding parse_status_code_static read_chunked_body_static read_length read_body with_status
    respond after_headers
read_http_response_static fuel s = after_headers fuel (read_headers fuel s)

written : ℕ → Result Stream → Run HttpResponse
written fuel (err e) =
    returns (err (String.◌++◌ "发送请求失败：" e)) (record { bytes = []; failure = none })
written fuel (ok s) = read_http_response_static fuel s

-- `answers` is what the core makes of the text of a request: the error of the write, or what comes back.
unfoldable pub request_with_connection :
    (ℕ → String) → (String → Result Stream) → ℕ → String → String → Option String → Run HttpResponse
unfolding build_http_request_static read_http_response_static written
request_with_connection show answers fuel method path body =
    written fuel (answers (build_http_request_static show method path body))
