-- ===== src/Ipc/Http.antt =====
-- client.rs: requests and responses.
-- The loops run on fuel; a run that has no end under any fuel is `out_of_fuel` for all of them.
pub mod Chunks
pub mod Headers
use Prim.Native.Char.{code}
use Prim.Native.String
use Prim.Native.String.{len}
use stelliberty_m.Base.{
  ℕ, zero, suc, ◌+◌, ◌^◌, ◌<◌, String, Bool, true, false, ◌&&◌, List, [], ◌∷◌, ◌++◌, Option, none,
  some, Result, ok, err, ◌>>=◌, map_err, ok_or, eqb, leb, ltb, if◌then◌else◌, ◌==◌, is_empty,
  length, trim, split_once, split_whitespace, contains, parse_unsigned,
}
use stelliberty_m.Ipc.Utf8.{from_utf8}
use stelliberty_m.Ipc.Stream.{Bytes, Stream, read_line, read_exact}

pub record IpcHttpResponse : Type 0 where
  pub status_code : ℕ
  pub body : String

-- `build_http_request`; `show` prints a length in decimal.
body_part : (ℕ → String) → Option String → String
body_part show none = "\r\n"
body_part show (some body) = String.◌++◌ "Content-Type: application/json\r\n" (
    String.◌++◌ "Content-Length: "
      (String.◌++◌ (show (len body)) (String.◌++◌ "\r\n" (String.◌++◌ "\r\n" body))))

unfoldable pub build_http_request : (ℕ → String) → String → String → Option String → Bool → String
unfolding body_part
build_http_request show method path body keep_alive = String.◌++◌ method (
    String.◌++◌ " " (
      String.◌++◌ path (
        String.◌++◌ " HTTP/1.1\r\n" (
          String.◌++◌ "Host: localhost\r\n" (
            String.◌++◌ (if keep_alive then "" else "Connection: close\r\n")
              (body_part show body))))))

pub data Run (A : Type 0) : Type 0 where
  returns : Result A → Stream → Run A
  out_of_fuel : Run A

abbrev pub then_run : {A B : Type 0} → Result A × Stream → (A → Stream → Run B) → Run B
then_run (err e, s) rest = returns (err e) s
then_run (ok a, s) rest = rest a s

abbrev pub failing : {A : Type 0} → String → Result A × Stream → Result A × Stream
failing prefix (r, s) = (map_err prefix r, s)

-- The header lines, up to the empty one.
add_line : String → Run (List String) → Run (List String)
add_line line out_of_fuel = out_of_fuel
add_line line (returns (err e) s) = returns (err e) s
add_line line (returns (ok lines) s) = returns (ok (line ∷ lines)) s

next_header : (Stream → Run (List String)) → Bytes × String → Stream → Run (List String)
next_header more ([], line) s = returns (err "连接意外关闭") s
next_header more (b ∷ bs, line) s =
    if line == "\r\n" then returns (ok []) s else add_line line (more s)

unfoldable pub read_headers : ℕ → Stream → Run (List String)
unfolding add_line next_header
read_headers zero s = out_of_fuel
read_headers (suc fuel) s =
    then_run (failing "读取响应行失败：" (read_line s)) (next_header (λ t. read_headers fuel t))

second : List String → String → Result String
second (a ∷ b ∷ more) line = ok b
second _ line = err (String.◌++◌ "无效的状态行：" line)

unfoldable pub parse_status_code : String → Result ℕ
unfolding second
parse_status_code status_line = do
  status ← second (split_whitespace status_line) status_line
  ok_or (parse_unsigned 10 (2 ^ 16) status) (String.◌++◌ "无效的状态码：" status)

-- `eq_ignore_ascii_case`.
abbrev lower : ℕ → ℕ
lower c = if leb 65 c && leb c 90 then c + 32 else c

unfoldable pub eq_ignore_ascii_case : String → String → Bool
eq_ignore_ascii_case String.[] String.[] = true
eq_ignore_ascii_case String.[] (String.◌∷◌ d t) = false
eq_ignore_ascii_case (String.◌∷◌ c s) String.[] = false
eq_ignore_ascii_case (String.◌∷◌ c s) (String.◌∷◌ d t) =
    eqb (lower (code c)) (lower (code d)) && eq_ignore_ascii_case s t

-- What the headers say of the body; a later `Content-Length` counts, also if it is no number.
pub record BodyInfo : Type 0 where
  pub content_length : Option ℕ
  pub is_chunked : Bool

read_pair : String → String → BodyInfo → BodyInfo
read_pair key value info = record {
  content_length =
      if eq_ignore_ascii_case key "content-length"
      then parse_unsigned 10 (2 ^ 64) value
      else info.content_length;
  is_chunked =
      if eq_ignore_ascii_case key "transfer-encoding" && contains value "chunked"
      then true
      else info.is_chunked;
}

read_header : Option (String × String) → BodyInfo → BodyInfo
read_header none info = info
read_header (some (key, value)) info = read_pair (trim key) (trim value) info

unfoldable pub parse_headers : List String → BodyInfo → BodyInfo
unfolding eq_ignore_ascii_case read_pair read_header trim contains
parse_headers [] info = info
parse_headers (line ∷ lines) info = parse_headers lines (read_header (split_once b':' line) info)

-- The text of a chunk's size line.
unfoldable pub chunk_size : String → Result ℕ
chunk_size size_line =
    map_err "解析 chunk 大小失败："
      (ok_or (parse_unsigned 16 (2 ^ 64) size_line) "invalid digit found in string")

pub decoded : String → Option String → Result String
decoded prefix none = err (String.◌++◌ prefix "invalid utf-8 sequence")
decoded prefix (some s) = ok s

-- The line feed behind a chunk is read, and what it is, or an error, is dropped.
skip_line : Stream → Stream
skip_line s = (read_line s).1

next_chunk : (Bytes → Stream → Run Bytes) → Bytes → Bytes → Stream → Run Bytes
next_chunk more body chunk s = more (body ++ chunk) (skip_line s)

sized : (Bytes → Stream → Run Bytes) → Bytes → ℕ → Stream → Run Bytes
sized more body zero s = returns (ok body) (skip_line s)
sized more body (suc n) s =
    then_run (failing "读取 chunk 数据失败：" (read_exact (suc n) s)) (next_chunk more body)

-- An empty size line is passed over, and so is the end of the stream, which reads as one.
size_read : (Bytes → Stream → Run Bytes) → Bytes → Bytes × String → Stream → Run Bytes
size_read more body (bytes, line) s =
    if is_empty (trim line)
    then more body s
    else then_run (chunk_size (trim line), s) (sized more body)

unfoldable pub read_chunks : ℕ → Bytes → Stream → Run Bytes
unfolding skip_line next_chunk sized size_read
read_chunks zero body s = out_of_fuel
read_chunks (suc fuel) body s =
    then_run (failing "读取 chunk 大小失败：" (read_line s)) (size_read (λ b t. read_chunks fuel b t) body)

decode_chunks : Run Bytes → Run String
decode_chunks out_of_fuel = out_of_fuel
decode_chunks (returns (err e) s) = returns (err e) s
decode_chunks (returns (ok body) s) = returns (decoded "解码 chunked body 失败：" (from_utf8 body)) s

unfoldable pub read_chunked_body : ℕ → Stream → Run String
unfolding read_chunks decoded decode_chunks
read_chunked_body fuel s = decode_chunks (read_chunks fuel [] s)

read_end : Stream → Option String → Run String
read_end s none = returns (decoded "解码响应体失败：" (from_utf8 s.bytes)) (record s { bytes = [] })
read_end s (some e) = returns (err (String.◌++◌ "读取响应体失败：" e)) (record s { bytes = [] })

read_length : Option ℕ → Stream → Run String
read_length none s = read_end s s.failure
read_length (some n) s =
    then_run (failing "读取响应体失败：" (read_exact n s))
      (λ body t. returns (decoded "解码响应体失败：" (from_utf8 body)) t)

-- The body by what the headers say: chunks, a length, or all up to the end. The timeout of the last
-- case is left out.
unfoldable pub read_body : ℕ → BodyInfo → Stream → Run String
unfolding decoded read_end read_length
read_body fuel info s =
    if info.is_chunked then read_chunked_body fuel s else read_length info.content_length s

with_status : ℕ → Run String → Run IpcHttpResponse
with_status status out_of_fuel = out_of_fuel
with_status status (returns (err e) s) = returns (err e) s
with_status status (returns (ok body) s) =
    returns (ok (record { status_code = status; body = body })) s

respond : ℕ → List String → Stream → Run IpcHttpResponse
respond fuel [] s = returns (err "响应为空") s
respond fuel (status_line ∷ lines) s =
    then_run (parse_status_code status_line, s)
      (λ status t. with_status status (
        read_body fuel (parse_headers lines (record { content_length = none; is_chunked = false }))
          t))

after_headers : ℕ → Run (List String) → Run IpcHttpResponse
after_headers fuel out_of_fuel = out_of_fuel
after_headers fuel (returns (err e) s) = returns (err e) s
after_headers fuel (returns (ok lines) s) = respond fuel lines s

unfoldable pub read_http_response : ℕ → Stream → Run IpcHttpResponse
unfolding with_status respond after_headers
read_http_response fuel s = after_headers fuel (read_headers fuel s)
