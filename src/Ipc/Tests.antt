-- ===== src/Ipc/Tests.antt =====
-- Runs of the IPC client's code and of its theorems on short streams and small pools.
use stelliberty_m.Base.{◌≡◌, refl, [], ◌∷◌, none, ok, true, trim, arith}
use stelliberty_m.Base.Numerals.{d0, d3}
use stelliberty_m.Ipc.Utf8.{from_utf8}
use stelliberty_m.Ipc.Http.{returns, out_of_fuel, read_chunked_body, decoded}
use stelliberty_m.Ipc.Http.Chunks.{
  SizeLine, Chunk, encode, body_of, stream_of, read_chunked_body-encode, read_chunked_body_cut_off,
}
use stelliberty_m.Ipc.Pool.{
  idle_timeout_ms, Probe, would_block, closed, PooledConnection, Pool, take_idle, Shared, begin,
  finish,
}
use stelliberty_m.Ipc.Pool.Owners.{
  IsSound, begun, finished, Reach, fresh, step, take_idle-usable, Reach-IsSound,
}

size_of_three : SizeLine (b'3' ∷ b'\r' ∷ []) 3
unfolding from_utf8 trim
size_of_three = record {
  text = "3\r\n";
  one_line = refl;
  encodes = refl;
  number = record { first = d3; others = [] };
  writes = refl;
  value_is = refl;
  fits = omega arith;
}

size_of_none : SizeLine (b'0' ∷ b'\r' ∷ []) 0
unfolding from_utf8 trim
size_of_none = record {
  text = "0\r\n";
  one_line = refl;
  encodes = refl;
  number = record { first = d0; others = [] };
  writes = refl;
  value_is = refl;
  fits = omega arith;
}

abbrev chunk : Chunk
chunk = record {
  line = b'3' ∷ b'\r' ∷ [];
  first = b'a';
  others = b'b' ∷ b'c' ∷ [];
  sized_line = size_of_three;
}

read_chunked_body-encode_example :
    read_chunked_body 3 (
      stream_of
        (encode (chunk ∷ chunk ∷ []) (b'0' ∷ b'\r' ∷ b'\n' ∷ b'\r' ∷ b'\n' ∷ b'x' ∷ []))
        none)
    ≡ returns
        (decoded "解码 chunked body 失败：" (from_utf8 (body_of (chunk ∷ chunk ∷ []))))
        (stream_of (b'x' ∷ []) none)
read_chunked_body-encode_example =
    read_chunked_body-encode (chunk ∷ chunk ∷ []) (b'0' ∷ b'\r' ∷ []) (b'x' ∷ []) 0 none
      size_of_none

read_chunked_body_cut_off_example :
    read_chunked_body 100 (stream_of (encode (chunk ∷ []) []) none) ≡ out_of_fuel
read_chunked_body_cut_off_example = read_chunked_body_cut_off (chunk ∷ []) 100

abbrev empty : Shared
empty = record { idle = []; held = [] }

abbrev one_request : Shared
one_request = begin 0 (λ c. closed) (ok 1) empty

abbrev ended : Shared
ended = finish 5 1 true one_request

ended-Reach : Reach ended
unfolding begin stelliberty_m.Ipc.Pool.Owners.same
ended-Reach = step (step fresh (begun 0 (λ c. closed) 1 refl)) (finished 5 1 true (omega arith))

Reach-IsSound_example : IsSound ended
Reach-IsSound_example = Reach-IsSound ended ended-Reach
