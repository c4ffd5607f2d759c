-- ===== src/Ipc/Http/Chunks.antt =====
-- client.rs: the reader of a chunked body on bodies that are encoded in chunks.
use stelliberty_m.Base.{
  ℕ, zero, suc, ◌+◌, ◌^◌, ◌<◌, ◌≡◌, refl, ap, ◌∙◌, String, false, List, [], ◌∷◌, ◌++◌, append_assoc,
  append-nil, Option, none, some, ok, eqb, is_empty, trim, length, arith, any, or-false,
}
use stelliberty_m.Base.Numerals.{Numeral, numeral_text, numeral_value, parse_unsigned-hex}
use stelliberty_m.Ipc.Utf8.{from_utf8}
use stelliberty_m.Ipc.Stream.{Bytes, Stream, cut_line, take_exact, read_line, read_exact}
use stelliberty_m.Ipc.Http.{
  returns, out_of_fuel, chunk_size, read_chunks, read_chunked_body, decode_chunks, decoded,
  size_read, sized, skip_line, next_chunk,
}

abbrev pub NoLineFeed : Bytes → Type 0
NoLineFeed bs = any (λ b. eqb b b'\n') bs ≡ false

cut_line-append :
    (bs rest : Bytes)
    → NoLineFeed bs
    → cut_line (bs ++ b'\n' ∷ rest) ≡ some (bs ++ b'\n' ∷ [], rest)
unfolding cut_line
cut_line-append [] rest h = refl
cut_line-append (b ∷ bs) rest h =
    let (here, later) = or-false (eqb b b'\n') _ h in rw (here, cut_line-append bs rest later)

take_exact-append : (bs rest : Bytes) → take_exact (length bs) (bs ++ rest) ≡ some (bs, rest)
unfolding take_exact
take_exact-append [] rest = refl
take_exact-append (b ∷ bs) rest = rw (take_exact-append bs rest)

-- The line of the size `n`, without its line feed: its text is the number in radix 16 between spaces.
pub record SizeLine (line : Bytes) (n : ℕ) : Type 0 where
  pub text : String
  pub one_line : NoLineFeed line
  pub encodes : from_utf8 (line ++ b'\n' ∷ []) ≡ some text
  pub number : Numeral
  pub writes : trim text ≡ numeral_text number
  pub value_is : numeral_value 16 number ≡ n
  pub fits : n < 2 ^ 64

SizeLine-chunk_size :
    (line : Bytes) (n : ℕ)
    → (l : SizeLine line n) → (is_empty (trim l.text) ≡ false) × (chunk_size (trim l.text) ≡ ok n)
unfolding chunk_size
SizeLine-chunk_size line n l =
    let v = l.value_is in
    let f = l.fits in
    let read = parse_unsigned-hex (2 ^ 64) l.number (omega arith) in
    (rw l.writes refl, rw (l.writes, read) (ap (λ k. ok k) v))

-- A chunk that is not empty, with its size line.
pub record Chunk : Type 0 where
  pub line : Bytes
  pub first : ℕ
  pub others : Bytes
  pub sized_line : SizeLine line (suc (length others))

abbrev pub data_of : Chunk → Bytes
data_of c = c.first ∷ c.others

abbrev pub encode : List Chunk → Bytes → Bytes
encode [] rest = rest
encode (c ∷ cs) rest = c.line ++ b'\n' ∷ (data_of c ++ b'\r' ∷ b'\n' ∷ encode cs rest)

abbrev pub body_of : List Chunk → Bytes
body_of [] = []
body_of (c ∷ cs) = data_of c ++ body_of cs

abbrev pub stream_of : Bytes → Option String → Stream
stream_of bytes failure = record { bytes = bytes; failure = failure }

SizeLine-read :
    (line rest : Bytes) (n fuel : ℕ) (body : Bytes) (failure : Option String)
    → (l : SizeLine line n)
    → read_chunks (suc fuel) body (stream_of (line ++ b'\n' ∷ rest) failure)
      ≡ sized (λ b t. read_chunks fuel b t) body n (stream_of rest failure)
unfolding read_chunks read_line
SizeLine-read line rest n fuel body failure l =
    let (not_empty, size_is) = SizeLine-chunk_size line n l in
    rw (cut_line-append line rest l.one_line, l.encodes, not_empty, size_is)

chunk-read :
    (c : Chunk) (rest : Bytes) (fuel : ℕ) (body : Bytes) (failure : Option String)
    → read_chunks (suc fuel) body (stream_of (encode (c ∷ []) rest) failure)
      ≡ read_chunks fuel (body ++ data_of c) (stream_of rest failure)
unfolding sized skip_line next_chunk read_exact read_line cut_line
chunk-read c rest fuel body failure =
    SizeLine-read c.line _ _ fuel body failure c.sized_line
    ∙ rw (take_exact-append (data_of c) (b'\r' ∷ b'\n' ∷ rest)) refl

chunks-read :
    (cs : List Chunk) (rest : Bytes) (fuel : ℕ) (body : Bytes) (failure : Option String)
    → read_chunks (length cs + fuel) body (stream_of (encode cs rest) failure)
      ≡ read_chunks fuel (body ++ body_of cs) (stream_of rest failure)
chunks-read [] rest fuel body failure =
    let e : 0 + fuel ≡ fuel = omega arith in rw (e, append-nil body)
chunks-read (c ∷ cs) rest fuel body failure =
    let e : suc (length cs) + fuel ≡ suc (length cs + fuel) = omega arith in
    rw e (
      chunk-read c (encode cs rest) (length cs + fuel) body failure
      ∙ chunks-read cs rest fuel (body ++ data_of c) failure
      ∙ ap (λ b. read_chunks fuel b (stream_of rest failure))
          (append_assoc body (data_of c) (body_of cs)))

-- Chunks behind their sizes in radix 16, the size line of an empty chunk and an empty line are read as the chunks' bytes, and what
-- follows is left in the stream; one round for each chunk and one more are enough.
pub read_chunked_body-encode :
    (cs : List Chunk) (last rest : Bytes) (fuel : ℕ) (failure : Option String)
    → SizeLine last 0
    → read_chunked_body
        (length cs + suc fuel)
        (stream_of (encode cs (last ++ b'\n' ∷ b'\r' ∷ b'\n' ∷ rest)) failure)
      ≡ returns (decoded "解码 chunked body 失败：" (from_utf8 (body_of cs))) (stream_of rest failure)
unfolding read_chunked_body decode_chunks sized skip_line read_line cut_line
read_chunked_body-encode cs last rest fuel failure l =
    ap decode_chunks
      (chunks-read cs _ (suc fuel) [] failure ∙ SizeLine-read last _ 0 fuel (body_of cs) failure l)

no_fuel : (body : Bytes) (s : Stream) → read_chunks zero body s ≡ out_of_fuel
unfolding read_chunks
no_fuel body s = refl

eof-read : (fuel : ℕ) (body : Bytes) → read_chunks fuel body (stream_of [] none) ≡ out_of_fuel
unfolding read_chunks read_line cut_line from_utf8 trim size_read
eof-read zero body = refl
eof-read (suc fuel) body = eof-read fuel body

cut_off-read :
    (cs : List Chunk) (fuel : ℕ) (body : Bytes)
    → read_chunks fuel body (stream_of (encode cs []) none) ≡ out_of_fuel
cut_off-read [] fuel body = eof-read fuel body
cut_off-read (c ∷ cs) zero body = no_fuel body _
cut_off-read (c ∷ cs) (suc fuel) body =
    chunk-read c (encode cs []) fuel body none ∙ cut_off-read cs fuel (body ++ data_of c)

-- A stream that ends behind a number of whole chunks, before the empty one, is never read to an end:
-- no number of rounds is enough.
pub read_chunked_body_cut_off :
    (cs : List Chunk) (fuel : ℕ)
    → read_chunked_body fuel (stream_of (encode cs []) none) ≡ out_of_fuel
unfolding read_chunked_body decode_chunks
read_chunked_body_cut_off cs fuel = ap decode_chunks (cut_off-read cs fuel [])
