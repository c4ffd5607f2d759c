-- ===== src/Ipc/Stream/Consume.antt =====
-- Reading a line that has a byte leaves fewer bytes.
use stelliberty_m.Base.{
  ℕ, ◌<◌, ◌≡◌, refl, String, [], ◌∷◌, Option, none, some, ok, eqb, length, arith, Bool-cases,
  Option-cases, inl, inr,
}
use stelliberty_m.Ipc.Utf8.{from_utf8}
use stelliberty_m.Ipc.Stream.{Bytes, Stream, cut_line, read_line, text_line, last_line, line_of}

cut_line-shorter :
    (bs : Bytes) (line rest : Bytes) → cut_line bs ≡ some (line, rest) → length rest < length bs
unfolding cut_line
cut_line-shorter [] line rest h = cc
cut_line-shorter (b ∷ bs) line rest h = elim (Bool-cases (eqb b b'\n')) [
  | inl e ↦ let g = rw e at h in let same : rest ≡ bs = cc in rw same (omega arith)
  | inr e ↦ elim (Option-cases (cut_line bs)) [
    | inl n ↦ let g = rw (e, n) at h in cc
    | inr ((l, r), n) ↦
        let g = rw (e, n) at h in
        let same : rest ≡ r = cc in let shorter = cut_line-shorter bs l r n in rw same (omega arith)
  ]
]

text_line-bytes :
    (bytes : Bytes) (o : Option String) {read : Bytes} {line : String}
    → text_line bytes o ≡ ok (read, line)
    → read ≡ bytes
unfolding text_line
text_line-bytes bytes none h = cc
text_line-bytes bytes (some t) h = cc

last_line-bytes :
    (bytes : Bytes) (o : Option String) {read : Bytes} {line : String}
    → last_line bytes o ≡ ok (read, line)
    → read ≡ bytes
unfolding last_line
last_line-bytes bytes none h = text_line-bytes bytes (from_utf8 bytes) h
last_line-bytes bytes (some e) h = cc

pub read_line-shorter :
    (s : Stream) {b : ℕ} {bs : Bytes} {line : String}
    → (read_line s).0 ≡ ok (b ∷ bs, line)
    → length (read_line s).1.bytes < length s.bytes
unfolding read_line
read_line-shorter s {b} {bs} {line} h = by_cut (cut_line s.bytes) refl h
  where
    by_cut :
        (o : Option (Bytes × Bytes))
        → cut_line s.bytes ≡ o
        → (line_of o s).0 ≡ ok (b ∷ bs, line)
        → length (line_of o s).1.bytes < length s.bytes
    by_cut none e g = let read = last_line-bytes s.bytes s.failure g in rw (← read) (omega arith)
    by_cut (some (l, r)) e g = cut_line-shorter s.bytes l r e
