-- ===== src/Ipc/Stream.antt =====
-- What the client reads: the bytes that arrive, and behind them the end of the stream or an error.
pub mod Consume
use stelliberty_m.Base.{
  ℕ, zero, suc, ◌≡◌, String, Bool, List, [], ◌∷◌, ◌++◌, Option, none, some, Result, ok, err, length,
  eqb, ltb, if◌then◌else◌,
}
use stelliberty_m.Ipc.Utf8.{from_utf8}

abbrev pub Bytes : Type 0
Bytes = List ℕ

pub record Stream : Type 0 where
  pub bytes : Bytes
  pub failure : Option String

-- The bytes up to the first line feed, with it, and what follows; `none` without one.
abbrev prefix_line : ℕ → Option (Bytes × Bytes) → Option (Bytes × Bytes)
prefix_line b none = none
prefix_line b (some (line, rest)) = some (b ∷ line, rest)

unfoldable pub cut_line : Bytes → Option (Bytes × Bytes)
cut_line [] = none
cut_line (b ∷ bs) =
    let later = prefix_line b (cut_line bs) in if eqb b b'\n' then some (b ∷ [], bs) else later

text_line : Bytes → Option String → Result (Bytes × String)
text_line bytes none = err "stream did not contain valid UTF-8"
text_line bytes (some s) = ok (bytes, s)

last_line : Bytes → Option String → Result (Bytes × String)
last_line bytes (some e) = err e
last_line bytes none = text_line bytes (from_utf8 bytes)

line_of : Option (Bytes × Bytes) → Stream → Result (Bytes × String) × Stream
line_of none s = (last_line s.bytes s.failure, record s { bytes = [] })
line_of (some (line, rest)) s = (text_line line (from_utf8 line), record s { bytes = rest })

-- `read_line`: the bytes of the line, whose number it returns, and their text.
unfoldable pub read_line : Stream → Result (Bytes × String) × Stream
unfolding cut_line text_line last_line line_of
read_line s = line_of (cut_line s.bytes) s

abbrev with_byte : ℕ → Option (Bytes × Bytes) → Option (Bytes × Bytes)
with_byte b none = none
with_byte b (some (read, rest)) = some (b ∷ read, rest)

unfoldable pub take_exact : ℕ → Bytes → Option (Bytes × Bytes)
take_exact zero bs = some ([], bs)
take_exact (suc n) [] = none
take_exact (suc n) (b ∷ bs) = with_byte b (take_exact n bs)

too_short : Option String → String
too_short none = "early eof"
too_short (some e) = e

exact_of : Option (Bytes × Bytes) → Stream → Result Bytes × Stream
exact_of none s = (err (too_short s.failure), record s { bytes = [] })
exact_of (some (read, rest)) s = (ok read, record s { bytes = rest })

-- `read_exact` into a buffer of `n` bytes.
unfoldable pub read_exact : ℕ → Stream → Result Bytes × Stream
unfolding take_exact too_short exact_of
read_exact n s = exact_of (take_exact n s.bytes) s
