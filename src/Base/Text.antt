-- ===== src/Base/Text.antt =====
-- The functions of Rust's `str` that the modelled code uses, on the native texts.
use Prim.Native.Nat.{ℕ}
use Prim.Native.Char.{code}
use Prim.Native.String.{String, [], ◌∷◌}
use mathlib.Core.Bool.{Bool, true, false}
use mathlib.Core.Option
use mathlib.Core.Option.{Option, none, some}
use stelliberty_m.Base.Tests.{eqb, if◌then◌else◌}

-- `str::is_empty`.
abbrev pub is_empty : String → Bool
is_empty [] = true
is_empty (c ∷ s) = false

-- `str::strip_prefix(char)`.
unfoldable pub strip_prefix : ℕ → String → Option String
strip_prefix k [] = none
strip_prefix k (c ∷ s) = if eqb (code c) k then some s else none

-- `str::strip_suffix(char)`.
unfoldable pub strip_suffix : ℕ → String → Option String
strip_suffix k [] = none
strip_suffix k (c ∷ []) = if eqb (code c) k then some [] else none
strip_suffix k (c ∷ d ∷ s) = Option.map (λ t. c ∷ t) (strip_suffix k (d ∷ s))
