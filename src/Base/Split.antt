-- ===== src/Base/Split.antt =====
-- More of Rust's `str`: tests, trimming and splitting. A `char` argument is its code point.
use Prim.Native.Nat.{ℕ}
use Prim.Native.Char.{Char, code}
use Prim.Native.String.{String, [], ◌∷◌, ◌++◌}
use mathlib.Core.Path.{◌≡◌, refl}
use mathlib.Core.Bool.{Bool, true, false, ◌&&◌, ◌||◌}
use mathlib.Core.Option
use mathlib.Core.Option.{Option, none, some}
use mathlib.Core.List.{List}
use native.Mathlib.Omega.{arith}
use text.Mathlib.TextLemmas.{nil-append, cons-append}
use stelliberty_m.Base.Lists.{or-false}
use stelliberty_m.Base.Tests.{eqb, eqb_iff, leb, if◌then◌else◌}

-- `char::is_whitespace`: the characters with the property White_Space.
abbrev pub is_whitespace : ℕ → Bool
is_whitespace c =
    (leb 9 c && leb c 13)
    || eqb c 32
    || eqb c 133
    || eqb c 160
    || eqb c 5760
    || (leb 8192 c && leb c 8202)
    || eqb c 8232
    || eqb c 8233
    || eqb c 8239
    || eqb c 8287
    || eqb c 12288

-- Does some, or every, character pass the test?
abbrev pub has_char : (ℕ → Bool) → String → Bool
has_char p [] = false
has_char p (c ∷ s) = p (code c) || has_char p s

abbrev pub all_chars : (ℕ → Bool) → String → Bool
all_chars p [] = true
all_chars p (c ∷ s) = p (code c) && all_chars p s

-- `replace(|c| p(c), "")`.
unfoldable pub remove_chars : (ℕ → Bool) → String → String
remove_chars p [] = []
remove_chars p (c ∷ s) = let rest = remove_chars p s in if p (code c) then rest else (c ∷ rest)

-- `str::trim_start` and `str::trim_start_matches` of one character.
unfoldable pub trim_start_if : (ℕ → Bool) → String → String
trim_start_if p [] = []
trim_start_if p (c ∷ s) = let rest = trim_start_if p s in if p (code c) then rest else (c ∷ s)

unfoldable pub trim_end_cons : (ℕ → Bool) → Char → String → String
trim_end_cons p c [] = if p (code c) then [] else (c ∷ [])
trim_end_cons p c (d ∷ s) = c ∷ d ∷ s

-- `str::trim_end`.
unfoldable pub trim_end_if : (ℕ → Bool) → String → String
unfolding trim_end_cons
trim_end_if p [] = []
trim_end_if p (c ∷ s) = trim_end_cons p c (trim_end_if p s)

-- `str::trim`.
unfoldable pub trim : String → String
unfolding trim_start_if trim_end_if
trim s = trim_end_if is_whitespace (trim_start_if is_whitespace s)

-- `str::strip_prefix(&str)` and `str::starts_with(&str)`.
unfoldable pub strip_text : String → String → Option String
strip_text [] s = some s
strip_text (p ∷ ps) [] = none
strip_text (p ∷ ps) (c ∷ s) = if eqb (code p) (code c) then strip_text ps s else none

is_stripped : Option String → Bool
is_stripped none = false
is_stripped (some s) = true

unfoldable pub starts_with : String → String → Bool
unfolding strip_text is_stripped
starts_with s p = is_stripped (strip_text p s)

-- `str::contains(&str)`.
unfoldable pub contains : String → String → Bool
unfolding starts_with
contains [] p = starts_with [] p
contains (c ∷ s) p = starts_with (c ∷ s) p || contains s p

-- `str::ends_with(&str)`.
abbrev same_text : String → String → Bool
same_text [] [] = true
same_text [] (d ∷ t) = false
same_text (c ∷ s) [] = false
same_text (c ∷ s) (d ∷ t) = eqb (code c) (code d) && same_text s t

unfoldable pub ends_with : String → String → Bool
ends_with [] p = same_text [] p
ends_with (c ∷ s) p = same_text (c ∷ s) p || ends_with s p

abbrev pub front : Char → String × String → String × String
front c (s, t) = (c ∷ s, t)

-- `str::split_once(char)`.
unfoldable pub split_once : ℕ → String → Option (String × String)
split_once k [] = none
split_once k (c ∷ s) =
    let rest = Option.map (front c) (split_once k s) in
    if eqb (code c) k then some ([], s) else rest

-- `str::split_once(&str)` with a text that is not empty.
abbrev or_later : Char → Option String → Option (String × String) → Option (String × String)
or_later c (some t) later = some ([], t)
or_later c none later = Option.map (front c) later

unfoldable pub split_once_text : String → String → Option (String × String)
unfolding strip_text
split_once_text p [] = none
split_once_text p (c ∷ s) = or_later c (strip_text p (c ∷ s)) (split_once_text p s)

last_or : ℕ → Char → String → Option (String × String) → Option (String × String)
last_or k c s (some (a, b)) = some (c ∷ a, b)
last_or k c s none = if eqb (code c) k then some ([], s) else none

-- `str::rsplit_once(char)`.
unfoldable pub rsplit_once : ℕ → String → Option (String × String)
unfolding last_or
rsplit_once k [] = none
rsplit_once k (c ∷ s) = last_or k c s (rsplit_once k s)

abbrev pub front_first : Char → List String → List String
front_first c List.[] = List.◌∷◌ (c ∷ []) List.[]
front_first c (List.◌∷◌ s ss) = List.◌∷◌ (c ∷ s) ss

-- `str::split` by a test of the character, and by one character.
unfoldable pub split_if : (ℕ → Bool) → String → List String
split_if p [] = List.◌∷◌ [] List.[]
split_if p (c ∷ s) =
    let rest = split_if p s in if p (code c) then List.◌∷◌ [] rest else front_first c rest

unfoldable pub split : ℕ → String → List String
unfolding split_if
split k s = split_if (λ c. eqb c k) s

abbrev pub keep_text : String → List String → List String
keep_text [] ss = ss
keep_text (c ∷ s) ss = List.◌∷◌ (c ∷ s) ss

abbrev pub keep_texts : List String → List String
keep_texts List.[] = List.[]
keep_texts (List.◌∷◌ s ss) = keep_text s (keep_texts ss)

-- `str::split_whitespace`: the pieces that are not empty.
unfoldable pub split_whitespace : String → List String
unfolding split_if
split_whitespace s = keep_texts (split_if is_whitespace s)

-- No character of the text is `k`.
abbrev pub Lacks : ℕ → String → Type 0
Lacks k s = has_char (λ c. eqb c k) s ≡ false

pub split_once-append :
    (k : ℕ) (s : String) (c : Char) (t : String)
    → Lacks k s
    → code c ≡ k
    → split_once k (s ++ (c ∷ t)) ≡ some (s, t)
unfolding split_once
split_once-append k [] c t l e = rw (nil-append) (ground (arith, e))
split_once-append k (d ∷ s) c t l e = rw (cons-append) (ground (arith, split_once-append k s c t))

-- Without the character there is nothing to split.
pub split_once-Lacks : (k : ℕ) (s : String) → Lacks k s → split_once k s ≡ none
unfolding split_once
split_once-Lacks k [] l = refl
split_once-Lacks k (d ∷ s) l = ground (arith, split_once-Lacks k s)

pub rsplit_once-Lacks : (k : ℕ) (s : String) → Lacks k s → rsplit_once k s ≡ none
unfolding rsplit_once
rsplit_once-Lacks k [] l = refl
rsplit_once-Lacks k (d ∷ s) l =
    let (here, later) = or-false (eqb (code d) k) _ l in
    rw (rsplit_once-Lacks k s later, last_or, here)

pub rsplit_once-append :
    (k : ℕ) (s : String) (c : Char) (t : String)
    → Lacks k t
    → code c ≡ k
    → rsplit_once k (s ++ (c ∷ t)) ≡ some (s, t)
unfolding rsplit_once
rsplit_once-append k [] c t l e =
    rw (nil-append, rsplit_once-Lacks k t l, last_or, (eqb_iff (code c) k).1 e)
rsplit_once-append k (d ∷ s) c t l e = rw (cons-append, rsplit_once-append k s c t l e, last_or)

-- A text that begins with `p` gives what follows.
pub strip_text-append : (p s : String) → strip_text p (p ++ s) ≡ some s
unfolding strip_text
strip_text-append [] s = rw (nil-append)
strip_text-append (c ∷ p) s = rw (cons-append) (ground (arith, strip_text-append p s))
