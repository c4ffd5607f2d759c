-- ===== src/SystemProxy/Solid.antt =====
-- Texts without blanks: what trimming and splitting make of them. No code of the repository is modelled
-- here.
use Prim.Native.Char.{Char, code}
use Prim.Native.String
use text.Mathlib.TextLemmas.{cons-append, nil-append}
use stelliberty_m.Base.{
  ℕ, ◌≡◌, refl, ap, ◌∙◌, String, Bool, true, false, not, ◌&&◌, List, [], ◌∷◌, is_whitespace,
  all_chars, trim_start_if, trim_end_if, split_if, split_whitespace, trim_end_cons, keep_text,
  front_first,
}

abbrev Text : Type 0
Text = String

-- Some character, and none of them a blank.
abbrev pub Solid : Text → Type 0
Solid String.[] = ⊥
Solid (String.◌∷◌ c s) = all_chars (λ k. not (is_whitespace k)) (String.◌∷◌ c s) ≡ true

abbrev pub Full : Text → Type 0
Full String.[] = ⊥
Full (String.◌∷◌ c s) = Unit

not-blank : (b c : Bool) → (not b && c) ≡ true → (b ≡ false) × (c ≡ true)
not-blank true c h = cc
not-blank false c h = (refl, h)

pub Solid-Full : (s : Text) → Solid s → Full s
Solid-Full String.[] h = h
Solid-Full (String.◌∷◌ c s) h = tt

append-Full : (a s : Text) → Full s → Full (String.◌++◌ a s)
append-Full String.[] s h = rw nil-append h
append-Full (String.◌∷◌ c a) s h = rw cons-append tt

cons-kept : (p : ℕ → Bool) (c : Char) (t : Text) → Full t → trim_end_cons p c t ≡ String.◌∷◌ c t
unfolding trim_end_cons
cons-kept p c String.[] h = elim h [ ]
cons-kept p c (String.◌∷◌ d t) h = refl

trim_end_step :
    (p : ℕ → Bool) (c : Char) (s t : Text)
    → trim_end_if p s ≡ t
    → Full t
    → trim_end_if p (String.◌∷◌ c s) ≡ String.◌∷◌ c t
unfolding trim_end_if
trim_end_step p c s t e h = ap (trim_end_cons p c) e ∙ cons-kept p c t h

-- What is in front of a text that stays is kept.
pub trim_end-behind :
    (p : ℕ → Bool) (a s t : Text)
    → trim_end_if p s ≡ t
    → Full t
    → trim_end_if p (String.◌++◌ a s) ≡ String.◌++◌ a t
trim_end-behind p String.[] s t e h = rw (nil-append, nil-append) e
trim_end-behind p (String.◌∷◌ c a) s t e h =
    rw (cons-append, cons-append)
      (trim_end_step p c (String.◌++◌ a s) (String.◌++◌ a t) (trim_end-behind p a s t e h)
        (append-Full a t h))

-- A solid text, and what is trimmed away behind it.
pub trim_end-Solid :
    (s rest : Text)
    → Solid s
    → trim_end_if is_whitespace rest ≡ ""
    → trim_end_if is_whitespace (String.◌++◌ s rest) ≡ s
unfolding trim_end_if trim_end_cons
trim_end-Solid String.[] rest h e = elim h [ ]
trim_end-Solid (String.◌∷◌ c String.[]) rest h e =
    let (b, _more) = not-blank (is_whitespace (code c)) _ h in
    rw (cons-append, nil-append) (ap (trim_end_cons is_whitespace c) e ∙ rw b refl)
trim_end-Solid (String.◌∷◌ c (String.◌∷◌ d s)) rest h e =
    let (_b, more) = not-blank (is_whitespace (code c)) _ h in
    rw cons-append (
      trim_end_step is_whitespace c (String.◌++◌ (String.◌∷◌ d s) rest) (String.◌∷◌ d s)
        (trim_end-Solid (String.◌∷◌ d s) rest more e) tt)

pub trim_start-Solid :
    (s rest : Text)
    → Solid s
    → trim_start_if is_whitespace (String.◌++◌ s rest) ≡ String.◌++◌ s rest
unfolding trim_start_if
trim_start-Solid String.[] rest h = elim h [ ]
trim_start-Solid (String.◌∷◌ c s) rest h =
    let (b, _more) = not-blank (is_whitespace (code c)) _ h in rw cons-append (rw b refl)

-- A blank behind a solid text splits it off.
pub split-Solid :
    (s rest : Text) (c : Char)
    → Solid s
    → is_whitespace (code c) ≡ true
    → split_if is_whitespace (String.◌++◌ s (String.◌∷◌ c rest)) ≡ s ∷ split_if is_whitespace rest
unfolding split_if
split-Solid String.[] rest c h e = elim h [ ]
split-Solid (String.◌∷◌ d String.[]) rest c h e =
    let (b, _more) = not-blank (is_whitespace (code d)) _ h in
    rw (cons-append, nil-append) (rw (b, e) refl)
split-Solid (String.◌∷◌ d (String.◌∷◌ d' s)) rest c h e =
    let (b, more) = not-blank (is_whitespace (code d)) _ h in
    rw cons-append (rw b (ap (front_first d) (split-Solid (String.◌∷◌ d' s) rest c more e)))

pub split-last : (s : Text) → Solid s → split_if is_whitespace s ≡ s ∷ []
unfolding split_if
split-last String.[] h = elim h [ ]
split-last (String.◌∷◌ d String.[]) h =
    let (b, _more) = not-blank (is_whitespace (code d)) _ h in rw b refl
split-last (String.◌∷◌ d (String.◌∷◌ d' s)) h =
    let (b, more) = not-blank (is_whitespace (code d)) _ h in
    rw b (ap (front_first d) (split-last (String.◌∷◌ d' s) more))

keep-Full : (s : Text) (ss : List Text) → Full s → keep_text s ss ≡ s ∷ ss
keep-Full String.[] ss h = elim h [ ]
keep-Full (String.◌∷◌ c s) ss h = refl

abbrev IsBlank : Text → Type 0
IsBlank String.[] = ⊥
IsBlank (String.◌∷◌ c String.[]) = is_whitespace (code c) ≡ true
IsBlank (String.◌∷◌ c (String.◌∷◌ d s)) = ⊥

split-blank :
    (s b t : Text)
    → Solid s
    → IsBlank b
    → split_if is_whitespace (String.◌++◌ s (String.◌++◌ b t)) ≡ s ∷ split_if is_whitespace t
split-blank s String.[] t h e = elim e [ ]
split-blank s (String.◌∷◌ c String.[]) t h e =
    rw (cons-append c String.[] t, nil-append t) (split-Solid s t c h e)
split-blank s (String.◌∷◌ c (String.◌∷◌ d r)) t h e = elim e [ ]

-- Two solid texts with one blank between them.
pub split_whitespace-two :
    (s t : Text)
    → Solid s
    → Solid t
    → split_whitespace (String.◌++◌ s (String.◌++◌ " " t)) ≡ s ∷ t ∷ []
unfolding split_whitespace
split_whitespace-two s t h k =
    rw (split-blank s " " t h refl, split-last t k)
      (ap (keep_text s) (keep-Full t [] (Solid-Full t k)) ∙ keep-Full s (t ∷ []) (Solid-Full s h))
