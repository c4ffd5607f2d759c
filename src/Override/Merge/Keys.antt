-- ===== src/Override/Merge/Keys.antt =====
-- yaml_merger.rs: the key forms `key!`, `key+` and `<key>` mean what the comment of `deep_merge`
-- says, for every key text.
use Prim.Native.Char.{Char, code}
use Prim.Native.String.{String, [], ◌∷◌, ◌++◌}
use mathlib.Core.Option
use text.Mathlib.TextLemmas.{nil-append, cons-append}
use stelliberty_m.Base.{
  ℕ, ◌≡◌, refl, ap, ◌∙◌, Option, none, some, ◌≢◌, arith, strip_prefix, strip_suffix,
}
use stelliberty_m.Override.Merge.{
  replace, append, merge, directive, clean_key, classify, before_close,
}

strip_suffix-append : (c : Char) (s : String) → strip_suffix (code c) (s ++ (c ∷ [])) ≡ some s
unfolding strip_suffix
strip_suffix-append c [] = rw nil-append (ground arith)
strip_suffix-append c (d ∷ []) = rw (cons-append, nil-append) (ground arith)
strip_suffix-append c (d ∷ e ∷ s) =
    let ih = rw cons-append at (strip_suffix-append c (e ∷ s)) in
    rw (cons-append, cons-append) (ap (Option.map (λ t. d ∷ t)) ih)

strip_suffix-append_ne :
    (n : ℕ) (c : Char) (s : String) → code c ≢ n → strip_suffix n (s ++ (c ∷ [])) ≡ none
unfolding strip_suffix
strip_suffix-append_ne n c [] h = rw nil-append (ground arith)
strip_suffix-append_ne n c (d ∷ []) h = rw (cons-append, nil-append) (ground arith)
strip_suffix-append_ne n c (d ∷ e ∷ s) h =
    let ih = rw cons-append at (strip_suffix-append_ne n c (e ∷ s) h) in
    rw (cons-append, cons-append) (ap (Option.map (λ t. d ∷ t)) ih)

strip_prefix-ne : (n : ℕ) (c : Char) (s : String) → code c ≢ n → strip_prefix n (c ∷ s) ≡ none
unfolding strip_prefix
strip_prefix-ne n c s h = ground arith

classify-directive :
    (key : String) (a b d : Option String)
    → strip_suffix b'!' key ≡ a
    → strip_prefix b'+' key ≡ b
    → strip_suffix b'+' key ≡ d
    → directive key ≡ classify key a b d
unfolding directive
classify-directive key a b d e f g = rw (directive, e, f, g)

-- `key!` replaces `key`.
pub directive_replace : (key : String) → directive (key ++ "!") ≡ replace key
unfolding classify
directive_replace key = classify-directive (key ++ "!") _ _ _ (strip_suffix-append _ key) refl refl

-- `key+` appends to `key`, where `key` is not empty and does not begin with "+".
pub directive_append :
    (c : Char) (s : String) → code c ≢ b'+' → directive ((c ∷ s) ++ "+") ≡ append (c ∷ s)
unfolding classify
directive_append c s h =
    classify-directive ((c ∷ s) ++ "+") none none (some (c ∷ s))
      (strip_suffix-append_ne b'!' _ (c ∷ s) (omega arith))
      (rw cons-append (strip_prefix-ne b'+' c (s ++ "+") h)) (strip_suffix-append _ (c ∷ s))

strip_prefix-wrapped : (key : String) → strip_prefix b'<' (("<" ++ key) ++ ">") ≡ some (key ++ ">")
unfolding strip_prefix
strip_prefix-wrapped key = rw (cons-append, cons-append, nil-append)

clean_key-wrapped : (c : Char) (s : String) → clean_key (("<" ++ (c ∷ s)) ++ ">") ≡ c ∷ s
unfolding clean_key
clean_key-wrapped c s =
    rw (clean_key, strip_prefix-wrapped (c ∷ s), before_close, strip_suffix-append _ (c ∷ s))

-- `<key>` merges into `key`, whatever `key` looks like, if it is not empty.
pub directive_wrapped :
    (c : Char) (s : String) → directive (("<" ++ (c ∷ s)) ++ ">") ≡ merge (c ∷ s)
unfolding classify
directive_wrapped c s =
    classify-directive (("<" ++ (c ∷ s)) ++ ">") none none none
      (strip_suffix-append_ne b'!' _ ("<" ++ (c ∷ s)) (omega arith))
      (rw (cons-append, cons-append) (strip_prefix-ne b'+' _ _ (omega arith)))
      (strip_suffix-append_ne b'+' _ ("<" ++ (c ∷ s)) (omega arith))
    ∙ ap merge (clean_key-wrapped c s)
