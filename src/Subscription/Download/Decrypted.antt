-- ===== src/Subscription/Download/Decrypted.antt =====
-- downloader.rs: where the content that a download returns comes from.
use stelliberty_m.Base.{
  ok-injective, ◌≡◌, refl, sym, ap, ◌∙◌, ◌⊎◌, String, Bool, true, false, ◌||◌, List, [], ◌∷◌, map,
  Option, some, Result, ok, err, ◌>>=◌, >>=-eq-ok, ok_or-eq-ok, map_err, ok_or, if◌then◌else◌,
  is_empty, trim, starts_with, Memᴰ, inl, inr,
}
use mathlib.Core.Path.{subst}
use Prim.Native.String
use stelliberty_m.Ipc.Utf8.{from_utf8}
use stelliberty_m.Ipc.Stream.{Bytes}
use stelliberty_m.Subscription.Parser.{lines}
use stelliberty_m.Subscription.Download.{
  Age, with_identity, read_identities, some_identities, parse_x25519_identities, try_decrypted,
  try_identities, given_key, decrypt_age_content_if_needed,
}

module _ (age : Age) where
  abbrev pub Identities : Type 0
  Identities = List age.Identity × Bool

  -- A text that one of these identities gives.
  abbrev DecryptedBy : String → List age.Identity → String → Type 0
  DecryptedBy content identities out =
      (identity : age.Identity) × (bytes : Bytes) × Memᴰ identity identities
      × (age.decrypt identity content ≡ ok bytes)
      × (from_utf8 bytes ≡ some out)

  later :
      (content out : String) (identity : age.Identity) (rest : List age.Identity)
      → DecryptedBy content rest out
      → DecryptedBy content (identity ∷ rest) out
  later content out identity rest (i, bytes, m, d, u) = (i, bytes, Memᴰ.tail m, d, u)

  try_identities-ok :
      (content : String) (identities : List age.Identity) (has_hybrid : Bool) (out : String)
      → try_identities age content identities has_hybrid ≡ ok out
      → DecryptedBy content identities out
  unfolding try_identities
  try_identities-ok content [] true out h = cc
  try_identities-ok content [] false out h = cc
  try_identities-ok content (identity ∷ rest) has_hybrid out h =
      by_result (age.decrypt identity content) refl
        (λ g. try_identities-ok content rest has_hybrid out g) h
    where
      by_result :
          (r : Result Bytes)
          → age.decrypt identity content ≡ r
          → (try_identities age content rest has_hybrid ≡ ok out → DecryptedBy content rest out)
          → try_decrypted age r (try_identities age content rest has_hybrid) ≡ ok out
          → DecryptedBy content (identity ∷ rest) out
      by_result (ok bytes) e next h =
          (identity, bytes, Memᴰ.head refl, e, ok_or-eq-ok (from_utf8 bytes) _ h)
      by_result (err x) e next h = later content out identity rest (next h)

  -- Each identity is one of the lines.
  abbrev FromLines : List String → List age.Identity → Type 0
  FromLines ls identities =
      (identity : age.Identity)
      → Memᴰ identity identities
      → (line : String) × Memᴰ line ls × (age.identity_from_str line ≡ ok identity)

  skipped :
      (line : String) (ls : List String) (identities : List age.Identity)
      → FromLines ls identities
      → FromLines (line ∷ ls) identities
  skipped line ls identities from identity m =
      let (l, n, e) = from identity m in (l, Memᴰ.tail n, e)

  added :
      (line : String) (ls : List String) (identities : List age.Identity) (identity : age.Identity)
      → age.identity_from_str line ≡ ok identity
      → FromLines ls identities
      → FromLines (line ∷ ls) (identity ∷ identities)
  added line ls identities identity h from other (Memᴰ.head e) =
      (line, Memᴰ.head refl, h ∙ ap (λ x. ok x) (sym e))
  added line ls identities identity h from other (Memᴰ.tail m) =
      skipped line ls identities from other m

  Mem-of :
      (identity : age.Identity) (r : Identities)
      → r ≡ ([], false)
      → Memᴰ identity r.0
      → Memᴰ identity []
  Mem-of identity r e m = subst (λ (x : Identities). Memᴰ identity x.0) e m

  -- With one more line that gives an identity.
  parsed :
      (line : String) (ls : List String) (r : Identities) (first : Result age.Identity)
      → first ≡ age.identity_from_str line
      → ((q : Identities) → read_identities age ls ≡ ok q → FromLines ls q.0)
      → (map_err "age-secret-key 格式无效：" first
          >>= (λ identity. read_identities age ls >>= (λ q. ok (with_identity age identity q))))
        ≡ ok r
      → FromLines (line ∷ ls) r.0
  unfolding with_identity
  parsed line ls r (err e) same next h = cc
  parsed line ls r (ok identity) same next h =
      let (q, read, whole) =
        >>=-eq-ok (read_identities age ls) (λ q. ok (with_identity age identity q)) h in
      subst (λ (x : Identities). FromLines (line ∷ ls) x.0) (ok-injective whole)
        (added line ls q.0 identity (sym same) (next q read))

  read_identities-FromLines :
      (ls : List String) (r : Identities) → read_identities age ls ≡ ok r → FromLines ls r.0
  unfolding read_identities
  read_identities-FromLines [] r h = λ identity m.
      let none_read : Memᴰ identity [] = Mem-of identity r (sym (ok-injective h)) m in
      elim none_read [ ]
  read_identities-FromLines (line ∷ ls) r h =
      by_test (is_empty line || starts_with line "#") (starts_with line "AGE-SECRET-KEY-PQ-1")
        (starts_with line "AGE-SECRET-KEY-1") (λ q g. read_identities-FromLines ls q g) h
    where
      others : Result Identities
      others = read_identities age ls

      by_test :
          (a b c : Bool)
          → ((q : Identities) → others ≡ ok q → FromLines ls q.0)
          → (if a
              then others
              else (if b
                  then (others >>= (λ q. ok (q.0, true)))
                  else (if c
                      then (map_err "age-secret-key 格式无效：" (age.identity_from_str line)
                          >>= (λ identity. others >>= (λ q. ok (with_identity age identity q))))
                      else err (String.◌++◌ "age-secret-key 类型无效：" line))))
            ≡ ok r
          → FromLines (line ∷ ls) r.0
      by_test true b c next h = skipped line ls r.0 (next r h)
      by_test false true c next h =
          let (q, read, whole) = >>=-eq-ok others (λ q. ok (q.0, true)) h in
          skipped line ls r.0
            (subst (λ (x : Identities). FromLines ls x.0) (ok-injective whole) (next q read))
      by_test false false true next h = parsed line ls r (age.identity_from_str line) refl next h
      by_test false false false next h = cc

  some_identities-ok : (r q : Identities) → some_identities age r ≡ ok q → r ≡ q
  unfolding some_identities
  some_identities-ok ([], true) q h = cc
  some_identities-ok ([], false) q h = cc
  some_identities-ok (identity ∷ identities, has_hybrid) q h = ok-injective h

  -- What a decrypted text comes from: a key that is not empty, a line of it that is an identity, and
  -- the bytes that this identity gives.
  pub record Decrypted (content : String) (age_secret_key : Option String) (out : String)
      : Type 0 where
    pub key : String
    pub line : String
    pub identity : age.Identity
    pub bytes : Bytes
    pub key_is : given_key age age_secret_key ≡ some key
    pub line_in : Memᴰ line (map trim (lines key))
    pub is_identity : age.identity_from_str line ≡ ok identity
    pub gives : age.decrypt identity content ≡ ok bytes
    pub text_is : from_utf8 bytes ≡ some out

  decrypted :
      (content : String) (age_secret_key : Option String) (out : String)
      → (ok_or (given_key age age_secret_key) "订阅内容已使用 age 加密，请填写 age-secret-key" >>= (λ key.
          parse_x25519_identities age key >>= (λ r. try_identities age content r.0 r.1)))
        ≡ ok out
      → Decrypted content age_secret_key out
  unfolding parse_x25519_identities
  decrypted content age_secret_key out h =
      let (key, given, after) = >>=-eq-ok (ok_or (given_key age age_secret_key) _) _ h in
      let (r, parses, tried) = >>=-eq-ok (parse_x25519_identities age key) _ after in
      let (q, read, some_there) =
        >>=-eq-ok (read_identities age (map trim (lines key))) (λ x. some_identities age x)
          parses in
      let (identity, bytes, m, gives, text) = try_identities-ok content r.0 r.1 out tried in
      let same : r ≡ q = sym (some_identities-ok q r some_there) in
      let from : Memᴰ identity q.0 = subst (λ (x : Identities). Memᴰ identity x.0) same m in
      let (line, there, is_one) =
        read_identities-FromLines (map trim (lines key)) q read identity from in
      record {
        key = key;
        line = line;
        identity = identity;
        bytes = bytes;
        key_is = ok_or-eq-ok (given_key age age_secret_key) _ given;
        line_in = there;
        is_identity = is_one;
        gives = gives;
        text_is = text;
      }

  -- A content that is returned is the content as it came, where it does not begin with the header of
  -- age, or the UTF-8 text of what an identity, which is a line of the given key, decrypts it to.
  pub decrypt_age_content_if_needed-ok :
      (content : String) (age_secret_key : Option String) (out : String)
      → decrypt_age_content_if_needed age content age_secret_key ≡ ok out
      → ((starts_with content "-----BEGIN AGE ENCRYPTED FILE-----" ≡ false) × (out ≡ content))
        ⊎ Decrypted content age_secret_key out
  unfolding decrypt_age_content_if_needed
  decrypt_age_content_if_needed-ok content age_secret_key out h =
      by_header (starts_with content "-----BEGIN AGE ENCRYPTED FILE-----") refl h
    where
      whole : Result String
      whole =
          ok_or (given_key age age_secret_key) "订阅内容已使用 age 加密，请填写 age-secret-key"
          >>= (λ key. parse_x25519_identities age key >>= (λ r. try_identities age content r.0 r.1))

      by_header :
          (b : Bool)
          → starts_with content "-----BEGIN AGE ENCRYPTED FILE-----" ≡ b
          → (if b then whole else ok content) ≡ ok out
          → ((starts_with content "-----BEGIN AGE ENCRYPTED FILE-----" ≡ false) × (out ≡ content))
            ⊎ Decrypted content age_secret_key out
      by_header true e h = inr (decrypted content age_secret_key out h)
      by_header false e h = inl (e, sym (ok-injective h))
