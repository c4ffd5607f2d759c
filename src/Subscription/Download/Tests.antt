-- ===== src/Subscription/Download/Tests.antt =====
-- A download that is decrypted with the second of two keys.
use stelliberty_m.Base.{◌≡◌, refl, String, [], ◌∷◌, some, ok, err, if◌then◌else◌, ◌==◌}
use stelliberty_m.Ipc.Utf8.{from_utf8}
use stelliberty_m.Subscription.Download.{Age, decrypt_age_content_if_needed}

-- An identity is its line, and the second one decrypts to "hi".
abbrev age : Age
age = record {
  Identity = String;
  identity_from_str = λ line. ok line;
  decrypt = λ identity content.
      if identity == "AGE-SECRET-KEY-1B" then ok (b'h' ∷ b'i' ∷ []) else err "no matching keys";
}

abbrev content : String
content = "-----BEGIN AGE ENCRYPTED FILE-----\nx"

abbrev key : String
key = "# mine\nAGE-SECRET-KEY-1A\n AGE-SECRET-KEY-1B\n"

hi_run : decrypt_age_content_if_needed age content (some key) ≡ ok "hi"
unfolding decrypt_age_content_if_needed from_utf8
hi_run = refl
