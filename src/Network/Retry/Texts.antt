-- ===== src/Network/Retry/Texts.antt =====
-- handlers.rs: which texts the two tests of an error let through.
use Prim.Native.String
use text.Mathlib.TextLemmas.{cons-append, nil-append}
use stelliberty_m.Base.{
  ℕ, ◌≡◌, refl, String, Bool, true, false, not, ◌&&◌, ◌||◌, contains, starts_with,
  strip_text-append, ltb, arith,
}
use stelliberty_m.Network.Retry.{is_ipc_not_ready_error, can_retry_on_error}

starts_with-append : (p b : String) → starts_with (String.◌++◌ p b) p ≡ true
unfolding starts_with
starts_with-append p b = rw (strip_text-append p b) refl

contains-starts : (s p : String) → starts_with s p ≡ true → contains s p ≡ true
unfolding contains
contains-starts String.[] p h = h
contains-starts (String.◌∷◌ c s) p h = rw h

pub contains-middle : (a p b : String) → contains (String.◌++◌ a (String.◌++◌ p b)) p ≡ true
unfolding contains
contains-middle String.[] p b =
    rw (nil-append) (contains-starts (String.◌++◌ p b) p (starts_with-append p b))
contains-middle (String.◌∷◌ c a) p b = rw (cons-append) (ground (arith, contains-middle a p b))

or-second : (a b c : Bool) → b ≡ true → (a || (b || c)) ≡ true
or-second true b c h = refl
or-second false true c h = refl
or-second false false c h = cc

-- Every error with "os error 2" anywhere in it counts as one of a core that is not there yet.
pub not_ready_of_two :
    (a b : String) → is_ipc_not_ready_error (String.◌++◌ a (String.◌++◌ "os error 2" b)) ≡ true
unfolding is_ipc_not_ready_error
not_ready_of_two a b = or-second _ _ _ (contains-middle a "os error 2" b)

and-not : (a b c : Bool) → b ≡ true → (a && (not b && c)) ≡ false
and-not true true c h = refl
and-not false true c h = refl
and-not a false c h = cc

pub can_retry_of_two :
    (a b : String) (i m : ℕ)
    → can_retry_on_error (String.◌++◌ a (String.◌++◌ "os error 2" b)) i m ≡ false
unfolding can_retry_on_error
can_retry_of_two a b i m = and-not _ _ _ (not_ready_of_two a b)

narrow :
    (l found two denied lin mac refused any_os pipe : Bool)
    → (l
        && (not (found || (two || (denied || (lin || (mac || refused)))))
            && (any_os || (found || (refused || pipe)))))
      ≡ (l && (not (found || (two || (denied || (lin || (mac || refused))))) && (any_os || pipe)))
narrow false found two denied lin mac refused any_os pipe = refl
narrow true true two denied lin mac refused any_os pipe = refl
narrow true false two denied lin mac true any_os pipe = ground arith
narrow true false two denied lin mac false any_os pipe = refl

-- The test for another attempt: the attempts are not used up, the error is none of a core that is not
-- there yet, and it has "os error" or "Broken pipe" in it. The other two texts of the condition have no
-- part in it.
pub can_retry_on_error_iff :
    (e : String) (attempt max_retries : ℕ)
    → can_retry_on_error e attempt max_retries ≡ (
        ltb attempt max_retries
        && (not (is_ipc_not_ready_error e) && (contains e "os error" || contains e "Broken pipe")))
unfolding can_retry_on_error is_ipc_not_ready_error
can_retry_on_error_iff e attempt max_retries =
    narrow (ltb attempt max_retries) (contains e "系统找不到指定的文件") (contains e "os error 2")
      (contains e "拒绝连接") (contains e "os error 111") (contains e "os error 61")
      (contains e "Connection refused") (contains e "os error") (contains e "Broken pipe")
