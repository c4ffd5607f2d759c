-- ===== src/SystemProxy/Linux/Stored.antt =====
-- manager.rs: the settings of KDE, written by one command and read by another.
use Prim.Native.String
use text.Mathlib.TextLemmas.{append_assoc, append-nil, cons-append}
use stelliberty_m.Base.{
  ◌≡◌, refl, sym, ap, ◌∙◌, String, false, some, is_empty, trim, trim_start_if, trim_end_if,
  is_whitespace, strip_text, strip_text-append,
}
use stelliberty_m.SystemProxy.Solid.{
  Solid, Full, Solid-Full, trim_end-behind, trim_end-Solid, trim_start-Solid, split_whitespace-two,
}
use stelliberty_m.SystemProxy.Linux.{
  kde_value, without_scheme, parts_or, kde_parts, kde_server, parsed_kde, parse_kde_proxy_server,
}

-- The value of a proxy of KDE, as the file keeps it.
abbrev pub kept : String → String → String
kept host port = kde_value "http" host port

trim_end-nil : trim_end_if is_whitespace "" ≡ ""
unfolding trim_end_if
trim_end-nil = refl

front : String → String
front host = String.◌++◌ "http" (String.◌++◌ "://" (String.◌++◌ host " "))

front-port : (host port : String) → kept host port ≡ String.◌++◌ (front host) port
unfolding front
front-port host port = simp append_assoc

pub trim-kept :
    (host port rest : String)
    → Solid port
    → trim_end_if is_whitespace rest ≡ ""
    → trim (String.◌++◌ (kept host port) rest) ≡ kept host port
unfolding trim
trim-kept host port rest solid e =
    let whole = String.◌++◌ "://" (String.◌++◌ host (String.◌++◌ " " port)) in
    let start : trim_start_if is_whitespace (String.◌++◌ (kept host port) rest)
        ≡ String.◌++◌ (kept host port) rest =
      rw (append_assoc "http" whole rest) (trim_start-Solid "http" (String.◌++◌ whole rest) refl) in
    ap (trim_end_if is_whitespace) (
      start
      ∙ ap (λ s. String.◌++◌ s rest) (front-port host port)
      ∙ append_assoc (front host) port rest)
    ∙ trim_end-behind is_whitespace (front host) (String.◌++◌ port rest) port
        (trim_end-Solid port rest solid e) (Solid-Full port solid)
    ∙ sym (front-port host port)

-- The part behind the scheme.
abbrev pub pair : String → String → String
pair host port = String.◌++◌ host (String.◌++◌ " " port)

trim_end-last : (s : String) → Solid s → trim_end_if is_whitespace s ≡ s
trim_end-last s h =
    ap (trim_end_if is_whitespace) (sym (append-nil s)) ∙ trim_end-Solid s "" h trim_end-nil

trim-pair : (host port : String) → Solid host → Solid port → trim (pair host port) ≡ pair host port
unfolding trim
trim-pair host port h k =
    ap (trim_end_if is_whitespace) (trim_start-Solid host (String.◌++◌ " " port) h)
    ∙ ap (trim_end_if is_whitespace) (sym (append_assoc host " " port))
    ∙ trim_end-behind is_whitespace (String.◌++◌ host " ") port port (trim_end-last port k)
        (Solid-Full port k)
    ∙ append_assoc host " " port

strip-kept : (host port : String) → strip_text "http://" (kept host port) ≡ some (pair host port)
strip-kept host port =
    ap (strip_text "http://") (sym (append_assoc "http" "://" (pair host port)))
    ∙ strip_text-append "http://" (pair host port)

is_empty-front : (a b : String) → Full a → is_empty (String.◌++◌ a b) ≡ false
is_empty-front String.[] b h = elim h [ ]
is_empty-front (String.◌∷◌ c a) b h = rw cons-append refl

parsed_kde-kept :
    (host port : String)
    → Solid host
    → Solid port
    → parsed_kde (kept host port) ≡ some (String.◌++◌ host (String.◌++◌ ":" port))
unfolding parsed_kde kde_server without_scheme kde_parts parts_or
parsed_kde-kept host port h k =
    let p = kept host port in
    let rest = String.◌++◌ "://" (pair host port) in
    rw (is_empty-front "http" rest tt) (
      ap
        (λ o. some (
          kde_parts
            (trim (without_scheme o (strip_text "https://" p) (strip_text "socks://" p) p))))
        (strip-kept host port)
      ∙ ap (λ s. some (kde_parts s)) (trim-pair host port h k)
      ∙ ap (λ l. some (parts_or l (pair host port))) (split_whitespace-two host port h k))

-- The value of a proxy, with the line feed that the reading command puts behind it, is read as what it was
-- written from.
pub parse-kept :
    (host port : String)
    → Solid host
    → Solid port
    → parse_kde_proxy_server (kept host port) ≡ some (String.◌++◌ host (String.◌++◌ ":" port))
unfolding parse_kde_proxy_server
parse-kept host port h k =
    ap parsed_kde
      (ap trim (sym (append-nil (kept host port))) ∙ trim-kept host port "" k trim_end-nil)
    ∙ parsed_kde-kept host port h k
