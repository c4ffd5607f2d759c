-- ===== src/Update/Check.antt =====
-- app_update.rs: `check_github_update` and the request's `handle`, as the message that it sends. What
-- the request to GitHub gave is an argument.
use Prim.Native.Nat.{Ordering}
use mathlib.Core.Path.{subst}
use stelliberty_m.Base.{
  ℕ, ◌≡◌, ◌↔◌, refl, ap, sym, ◌∙◌, String, Bool, true, false, List, Option, none, some, Result, ok,
  err, unwrap_or, eqb, trim_start_if,
}
use stelliberty_m.Update.Version.{parts, compare_versions}
use stelliberty_m.Update.Version.Written.{
  Written, IsVersion, values, version_text, tagged, parts-version_text, trim-tagged,
}
use stelliberty_m.Update.Version.Order.{IsOlder, compare_versions-lt_iff}
use stelliberty_m.Update.Asset.{GitHubAsset, find_matching_asset}

pub record CheckAppUpdateRequest : Type 0 where
  pub current_version : String
  pub github_repo : String
  pub is_portable : Bool

pub record AppUpdateResult : Type 0 where
  pub current_version : String
  pub latest_version : String
  pub has_update : Bool
  pub download_url : String
  pub release_notes : String
  pub html_url : String
  pub error_message : Option String

pub record GitHubRelease : Type 0 where
  pub tag_name : String
  pub html_url : String
  pub body : Option String
  pub assets : List GitHubAsset

pub record UpdateCheckResult : Type 0 where
  pub current_version : String
  pub latest_version : String
  pub has_update : Bool
  pub download_url : Option String
  pub release_notes : Option String
  pub html_url : Option String

-- The target: the platform and the processor by their normal names.
pub record Target : Type 0 where
  pub platform : String
  pub arch : String

is_less : Ordering → Bool
is_less Ordering.lt = true
is_less Ordering.eq = false
is_less Ordering.gt = false

unfoldable pub latest_of : GitHubRelease → String
unfolding trim_start_if
latest_of release = trim_start_if (λ c. eqb c b'v') release.tag_name

module _ (to_lowercase : String → String) (t : Target) where
  -- `fetched` is the release, or the error of the client, the request, the status or the JSON.
  unfoldable pub check_github_update :
      String → Bool → Result GitHubRelease → Result UpdateCheckResult
  unfolding is_less latest_of find_matching_asset
  check_github_update current_version is_portable (err e) = err e
  check_github_update current_version is_portable (ok release) = ok (record {
    current_version = current_version;
    latest_version = latest_of release;
    has_update = is_less (compare_versions current_version (latest_of release));
    download_url = find_matching_asset to_lowercase release.assets t.platform t.arch is_portable;
    release_notes = release.body;
    html_url = some release.html_url;
  })

  answer : String → Result UpdateCheckResult → AppUpdateResult
  answer current_version (ok r) = record {
    current_version = r.current_version;
    latest_version = r.latest_version;
    has_update = r.has_update;
    download_url = unwrap_or r.download_url "";
    release_notes = unwrap_or r.release_notes "";
    html_url = unwrap_or r.html_url "";
    error_message = none;
  }
  answer current_version (err e) = record {
    current_version = current_version;
    latest_version = "";
    has_update = false;
    download_url = "";
    release_notes = "";
    html_url = "";
    error_message = some e;
  }

  unfoldable pub handle : CheckAppUpdateRequest → Result GitHubRelease → AppUpdateResult
  unfolding answer check_github_update
  handle request fetched =
      answer request.current_version
        (check_github_update request.current_version request.is_portable fetched)

  is_less_iff : (o : Ordering) → (is_less o ≡ true) ↔ (o ≡ Ordering.lt)
  unfolding is_less
  is_less_iff Ordering.lt = (λ h. refl, λ h. refl)
  is_less_iff Ordering.eq = (λ h. cc, λ h. cc)
  is_less_iff Ordering.gt = (λ h. cc, λ h. cc)

  -- An update is announced exactly where a release was fetched whose version, without the "v" in front,
  -- is newer than the current one.
  pub handle-has_update_iff :
      (request : CheckAppUpdateRequest) (fetched : Result GitHubRelease)
      → ((handle request fetched).has_update ≡ true) ↔ (
          (release : GitHubRelease) × (fetched ≡ ok release)
          × IsOlder (parts request.current_version) (parts (latest_of release)))
  unfolding handle answer check_github_update
  handle-has_update_iff request (err e) = (λ h. cc, λ (release, h, older). cc)
  handle-has_update_iff request (ok release) =
      let less = is_less_iff (compare_versions request.current_version (latest_of release)) in
      let order = compare_versions-lt_iff request.current_version (latest_of release) in
      (
        (λ h. (release, refl, order.0 (less.0 h))),
        (λ (r, h, older). let same : release ≡ r = cc in less.1 (order.1 (rw (← same) at older))),
      )

  -- Where the current version, and the tag behind any number of "v", are written as decimal numbers that a
  -- `u32` holds, with points between them: the answer to a fetched release names the version without the
  -- "v", and announces an update exactly where the first segment that differs is smaller in the current
  -- version, a segment that is not there being 0. Where nothing was fetched no update is announced, and the
  -- error is told.
  pub handle_written :
      (request : CheckAppUpdateRequest) (release : GitHubRelease) (current latest : Written) (n : ℕ)
      (e : String)
      → IsVersion current
      → IsVersion latest
      → request.current_version ≡ version_text current
      → release.tag_name ≡ tagged n (version_text latest)
      → ((handle request (ok release)).latest_version ≡ version_text latest)
        × (((handle request (ok release)).has_update ≡ true)
            ↔ IsOlder (values current) (values latest))
        × ((handle request (err e)).has_update ≡ false)
        × ((handle request (err e)).error_message ≡ some e)
  unfolding handle answer check_github_update latest_of
  handle_written request release current latest n e v w now tag =
      let version : latest_of release ≡ version_text latest =
        ap (λ t. trim_start_if (λ c. eqb c b'v') t) tag ∙ trim-tagged n latest in
      let p : parts request.current_version ≡ values current =
        ap parts now ∙ parts-version_text current v in
      let q : parts (latest_of release) ≡ values latest =
        ap parts version ∙ parts-version_text latest w in
      let less = is_less_iff (compare_versions request.current_version (latest_of release)) in
      let order = compare_versions-lt_iff request.current_version (latest_of release) in
      (
        version,
        (
          λ h.
              subst (λ a. IsOlder a (values latest)) p
                (subst (λ b. IsOlder (parts request.current_version) b) q (order.0 (less.0 h))),
          λ older. less.1 (
              order.1 (
                subst (λ a. IsOlder a (parts (latest_of release))) (sym p)
                  (subst (λ b. IsOlder (values current) b) (sym q) older))),
        ),
        refl,
        refl,
      )
