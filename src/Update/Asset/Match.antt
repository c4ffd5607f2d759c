-- ===== src/Update/Asset/Match.antt =====
-- app_update.rs: what the choice of a file finds.
use Prim.Native.Char.{Char, code}
use stelliberty_m.Base.{
  ◌≡◌, refl, ap, String, Bool, true, false, List, [], ◌∷◌, ◌++◌, Option, none, some, contains,
  starts_with, strip_text, ends_with, eqb, All, Bool-cases, inl, inr, arith,
}
use stelliberty_m.Update.Asset.{
  GitHubAsset, PlatformMatchRules, get_platform_match_rules, is_match, find_match,
  find_matching_asset, with_rules,
}

module _ (to_lowercase : String → String) (rules : PlatformMatchRules) where
  -- The asset is the first one that fits.
  pub record First (assets : List GitHubAsset) (url : String) : Type 0 where
    pub before : List GitHubAsset
    pub asset : GitHubAsset
    pub behind : List GitHubAsset
    pub splits : assets ≡ before ++ asset ∷ behind
    pub earlier : All (λ a. is_match rules (to_lowercase a.name) ≡ false) before
    pub fits : is_match rules (to_lowercase asset.name) ≡ true
    pub url_is : url ≡ asset.browser_download_url

  find_match-First :
      (assets : List GitHubAsset) (url : String)
      → find_match to_lowercase rules assets ≡ some url
      → First assets url
  unfolding find_match
  find_match-First [] url h = cc
  find_match-First (a ∷ assets) url h = elim (Bool-cases (is_match rules (to_lowercase a.name))) [
    | inl e ↦
        let g = rw e at h in
        record {
          before = [];
          asset = a;
          behind = assets;
          splits = refl;
          earlier = tt;
          fits = e;
          url_is = cc;
        }
    | inr e ↦
        let f = find_match-First assets url (rw e at h) in
        record {
          before = a ∷ f.before;
          asset = f.asset;
          behind = f.behind;
          splits = ap (λ l. a ∷ l) f.splits;
          earlier = (e, f.earlier);
          fits = f.fits;
          url_is = f.url_is;
        }
  ]

-- The URL that is found is that of the first asset that fits the rules of the platform.
pub find_matching_asset-First :
    (to_lowercase : String → String) (assets : List GitHubAsset) (platform arch : String)
    (portable : Bool) (url : String)
    → find_matching_asset to_lowercase assets platform arch portable ≡ some url
    → (rules : PlatformMatchRules) × (get_platform_match_rules platform arch portable ≡ some rules)
      × First to_lowercase rules assets url
unfolding find_matching_asset
find_matching_asset-First to_lowercase assets platform arch portable url h =
    by_rules (get_platform_match_rules platform arch portable) refl h
  where
    by_rules :
        (o : Option PlatformMatchRules)
        → get_platform_match_rules platform arch portable ≡ o
        → with_rules to_lowercase assets o ≡ some url
        → (rules : PlatformMatchRules) × (get_platform_match_rules platform arch portable
            ≡ some rules)
          × First to_lowercase rules assets url
    by_rules none e g = cc
    by_rules (some rules) e g = (rules, e, find_match-First to_lowercase rules assets url g)

contains-starts : (s p : String) → starts_with s p ≡ true → contains s p ≡ true
unfolding contains
contains-starts String.[] p h = h
contains-starts (String.◌∷◌ c s) p h = rw h

contains-tail : (c : Char) (s p : String) → contains s p ≡ true → contains (String.◌∷◌ c s) p ≡ true
unfolding contains
contains-tail c s p h = ground (arith, h)

-- What follows the first character begins with what follows the first one of the prefix.
contains_of_tail :
    (c : Char) (p q s : String)
    → ((t : String) → starts_with t p ≡ true → contains t q ≡ true)
    → starts_with s (String.◌∷◌ c p) ≡ true
    → contains s q ≡ true
unfolding starts_with strip_text
contains_of_tail c p q String.[] f h = cc
contains_of_tail c p q (String.◌∷◌ d s) f h = elim (Bool-cases (eqb (code c) (code d))) [
  | inl e ↦ contains-tail d s q (f s (rw e at h))
  | inr e ↦ let g = rw e at h in cc
]

starts-darwin : (s : String) → starts_with s "darwin" ≡ true → contains s "win" ≡ true
starts-darwin s h =
    contains_of_tail "d" "arwin" "win" s
      (λ t.
        contains_of_tail "a" "rwin" "win" t
          (λ u. contains_of_tail "r" "win" "win" u (λ v. contains-starts v "win")))
      h

contains-darwin : (s : String) → contains s "darwin" ≡ true → contains s "win" ≡ true
unfolding contains
contains-darwin String.[] h = starts-darwin "" h
contains-darwin (String.◌∷◌ c s) h = elim (Bool-cases (starts_with (String.◌∷◌ c s) "darwin")) [
  | inl e ↦ starts-darwin (String.◌∷◌ c s) e
  | inr e ↦ contains-tail c s "win" (contains-darwin s (rw e at h))
]

-- The rules of the portable Windows build fit the archive of a macOS build: a name that ends in
-- ".zip", has "darwin" and "x64" in it, and not "debug".
pub darwin_fits_windows :
    (name : String)
    → ends_with name ".zip" ≡ true
    → contains name "darwin" ≡ true
    → contains name "x64" ≡ true
    → contains name "debug" ≡ false
    → (rules : PlatformMatchRules) × (get_platform_match_rules "windows" "x64" true ≡ some rules)
      × (is_match rules name ≡ true)
unfolding get_platform_match_rules is_match
darwin_fits_windows name zip darwin x64 debug =
    (_, refl, rw (zip, contains-darwin name darwin, x64, debug))
