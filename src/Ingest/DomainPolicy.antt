-- ===== src/Ingest/DomainPolicy.antt =====
-- ingest/domain_policy.py: which domains no extractor may be written for, and which need a review.
pub mod Subdomains
use uk_jamaat_directory.Prelude.{
  String, Bool, true, false, ◌||◌, Option, none, some, List, [], ◌∷◌, ◌++◌, map, any,
}
use uk_jamaat_directory.Schedules.Parse.{Text, Unicode, codes, same_text}
use uk_jamaat_directory.Ingest.Texts.{ends_with, dot, strip_dots, ParseResult, Web, or_empty}

-- The settings that add domains.
pub record DomainSettings : Type 0 where
  pub extra_aggregator_domains : List Text
  pub extra_umbrella_domains : List Text
  pub extra_trusted_widget_hosts : List Text

abbrev pub aggregator_domains : List String
aggregator_domains =
    "praysalat.com" ∷ "nearestmosque.com" ∷ "mosquedirectory.co.uk" ∷ "islamicfinder.org"
    ∷ "islamicfinder.com" ∷ "masjidway.com" ∷ "masjidway.org" ∷ "mosquepay.com" ∷ "alfafaa.com"
    ∷ "mosquefinder.com" ∷ "mosquefinder.co.uk" ∷ "salah.com" ∷ "muslimsinbritain.org" ∷ "mosque.uk"
    ∷ "getprayer.com" ∷ "mosques.org.uk" ∷ "mosqueradar.com" ∷ "salahtimes.com"
    ∷ "londonprayertimes.com" ∷ []

abbrev pub umbrella_review_domains : List String
umbrella_review_domains = "towerhamletsmosques.co.uk" ∷ "ismaili.net" ∷ []

abbrev pub trusted_widget_hosts : List String
trusted_widget_hosts = "mawaqit.net" ∷ "masjidbox.com" ∷ "masjidal.com" ∷ "athanplus.com" ∷ []

-- `candidate == domain or candidate.endswith(f".{domain}")`
abbrev pub is_within : Text → Text → Bool
is_within host domain = same_text host domain || ends_with (dot ∷ domain) host

abbrev pub is_within_any : List Text → Text → Bool
is_within_any domains [] = false
is_within_any domains (c ∷ candidate) = any (is_within (c ∷ candidate)) domains

-- `_matches`, with the extra domains as the caller has them.
unfoldable pub matches_domains : Unicode → Text → List String → List Text → Bool
matches_domains u host domains extra =
    is_within_any (map codes domains ++ map u.lower extra) (strip_dots (u.lower host))

-- The extra domains of settings that may be missing.
abbrev pub extra_of : (DomainSettings → List Text) → Option DomainSettings → List Text
extra_of field none = []
extra_of field (some settings) = field settings

unfoldable pub is_aggregator_domain : Unicode → Option DomainSettings → Option Text → Bool
is_aggregator_domain u settings none = false
is_aggregator_domain u settings (some []) = false
is_aggregator_domain u settings (some (c ∷ domain)) =
    matches_domains u (c ∷ domain) aggregator_domains
      (extra_of (λ (s : DomainSettings). s.extra_aggregator_domains) settings)

unfoldable pub is_umbrella_domain : Unicode → Option DomainSettings → Option Text → Bool
is_umbrella_domain u settings none = false
is_umbrella_domain u settings (some []) = false
is_umbrella_domain u settings (some (c ∷ domain)) =
    matches_domains u (c ∷ domain) umbrella_review_domains
      (extra_of (λ (s : DomainSettings). s.extra_umbrella_domains) settings)

module _ (web : Web) (settings : Option DomainSettings) where
  unfoldable pub host_of : Text → Text
  host_of url = web.unicode.lower (or_empty (web.urlparse url).hostname)

  unfoldable pub is_aggregator_url : Text → Bool
  is_aggregator_url url = is_aggregator_domain web.unicode settings (some (host_of url))

  unfoldable pub is_umbrella_url : Text → Bool
  is_umbrella_url url = is_umbrella_domain web.unicode settings (some (host_of url))

  unfoldable pub is_trusted_widget_url : Text → Bool
  is_trusted_widget_url url =
      matches_domains web.unicode (host_of url) trusted_widget_hosts
        (extra_of (λ (s : DomainSettings). s.extra_trusted_widget_hosts) settings)
