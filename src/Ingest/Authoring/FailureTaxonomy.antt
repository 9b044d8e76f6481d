-- ===== src/Ingest/Authoring/FailureTaxonomy.antt =====
-- ingest/authoring/failure_taxonomy.py: the category of a failure, from the texts that report it.
pub mod Permanent
use uk_jamaat_directory.Prelude.{
  ℕ, ◌==◌, nat_eq, String, Bool, true, false, not, ◌&&◌, ◌||◌, Option, none, some, List, [], ◌∷◌,
  if◌then◌else◌,
}
use uk_jamaat_directory.Domain.{AuthoringFailureCategory}
use uk_jamaat_directory.Schedules.Parse.{Text, Unicode, codes}
use uk_jamaat_directory.Ingest.Texts.{starts_with, occurs, occurs_any}

abbrev pub dead_site_patterns : List String
dead_site_patterns =
    "cannot resolve host" ∷ "name or service not known" ∷ "getaddrinfo" ∷ "http 404" ∷ "http 410"
    ∷ "http 401" ∷ "http 403" ∷ "certificate_verify_failed" ∷ "ssl" ∷ "blocked host address"
    ∷ "source url has no scheme or host" ∷ []

abbrev pub transient_patterns : List String
transient_patterns =
    "http 500" ∷ "http 502" ∷ "http 503" ∷ "http 504" ∷ "timed out" ∷ "timeout" ∷ "connection reset"
    ∷ "connection refused" ∷ "temporarily" ∷ []

-- `if text:`, of a text or None.
abbrev pub said : Option Text → Option Text
said none = none
said (some []) = none
said (some (c ∷ cs)) = some (c ∷ cs)

module _ (u : Unicode) where
  abbrev is_digit : ℕ → Bool
  is_digit c = elim (u.digit c) [ none ↦ false | some d ↦ true ]

  -- `http 5\d\d` at the start of a text.
  abbrev five_hundred : Text → Bool
  five_hundred (h ∷ t ∷ t' ∷ p ∷ s ∷ f ∷ d ∷ e ∷ rest) =
      starts_with (codes "http 5") (h ∷ t ∷ t' ∷ p ∷ s ∷ f ∷ []) && (is_digit d && is_digit e)
  five_hundred _ = false

  -- `_HTTP_5XX.search(text)`
  unfoldable pub http_5xx : Text → Bool
  http_5xx [] = false
  http_5xx (c ∷ text) = five_hundred (c ∷ text) || http_5xx text

  -- The lowered text of a preflight error.
  unfoldable pub is_transient : Text → Bool
  is_transient lowered = http_5xx lowered || occurs_any transient_patterns lowered

  unfoldable pub classify_preflight : Text → AuthoringFailureCategory
  classify_preflight lowered =
      if occurs (codes "robots") lowered
      then AuthoringFailureCategory.blocked_robots
      else if is_transient lowered
      then AuthoringFailureCategory.transient_network
      else if occurs_any dead_site_patterns lowered
      then AuthoringFailureCategory.dead_site
      else AuthoringFailureCategory.transient_network

  unfoldable pub classify_reason : Text → Option AuthoringFailureCategory
  classify_reason lowered =
      if occurs_any ("aggregator" ∷ "directory listing" ∷ []) lowered
      then some AuthoringFailureCategory.aggregator
      else if occurs_any ("no jamaat" ∷ "no prayer timetable" ∷ []) lowered
      then some AuthoringFailureCategory.permanent_no_jamaat
      else if occurs_any ("did not write the json result" ∷ "agent" ∷ []) lowered
      then some AuthoringFailureCategory.agent_error
      else none

  abbrev pub classify_issues : List Text → AuthoringFailureCategory
  classify_issues [] = AuthoringFailureCategory.agent_error
  classify_issues (issue ∷ issues) = AuthoringFailureCategory.validation_failed

  -- What the reason settles, else what the issues do.
  unfoldable pub classify_said : Option Text → List Text → AuthoringFailureCategory
  classify_said none issues = classify_issues issues
  classify_said (some reason) issues = elim (classify_reason (u.lower reason)) [
    | none ↦ classify_issues issues
    | some category ↦ category
  ]

  unfoldable pub classify_failure :
      Option Text → Option Text → List Text → Bool → AuthoringFailureCategory
  classify_failure preflight_error agent_reason validation_issues agent_timed_out =
      if agent_timed_out then AuthoringFailureCategory.timeout else elim (said preflight_error) [
        | some error ↦ classify_preflight (u.lower error)
        | none ↦ classify_said (said agent_reason) validation_issues
      ]
