-- ===== src/Ingest/Authoring/FailureTaxonomy/Permanent.antt =====
-- Which failures are permanent (ingest/authoring/failure_taxonomy.py and the set of domain.py).
use uk_jamaat_directory.Prelude.{
  ◌≡◌, refl, Bool, true, false, not, ◌&&◌, ◌||◌, Option, none, some, List, [], ◌∷◌, contains, arith,
}
use uk_jamaat_directory.Domain.{
  AuthoringFailureCategory, AuthoringFailureCategory-discrete, authoring_failure_category_eq,
  permanent_failure_categories,
}
use uk_jamaat_directory.Schedules.Parse.{Text, Unicode, codes}
use uk_jamaat_directory.Ingest.Texts.{occurs, occurs_any}
use uk_jamaat_directory.Ingest.Authoring.FailureTaxonomy.{
  said, dead_site_patterns, is_transient, classify_preflight, classify_reason, classify_issues,
  classify_said, classify_failure,
}

abbrev pub is_permanent : AuthoringFailureCategory → Bool
is_permanent category = contains category permanent_failure_categories

module _ (u : Unicode) where
  -- A preflight error that no retry can mend.
  abbrev pub is_hopeless : Text → Bool
  is_hopeless lowered =
      occurs (codes "robots") lowered
      || (not (is_transient u lowered) && occurs_any dead_site_patterns lowered)

  -- A reason of the agent that no retry can mend.
  abbrev pub is_final : Text → Bool
  is_final lowered =
      occurs_any ("aggregator" ∷ "directory listing" ∷ []) lowered
      || occurs_any ("no jamaat" ∷ "no prayer timetable" ∷ []) lowered

  classify_preflight-permanent :
      (lowered : Text) → is_permanent (classify_preflight u lowered) ≡ is_hopeless lowered
  unfolding classify_preflight AuthoringFailureCategory-discrete
  classify_preflight-permanent lowered = ground arith

  classify_issues-permanent : (issues : List Text) → is_permanent (classify_issues u issues) ≡ false
  unfolding AuthoringFailureCategory-discrete
  classify_issues-permanent [] = refl
  classify_issues-permanent (issue ∷ issues) = refl

  classify_reason-permanent :
      (lowered : Text) (issues : List Text)
      → is_permanent (elim (classify_reason u lowered) [
        | none ↦ classify_issues u issues
        | some category ↦ category
      ])
        ≡ is_final lowered
  unfolding classify_reason AuthoringFailureCategory-discrete
  classify_reason-permanent lowered issues =
      let i = classify_issues-permanent issues in ground arith

  -- Whether a failure is final, by the texts that report it.
  abbrev pub is_lost : Option Text → Option Text → Bool
  is_lost none none = false
  is_lost none (some reason) = is_final (u.lower reason)
  is_lost (some error) reason = is_hopeless (u.lower error)

  said-permanent :
      (error reason : Option Text) (issues : List Text)
      → is_permanent (elim error [
        | some error ↦ classify_preflight u (u.lower error)
        | none ↦ classify_said u reason issues
      ])
        ≡ is_lost error reason
  unfolding classify_said
  said-permanent (some error) reason issues = classify_preflight-permanent (u.lower error)
  said-permanent none none issues = classify_issues-permanent issues
  said-permanent none (some reason) issues = classify_reason-permanent (u.lower reason) issues

  -- A failure is classified as permanent exactly if the agent did not run out of time and either
  -- there is a preflight error that speaks of robots, or of a dead site and of nothing transient;
  -- or there is no preflight error and the agent's reason speaks of an aggregator or of no jamaat
  -- times. Validation issues never make a failure permanent.
  pub classify_failure-permanent :
      (preflight_error agent_reason : Option Text) (issues : List Text) (timed_out : Bool)
      → is_permanent (classify_failure u preflight_error agent_reason issues timed_out)
        ≡ (not timed_out && is_lost (said preflight_error) (said agent_reason))
  unfolding classify_failure AuthoringFailureCategory-discrete
  classify_failure-permanent preflight_error agent_reason issues true = refl
  classify_failure-permanent preflight_error agent_reason issues false =
      said-permanent (said preflight_error) (said agent_reason) issues
