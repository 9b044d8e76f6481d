-- ===== src/Ingest/Authoring/Process/Repairs.antt =====
-- The loop of repairs ends, and what it lets through has passed its checks
-- (ingest/authoring/orchestrator.py).
use uk_jamaat_directory.Prelude.{◌≡◌, true, false, Option, some}
use uk_jamaat_directory.Domain.{AuthoringTaskStatus, authoring_task_status_eq}
use uk_jamaat_directory.Schedules.Parse.{Text}
use uk_jamaat_directory.Ingest.DomainPolicy.{is_aggregator_domain, is_umbrella_domain}
use uk_jamaat_directory.Ingest.Authoring.Process.{
  Attempt, Workshop, PreFlightResult, ProcessEnd, process_returns, process_raises,
}
use uk_jamaat_directory.Ingest.Authoring.Process.Turns.{Raises, IsSound}

module _ (w : Workshop) where
  abbrev IsSoundEnd : ProcessEnd → Type 0
  IsSoundEnd (process_returns r) = IsSound w r
  IsSoundEnd process_raises = Raises w

  -- An end is reached, and it is sound.
  abbrev Ends : Option ProcessEnd → Type 0
  Ends o = (e : ProcessEnd) × (o ≡ some e) × IsSoundEnd e

  -- A source that the domain policy lets pass, that the preflight reached, and that has an agent.
  pub record IsFree : Type 0 where
    pub domain : Option Text
    pub has_domain : w.domain ≡ Attempt.returned domain
    pub no_aggregator : is_aggregator_domain w.unicode w.domain_settings domain ≡ false
    pub no_umbrella : is_umbrella_domain w.unicode w.domain_settings domain ≡ false
    pub preflight : PreFlightResult
    pub has_preflight : w.preflight ≡ Attempt.returned preflight
    pub reachable : preflight.reachable ≡ true
    pub available : w.is_available ≡ Attempt.returned true

  -- A script for review comes from a free source; an exception comes from outside.
  abbrev pub IsOutcome : ProcessEnd → Type 0
  IsOutcome (process_returns r) =
      IsSound w r × (r.status ≡ AuthoringTaskStatus.awaiting_review → IsFree)
  IsOutcome process_raises = Raises w

  abbrev Reaches : Option ProcessEnd → Type 0
  Reaches o = (e : ProcessEnd) × (o ≡ some e) × IsOutcome e
