-- ===== src/Tests/Validation.antt =====
-- The theorems about checks, approvals and batches, on the sample tables.
use uk_jamaat_directory.Prelude.{
  ◌≡◌, ◌↔◌, ◌+◌, refl, true, false, none, some, [], ◌∷◌, map, select, length, here, nat_eq,
  option_eq,
}
use uk_jamaat_directory.Domain.{
  ExtractionKind, CandidateStatus, CandidateStatus-discrete, ExtractionKind-discrete,
  SourceType-discrete, Prayer-discrete,
}
use uk_jamaat_directory.Models.Json.{truthy, get}
use uk_jamaat_directory.Models.Session.{Error, ok, err}
use uk_jamaat_directory.Schedules.Types.{is_valid}
use uk_jamaat_directory.Schedules.Validation.{
  checks, order_issues, dst_warnings, duplicate_issues, evidence_warnings, identity_issues,
  zone_issues, date_issues, validate_candidate, status_after_validation, requires_manual_approval,
}
use uk_jamaat_directory.Schedules.Validation.Acceptable.{
  IsAcceptable, validate_candidate-IsAcceptable,
}
use uk_jamaat_directory.Schedules.Validation.Status.{IsAutomatic, status_after_validation_iff}
use uk_jamaat_directory.Schedules.Prefetch.{NaturalKey-discrete, build_validation_batch_context}
use uk_jamaat_directory.Schedules.Prefetch.Lookup.{IsKeyed}
use uk_jamaat_directory.Schedules.Evaluation.{
  EvaluationMode, evaluate_candidate_in_context, evaluate_with,
}
use uk_jamaat_directory.Schedules.Evaluation.Direct.{evaluate, evaluate_candidate_in_context-build}
use uk_jamaat_directory.Schedules.Approval.{save_candidate, approve_candidate_status}
use uk_jamaat_directory.Schedules.Approval.Outcome.{
  IsApprovable, approved_as, approve_candidate_status_outcome, approve_candidate_status-pending,
}
use uk_jamaat_directory.Schedules.Batch.{is_selected, validate_candidates}
use uk_jamaat_directory.Schedules.Batch.Effect.{revalidated, validate_candidates-map}
use uk_jamaat_directory.Schedules.Batch.Counts.{validate_candidates_counts}
use uk_jamaat_directory.Tests.Samples.{
  settings, world, public_source, pending_fajr, community_asr, tables, no_filters,
}

pub tables-IsKeyed : IsKeyed tables
tables-IsKeyed = record {
  sources = (refl, (refl, (refl, tt)));
  mosques = (refl, tt);
  runs = (refl, tt);
}

validate_candidate-IsAcceptable_example :
    (is_valid
        (validate_candidate settings world pending_fajr [] (some ExtractionKind.deterministic))
      ≡ true)
    ↔ IsAcceptable settings world pending_fajr []
validate_candidate-IsAcceptable_example =
    validate_candidate-IsAcceptable settings world pending_fajr []
      (some ExtractionKind.deterministic)

status_after_validation_iff_example :
    let status = status_after_validation settings [] none public_source pending_fajr in
    ((status ≡ CandidateStatus.rejected) ↔ (is_valid [] ≡ false))
    × ((status ≡ CandidateStatus.approved)
        ↔ ((is_valid [] ≡ true) × IsAutomatic settings public_source none pending_fajr))
    × ((status ≡ CandidateStatus.pending)
        ↔ ((is_valid [] ≡ true) × ¬ IsAutomatic settings public_source none pending_fajr))
status_after_validation_iff_example =
    status_after_validation_iff settings public_source none pending_fajr []

evaluate_candidate_in_context-build_example :
    evaluate_candidate_in_context settings world EvaluationMode.approve pending_fajr
      (build_validation_batch_context (pending_fajr ∷ community_asr ∷ []) tables)
    ≡ evaluate settings world EvaluationMode.approve pending_fajr tables
evaluate_candidate_in_context-build_example =
    evaluate_candidate_in_context-build settings world EvaluationMode.approve tables pending_fajr
      (pending_fajr ∷ community_asr ∷ []) tables-IsKeyed (refl, (refl, tt)) (here refl)

approve_candidate_status_outcome_example :
    (IsApprovable settings world pending_fajr tables
      → let c' =
          approved_as
            (evaluate settings world EvaluationMode.approve pending_fajr tables)
            pending_fajr in
        approve_candidate_status settings world pending_fajr tables
        ≡ ok (c', save_candidate c' tables))
    × (¬ IsApprovable settings world pending_fajr tables
        → (error : Error) × (approve_candidate_status settings world pending_fajr tables
            ≡ err error))
approve_candidate_status_outcome_example =
    approve_candidate_status_outcome settings world pending_fajr tables tables-IsKeyed

approve_candidate_status-pending_example :
    (error : Error) × (approve_candidate_status settings world community_asr tables ≡ err error)
unfolding evaluate evaluate_with status_after_validation requires_manual_approval validate_candidate
    SourceType-discrete ExtractionKind-discrete checks identity_issues zone_issues date_issues
    Prayer-discrete order_issues dst_warnings duplicate_issues evidence_warnings truthy get
    CandidateStatus-discrete NaturalKey-discrete
approve_candidate_status-pending_example =
    approve_candidate_status-pending settings world community_asr tables tables-IsKeyed refl

validate_candidates-map_example :
    (validate_candidates settings world no_filters [] true tables).1 ≡ record tables {
      candidates = map (revalidated settings world true no_filters [] tables) tables.candidates;
    }
validate_candidates-map_example =
    validate_candidates-map settings world true no_filters [] tables tables-IsKeyed
      (refl, (refl, (refl, (refl, tt))))

validate_candidates_counts_example :
    let r = (validate_candidates settings world no_filters [] true tables).0 in
    (r.examined ≡ length (select (is_selected no_filters []) tables.candidates))
    × (r.examined ≡ r.approved + r.rejected + r.pending + r.skipped)
validate_candidates_counts_example = validate_candidates_counts settings world no_filters [] tables
