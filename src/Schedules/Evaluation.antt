-- ===== src/Schedules/Evaluation.antt =====
-- schedules/evaluation.py: the checks, the policy gate and the resulting status of one candidate,
-- looked up in the context of a batch.
pub mod Direct
use uk_jamaat_directory.Prelude.{
  ◌==◌, Bool, true, false, Option, none, some, List, String, if◌then◌else◌, nat_eq, [],
}
use uk_jamaat_directory.Prelude.Dict.{lookup}
use uk_jamaat_directory.Domain.{ExtractionKind, CandidateStatus}
use uk_jamaat_directory.Models.Calendar.{World}
use uk_jamaat_directory.Models.Rows.{Uuid, MosqueSource, ScheduleCandidate}
use uk_jamaat_directory.Schedules.Types.{Settings, ValidationResult}
use uk_jamaat_directory.Schedules.Validation.{validate_candidate, status_after_validation}
use uk_jamaat_directory.Schedules.Gates.{can_publish_candidate}
use uk_jamaat_directory.Schedules.Prefetch.{ValidationBatchContext}

pub data EvaluationMode : Type 0 where
  validate approve publish : EvaluationMode

-- `policy_allowed` is false exactly where there is a reason.
pub record CandidateEvaluation : Type 0 where
  pub validation : ValidationResult
  pub policy_reason : Option String
  pub status : CandidateStatus

abbrev pub policy_allowed : CandidateEvaluation → Bool
policy_allowed e = elim e.policy_reason [ none ↦ true | some reason ↦ false ]

-- The gate of a mode: validation alone asks for no permission to publish.
abbrev pub policy_gate :
    EvaluationMode → Settings → MosqueSource → Option ExtractionKind → Option String
policy_gate EvaluationMode.validate cfg source kind = none
policy_gate EvaluationMode.approve cfg source kind = can_publish_candidate cfg source kind
policy_gate EvaluationMode.publish cfg source kind = can_publish_candidate cfg source kind

-- `dict.get` where a missing key and a stored None read alike.
abbrev join : Option (Option ExtractionKind) → Option ExtractionKind
join none = none
join (some kind) = kind

abbrev or_none : Option (List Uuid) → List Uuid
or_none none = []
or_none (some ids) = ids

-- The evaluation of a candidate whose source, run kind and duplicates are known.
unfoldable pub evaluate_with :
    Settings
    → World
    → EvaluationMode
    → ScheduleCandidate
    → Option MosqueSource
    → Option ExtractionKind
    → List Uuid
    → CandidateEvaluation
evaluate_with cfg w mode c none kind duplicate_ids = record {
  validation = [];
  policy_reason = some "candidate source not found";
  status = CandidateStatus.rejected;
}
evaluate_with cfg w mode c (some source) kind duplicate_ids =
    let validation = validate_candidate cfg w c duplicate_ids kind in
    record {
      validation = validation;
      policy_reason = policy_gate mode cfg source kind;
      status = status_after_validation cfg validation kind source c;
    }

unfoldable pub evaluate_candidate_in_context :
    Settings
    → World
    → EvaluationMode
    → ScheduleCandidate
    → ValidationBatchContext
    → CandidateEvaluation
evaluate_candidate_in_context cfg w mode c context =
    evaluate_with cfg w mode c (lookup c.source_id context.sources)
      (join (lookup c.id context.extraction_kinds)) (or_none (lookup c.id context.duplicate_ids))

unfoldable pub apply_validation_result :
    CandidateEvaluation → Bool → ScheduleCandidate → ScheduleCandidate
apply_validation_result evaluation update_status c =
    if update_status
    then record c { validation_errors = evaluation.validation; status = evaluation.status }
    else record c { validation_errors = evaluation.validation }
