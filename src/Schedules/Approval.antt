-- ===== src/Schedules/Approval.antt =====
-- schedules/approval.py: the approval of one candidate by a moderator.
pub mod Outcome
use uk_jamaat_directory.Prelude.{
  ◌==◌, nat_eq, not, Option, none, some, String, [], ◌∷◌, update_where, true,
}
use uk_jamaat_directory.Domain.{CandidateStatus, candidate_status_eq}
use uk_jamaat_directory.Models.Calendar.{World}
use uk_jamaat_directory.Models.Rows.{ScheduleCandidate}
use uk_jamaat_directory.Models.Session.{
  Db, Session, value_error, ◌>>=◌, ◌>>◌, pure, gets, modify, raise_if,
}
use uk_jamaat_directory.Schedules.Types.{Settings, is_valid}
use uk_jamaat_directory.Schedules.Prefetch.{build_validation_batch_context}
use uk_jamaat_directory.Schedules.Evaluation.{
  EvaluationMode, CandidateEvaluation, policy_allowed, evaluate_candidate_in_context,
  apply_validation_result,
}

-- Assignments to the attributes of a loaded candidate reach its row.
abbrev pub save_candidate : ScheduleCandidate → Db → Db
save_candidate c db = record db {
  candidates = update_where (λ r. r.id == c.id) (λ _. c) db.candidates;
}

abbrev reason_text : Option String → String
reason_text none = "candidate cannot be published under source policy"
reason_text (some reason) = reason

-- The three refusals, and the write.
unfoldable pub apply_approval : ScheduleCandidate → CandidateEvaluation → Session ScheduleCandidate
apply_approval c evaluation = do
  raise_if (not (policy_allowed evaluation)) (value_error (reason_text evaluation.policy_reason))
  raise_if (not (is_valid evaluation.validation))
      (value_error "candidate has validation errors and cannot be approved")
  raise_if (not (evaluation.status == CandidateStatus.approved))
      (value_error "candidate requires manual review before approval")
  let approved = apply_validation_result evaluation true c
  modify (save_candidate approved)
  pure approved

unfoldable pub approve_candidate_status :
    Settings → World → ScheduleCandidate → Session ScheduleCandidate
approve_candidate_status cfg w c = do
  context ← gets (build_validation_batch_context (c ∷ []))
  apply_approval c (evaluate_candidate_in_context cfg w EvaluationMode.approve c context)
