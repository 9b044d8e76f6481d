-- ===== src/Schedules/Batch.antt =====
-- `validate_candidates` of schedules/publication.py: every pending or approved candidate that the
-- filters select is checked again, and its issues and status are stored.
pub mod Effect
pub mod Counts
use uk_jamaat_directory.Prelude.{
  ◌==◌, nat_eq, ◌+◌, Bool, true, false, not, ◌&&◌, Option, none, some, List, [], ◌∷◌, select,
  contains, if◌then◌else◌,
}
use uk_jamaat_directory.Prelude.Dict.{lookup}
use uk_jamaat_directory.Domain.{CandidateStatus, candidate_status_eq}
use uk_jamaat_directory.Models.Calendar.{World}
use uk_jamaat_directory.Models.Rows.{Uuid, MosqueSource, ScheduleCandidate}
use uk_jamaat_directory.Models.Session.{Db}
use uk_jamaat_directory.Schedules.Types.{Settings, ValidateBatchResult}
use uk_jamaat_directory.Schedules.Queries.{Filters, candidate_filters}
use uk_jamaat_directory.Schedules.Prefetch.{
  ValidationBatchContext, build_validation_batch_context, is_active,
}
use uk_jamaat_directory.Schedules.Evaluation.{
  EvaluationMode, CandidateEvaluation, evaluate_candidate_in_context, apply_validation_result,
}
use uk_jamaat_directory.Schedules.Approval.{save_candidate}

-- `if source_ids: ... in_(source_ids)`: no set and an empty set select everything.
abbrev in_source_ids : List Uuid → ScheduleCandidate → Bool
in_source_ids [] c = true
in_source_ids (id ∷ ids) c = contains c.source_id (id ∷ ids)

unfoldable pub is_selected : Filters → List Uuid → ScheduleCandidate → Bool
unfolding candidate_filters
is_selected f source_ids c = is_active c && (in_source_ids source_ids c && candidate_filters f c)

abbrev pub no_candidates : ValidateBatchResult
no_candidates = record { examined = 0; approved = 0; rejected = 0; pending = 0; skipped = 0 }

unfoldable pub tally : CandidateStatus → ValidateBatchResult → ValidateBatchResult
tally status r =
    if status == CandidateStatus.approved
    then record r { approved = r.approved + 1 }
    else if status == CandidateStatus.rejected
    then record r { rejected = r.rejected + 1 }
    else record r { pending = r.pending + 1 }

-- The candidate with its stored issues, and with its new status where statuses are updated.
abbrev pub validated : Bool → CandidateEvaluation → ScheduleCandidate → ScheduleCandidate
validated update_status evaluation c =
    let c' = apply_validation_result evaluation update_status c in
    if not update_status then c' else record c' { status = evaluation.status }

abbrev pub count_status : Bool → CandidateStatus → ValidateBatchResult → ValidateBatchResult
count_status update_status status r = if not update_status then r else tally status r

module _ (cfg : Settings) (w : World) (update_status : Bool)
    (context : ValidationBatchContext) where
  -- One round of the loop, by the candidate's source; without a source it is skipped.
  unfoldable pub validate_found :
      Option MosqueSource → ScheduleCandidate → ValidateBatchResult × Db → ValidateBatchResult × Db
  validate_found none c (r, db) =
      (record r { examined = r.examined + 1; skipped = r.skipped + 1 }, db)
  validate_found (some source) c (r, db) =
      let evaluation = evaluate_candidate_in_context cfg w EvaluationMode.validate c context in
      (
        count_status update_status evaluation.status (record r { examined = r.examined + 1 }),
        save_candidate (validated update_status evaluation c) db,
      )

  unfoldable pub validate_one :
      ScheduleCandidate → ValidateBatchResult × Db → ValidateBatchResult × Db
  validate_one c s = validate_found (lookup c.source_id context.sources) c s

  unfoldable pub validate_loop :
      List ScheduleCandidate → ValidateBatchResult × Db → ValidateBatchResult × Db
  validate_loop [] s = s
  validate_loop (c ∷ cs) s = validate_loop cs (validate_one c s)

unfoldable pub validate_candidates :
    Settings → World → Filters → List Uuid → Bool → Db → ValidateBatchResult × Db
validate_candidates cfg w f source_ids update_status db =
    let candidates = select (is_selected f source_ids) db.candidates in
    let context = build_validation_batch_context candidates db in
    validate_loop cfg w update_status context candidates (no_candidates, db)
