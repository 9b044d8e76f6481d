-- ===== src/Services/Moderation/Decision.antt =====
-- `approve_candidate` of services/schedule_moderation.py: the approval of schedules/approval.py with
-- its audit row.
use uk_jamaat_directory.Prelude.{◌≡◌, refl, ap, ◌∙◌, String, none, some, [], ◌∷◌, ◌++◌}
use uk_jamaat_directory.Models.Calendar.{World}
use uk_jamaat_directory.Models.Rows.{Uuid, ScheduleCandidate}
use uk_jamaat_directory.Models.Session.{
  Db, Error, ok, err, value_error, get_candidate, ◌>>=◌, ◌>>◌, pure,
}
use uk_jamaat_directory.Models.Triples.{bind-ok, bind-err}
use uk_jamaat_directory.Schedules.Types.{Settings}
use uk_jamaat_directory.Schedules.Prefetch.Lookup.{IsKeyed}
use uk_jamaat_directory.Schedules.Evaluation.{EvaluationMode}
use uk_jamaat_directory.Schedules.Evaluation.Direct.{evaluate}
use uk_jamaat_directory.Schedules.Approval.{save_candidate, approve_candidate_status}
use uk_jamaat_directory.Schedules.Approval.Outcome.{
  IsApprovable, approved_as, approve_candidate_status_outcome,
}
use uk_jamaat_directory.Services.Moderation.{action_row, audit, approve_found, approve_candidate}

module _ (cfg : Settings) (w : World) (id : Uuid) (actor : String) (db : Db) where
  -- The tables after an approval: the candidate's row and one more audit row.
  abbrev pub approved_tables : ScheduleCandidate → Db
  approved_tables c = record (save_candidate c db) {
    actions = db.actions ++ action_row actor "approve_candidate" id none ∷ [];
  }

  -- In a database with keyed tables, the approval of a stored candidate that is approvable returns
  -- it as approved and writes its row and one audit row, and nothing else; for a candidate that is
  -- not approvable, and for an unknown id, it raises.
  pub approve_candidate_audited :
      IsKeyed db
      → ((c : ScheduleCandidate)
          → get_candidate id db ≡ some c
          → (IsApprovable cfg w c db
              → let c' = approved_as (evaluate cfg w EvaluationMode.approve c db) c in
                approve_candidate cfg w id actor db ≡ ok (c', approved_tables c'))
            × (¬ IsApprovable cfg w c db
                → (error : Error) × (approve_candidate cfg w id actor db ≡ err error)))
        × (get_candidate id db ≡ none
            → (error : Error) × (approve_candidate cfg w id actor db ≡ err error))
  unfolding approve_candidate approve_found audit
  approve_candidate_audited keyed = (
    (λ c found.
        let outcome = approve_candidate_status_outcome cfg w c db keyed in
        let after = λ (approved : ScheduleCandidate).
          audit actor "approve_candidate" id none >> pure approved in
        let first : approve_candidate cfg w id actor db
            ≡ (approve_candidate_status cfg w c >>= after) db =
          ap (λ o. approve_found cfg w id actor o db) found in
        (
          (λ a. first ∙ bind-ok (approve_candidate_status cfg w c) after db (outcome.0 a) refl),
          (λ n.
              let refused = outcome.1 n in
              (refused.0, first ∙ bind-err (approve_candidate_status cfg w c) after db refused.1)),
        )),
    (λ missing.
        (value_error "candidate not found", ap (λ o. approve_found cfg w id actor o db) missing)),
  )
