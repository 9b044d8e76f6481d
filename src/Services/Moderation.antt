-- ===== src/Services/Moderation.antt =====
-- services/schedule_moderation.py: a moderator lists, approves and rejects candidates, and every
-- decision leaves an audit row.
pub mod Decision
pub mod Listing
pub mod Rejection
use uk_jamaat_directory.Prelude.{
  ℕ, ◌==◌, nat_eq, String, Bool, true, false, ◌&&◌, Option, none, some, List, [], ◌∷◌, ◌++◌, select,
  length, skip, take, leb,
}
use uk_jamaat_directory.Domain.{CandidateStatus, candidate_status_eq}
use uk_jamaat_directory.Models.Calendar.{Date, World}
use uk_jamaat_directory.Models.Rows.{Uuid, ScheduleCandidate, ModerationAction}
use uk_jamaat_directory.Models.Session.{
  Db, Session, value_error, ◌>>=◌, ◌>>◌, pure, raise, gets, modify, get_candidate,
}
use uk_jamaat_directory.Schedules.Types.{Settings}
use uk_jamaat_directory.Schedules.Queries.{given, column_is}
use uk_jamaat_directory.Schedules.Approval.{save_candidate, approve_candidate_status}

pub record CandidateListResult : Type 0 where
  pub items : List ScheduleCandidate
  pub total : ℕ
  pub limit : ℕ
  pub offset : ℕ

-- The keyword arguments that become WHERE clauses.
pub record ListFilters : Type 0 where
  pub status : Option CandidateStatus
  pub source_id : Option Uuid
  pub mosque_id : Option Uuid
  pub date_from : Option Date
  pub date_to : Option Date

unfoldable pub is_listed : ListFilters → ScheduleCandidate → Bool
is_listed f c =
    given f.status (λ s. c.status == s)
    && (given f.source_id (λ id. c.source_id == id)
        && (given f.mosque_id (λ id. column_is c.mosque_id id)
            && (given f.date_from (λ d. leb d c.date) && given f.date_to (λ d. leb c.date d))))

-- `order` stands for ORDER BY date DESC in one run of the query. Of rows of one date it says nothing,
-- and the next run may order them in another way.
unfoldable pub list_candidates :
    (List ScheduleCandidate → List ScheduleCandidate)
    → ListFilters
    → ℕ
    → ℕ
    → Db
    → CandidateListResult
list_candidates order f limit offset db = record {
  items = take limit (skip offset (order (select (is_listed f) db.candidates)));
  total = length (select (is_listed f) db.candidates);
  limit = limit;
  offset = offset;
}

abbrev pub action_row : String → String → Uuid → Option String → ModerationAction
action_row actor action candidate_id reason = record {
  actor = actor;
  action = action;
  entity_type = "schedule_candidate";
  entity_id = candidate_id;
  reason = reason;
}

-- `_audit`
unfoldable pub audit : String → String → Uuid → Option String → Session (Unit {0})
audit actor action candidate_id reason =
    modify
      (λ db. record db { actions = db.actions ++ action_row actor action candidate_id reason ∷ [] })

unfoldable pub approve_found :
    Settings → World → Uuid → String → Option ScheduleCandidate → Session ScheduleCandidate
approve_found cfg w candidate_id actor none = raise (value_error "candidate not found")
approve_found cfg w candidate_id actor (some candidate) = do
  approved ← approve_candidate_status cfg w candidate
  audit actor "approve_candidate" candidate_id none
  pure approved

unfoldable pub approve_candidate : Settings → World → Uuid → String → Session ScheduleCandidate
approve_candidate cfg w candidate_id actor = do
  candidate ← gets (get_candidate candidate_id)
  approve_found cfg w candidate_id actor candidate

abbrev pub rejected : ScheduleCandidate → ScheduleCandidate
rejected c = record c { status = CandidateStatus.rejected }

unfoldable pub reject_found :
    Uuid → String → Option String → Option ScheduleCandidate → Session ScheduleCandidate
reject_found candidate_id actor reason none = raise (value_error "candidate not found")
reject_found candidate_id actor reason (some candidate) = do
  modify (save_candidate (rejected candidate))
  audit actor "reject_candidate" candidate_id reason
  pure (rejected candidate)

unfoldable pub reject_candidate : Uuid → String → Option String → Session ScheduleCandidate
reject_candidate candidate_id actor reason = do
  candidate ← gets (get_candidate candidate_id)
  reject_found candidate_id actor reason candidate
