-- ===== src/Schedules/Candidates.antt =====
-- `upsert_schedule_candidate` of schedules/candidates.py: an extracted row becomes a candidate, or
-- changes the one that stands for its session. A value that its column cannot hold is a DataError,
-- of the query for the session number and of the flush for the texts.
--
-- `newest` stands for ORDER BY updated_at DESC LIMIT 1 on the rows that the query selects.
pub mod Carried
pub mod Single
use uk_jamaat_directory.Prelude.{
  ◌+◌, ◌==◌, nat_eq, string_eq, option_eq, Bool, true, false, not, ◌&&◌, Option, none, some, List,
  [], ◌∷◌, ◌++◌, select, if◌then◌else◌,
}
use uk_jamaat_directory.Prelude.Int.{int_eq}
use uk_jamaat_directory.Domain.{CandidateStatus, candidate_status_eq, prayer_eq, source_type_value}
use uk_jamaat_directory.Models.Json.{Json, Object, null, str, get, update}
use uk_jamaat_directory.Models.Calendar.{Time, time_option_same}
use uk_jamaat_directory.Models.Rows.{Uuid, Mosque, MosqueSource, ScheduleCandidate}
use uk_jamaat_directory.Models.Session.{
  Db, Session, ◌>>=◌, ◌>>◌, pure, raise, gets, modify, data_error,
}
use uk_jamaat_directory.Models.Columns.{fits_text, fits_optional, fits_integer}
use uk_jamaat_directory.Schedules.Types.{ScheduleCandidateInput}
use uk_jamaat_directory.Schedules.Queries.{column_is}
use uk_jamaat_directory.Schedules.Prefetch.{is_active}
use uk_jamaat_directory.Schedules.Approval.{save_candidate}

abbrev or_null : Option Json → Json
or_null none = null
or_null (some v) = v

-- `if evidence_extra: evidence.update(evidence_extra)`
abbrev pub extended : Object → Option Object → Object
extended evidence none = evidence
extended evidence (some extra) = update evidence extra

-- The arguments of one call.
pub record Upsert : Type 0 where
  pub mosque : Mosque
  pub source : MosqueSource
  pub extraction_run_id : Option Uuid
  pub row : ScheduleCandidateInput
  pub jamaat_time : Time
  pub start_time : Option Time
  pub evidence_extra : Option Object

abbrev pub evidence_of : Upsert → Object
evidence_of u =
    extended
      (("source_type", str (source_type_value u.source.source_type))
        ∷ ("external_id", str u.source.external_id)
        ∷ ("linkback_url", or_null (get "linkback_url" u.source.metadata))
        ∷ [])
      u.evidence_extra

-- The columns of the query that say which session a candidate is for.
unfoldable pub is_for : Upsert → ScheduleCandidate → Bool
is_for u c =
    column_is c.mosque_id u.mosque.id
    && (c.source_id == u.source.id
        && (c.date == u.row.date
            && (c.prayer == u.row.prayer && c.session_number == u.row.session_number)))

unfoldable pub matches : Upsert → ScheduleCandidate → Bool
matches u c = is_for u c && is_active c

-- The test for a row that needs no change.
unfoldable pub is_unchanged : Upsert → ScheduleCandidate → Bool
is_unchanged u c =
    time_option_same c.start_time u.start_time
    && (time_option_same c.jamaat_time (some u.jamaat_time)
        && (c.session_label == u.row.session_label
            && (c.timezone == u.row.timezone && c.extraction_run_id == u.extraction_run_id)))

abbrev pub superseded : ScheduleCandidate → ScheduleCandidate
superseded c = record c { status = CandidateStatus.superseded }

-- The assignments to an existing row of the same run.
unfoldable pub updated : Upsert → ScheduleCandidate → ScheduleCandidate
updated u c = record c {
  start_time = u.start_time;
  jamaat_time = some u.jamaat_time;
  session_label = u.row.session_label;
  timezone = u.row.timezone;
  extraction_run_id = u.extraction_run_id;
  evidence = evidence_of u;
  validation_errors = [];
  status = if c.status == CandidateStatus.approved then CandidateStatus.pending else c.status;
}

unfoldable pub new_candidate : Upsert → Uuid → ScheduleCandidate
new_candidate u id = record {
  id = id;
  mosque_id = some u.mosque.id;
  source_id = u.source.id;
  extraction_run_id = u.extraction_run_id;
  date = u.row.date;
  prayer = u.row.prayer;
  start_time = u.start_time;
  jamaat_time = some u.jamaat_time;
  session_number = u.row.session_number;
  session_label = u.row.session_label;
  timezone = u.row.timezone;
  confidence = u.source.confidence;
  status = CandidateStatus.pending;
  validation_errors = [];
  evidence = evidence_of u;
}

-- `session.add(candidate)`, with the id that `uuid.uuid4()` gives it.
unfoldable pub add_candidate : Upsert → Db → Db
add_candidate u db = record db {
  candidates = db.candidates ++ new_candidate u db.next_id ∷ [];
  next_id = db.next_id + 1;
}

-- The texts of the row fit their columns.
unfoldable pub columns_fit : Upsert → Bool
columns_fit u = fits_optional 120 u.row.session_label && fits_text 64 u.row.timezone

-- `session.flush()` of a row that is new or changed. The flags are `created_or_updated` and
-- `skipped_unchanged`.
abbrev pub flush_row : Bool → (Db → Db) → Session (Bool × Bool)
flush_row false change = raise data_error
flush_row true change = modify change >> pure (true, false)

unfoldable pub upsert_found : Upsert → Option ScheduleCandidate → Session (Bool × Bool)
upsert_found u none db = flush_row (columns_fit u) (add_candidate u) db
upsert_found u (some existing) db =
    if is_unchanged u existing
    then pure (false, true) db
    else if not (existing.extraction_run_id == u.extraction_run_id)
    then flush_row (columns_fit u)
        (λ db'. add_candidate u (save_candidate (superseded existing) db')) db
    else flush_row (columns_fit u) (save_candidate (updated u existing)) db

-- The query cannot bind a session number that its column cannot hold.
abbrev pub upsert_bound :
    (List ScheduleCandidate → Option ScheduleCandidate) → Upsert → Bool → Session (Bool × Bool)
upsert_bound newest u false = raise data_error
upsert_bound newest u true = do
  existing ← gets (λ db. newest (select (matches u) db.candidates))
  upsert_found u existing

unfoldable pub upsert_schedule_candidate :
    (List ScheduleCandidate → Option ScheduleCandidate) → Upsert → Session (Bool × Bool)
upsert_schedule_candidate newest u = upsert_bound newest u (fits_integer u.row.session_number)
