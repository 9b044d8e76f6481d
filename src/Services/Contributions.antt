-- ===== src/Services/Contributions.antt =====
-- services/contribution_intake.py: corrections, schedules and claims that visitors submit.
--
-- `uuid_text` stands for `str` on a UUID, and `newest` for the order of the candidate query.
pub mod Rows
pub mod Intake
pub mod Tidy
pub mod Covered
pub mod Stored
pub mod Refused
use Prim.Native.String
use uk_jamaat_directory.Prelude.{
  ℕ, suc, nat_eq, String, true, Option, none, some, List, [], ◌∷◌, ◌++◌,
}
use uk_jamaat_directory.Prelude.Int.{ℤ}
use uk_jamaat_directory.Domain.{
  SourceType, SourcePublicationPolicy, Confidence, CorrectionStatus, ClaimStatus, source_type_value,
}
use uk_jamaat_directory.Models.Json.{Json, Object, null, bool, str, put}
use uk_jamaat_directory.Models.Calendar.{Date, Instant, Time}
use uk_jamaat_directory.Models.Rows.{
  Uuid, Mosque, MosqueSource, ScheduleCandidate, Correction, MosqueClaim,
}
use uk_jamaat_directory.Models.Session.{
  Session, Result, ok, err, value_error, integrity_error, data_error, storage_error, network_error,
  mosque_not_found, ◌>>=◌, ◌>>◌, pure, raise, gets, modify, uuid4, get_mosque,
}
use uk_jamaat_directory.Schedules.Types.{ScheduleCandidateInput}
use uk_jamaat_directory.Schedules.Parse.{Text, Unicode, RowTexts, parse_schedule_row}
use uk_jamaat_directory.Schedules.Candidates.{Upsert, upsert_schedule_candidate}

-- The payloads, schemas/contributions.py.
pub record MosqueCorrectionSubmission : Type 0 where
  pub message : String
  pub occurrence_id : Option Uuid
  pub suggested : Object
  pub submitter_name : Option String
  pub submitter_email : Option String

pub record MosqueClaimSubmission : Type 0 where
  pub claimant_name : String
  pub claimant_email : String
  pub claimant_role : Option String
  pub verification_evidence : Object

pub record ScheduleSubmissionRow : Type 0 where
  pub date : Date
  pub prayer : Text
  pub start_time : Option Text
  pub jamaat_time : Text
  pub session_number : ℤ
  pub session_label : Option String

pub record MosqueScheduleSubmission : Type 0 where
  pub timezone : String
  pub schedules : List ScheduleSubmissionRow
  pub message : Option String
  pub submitter_name : Option String
  pub submitter_email : Option String

abbrev pub found_or_raise : Uuid → Option Mosque → Session Mosque
found_or_raise mosque_id none = raise (mosque_not_found mosque_id)
found_or_raise mosque_id (some mosque) = pure mosque

-- `_require_mosque`
unfoldable pub require_mosque : Uuid → Session Mosque
require_mosque mosque_id = do mosque ← gets (get_mosque mosque_id); found_or_raise mosque_id mosque

abbrev pub new_correction : Uuid → MosqueCorrectionSubmission → Uuid → Correction
new_correction mosque_id payload id = record {
  id = id;
  mosque_id = some mosque_id;
  occurrence_id = payload.occurrence_id;
  submitter_name = payload.submitter_name;
  submitter_email = payload.submitter_email;
  message = payload.message;
  status = CorrectionStatus.pending;
  payload = record { suggested = payload.suggested; private_contact = true };
}

unfoldable pub submit_correction : Uuid → MosqueCorrectionSubmission → Session Uuid
submit_correction mosque_id payload = do
  _ ← require_mosque mosque_id
  id ← uuid4
  modify
      (λ db. record db { corrections = db.corrections ++ new_correction mosque_id payload id ∷ [] })
  pure id

-- The status is the column's default.
abbrev pub new_claim : Uuid → MosqueClaimSubmission → Uuid → MosqueClaim
new_claim mosque_id payload id = record {
  id = id;
  mosque_id = mosque_id;
  claimant_name = payload.claimant_name;
  claimant_email = payload.claimant_email;
  claimant_role = payload.claimant_role;
  status = ClaimStatus.pending;
  verification_evidence = put "private_contact" (bool true) payload.verification_evidence;
}

unfoldable pub submit_claim : Uuid → MosqueClaimSubmission → Session Uuid
submit_claim mosque_id payload = do
  _ ← require_mosque mosque_id
  id ← uuid4
  modify (λ db. record db { claims = db.claims ++ new_claim mosque_id payload id ∷ [] })
  pure id

abbrev text_or_null : Option String → Json
text_or_null none = null
text_or_null (some s) = str s

module _ (uuid_text : Uuid → String) where
  -- The source of one submission.
  abbrev pub submission_source :
      Instant → Uuid → MosqueScheduleSubmission → Uuid → Uuid → MosqueSource
  submission_source now mosque_id payload submission_id id = record {
    id = id;
    mosque_id = some mosque_id;
    source_type = SourceType.community;
    external_id = String.◌++◌ "schedule-" (uuid_text submission_id);
    source_url = none;
    display_name = none;
    publication_policy = SourcePublicationPolicy.unknown;
    confidence = Confidence.community;
    license_name = none;
    attribution = none;
    last_seen_at = some now;
    metadata =
        ("message", text_or_null payload.message)
        ∷ ("submitter_name", text_or_null payload.submitter_name)
        ∷ ("submitter_email", text_or_null payload.submitter_email)
        ∷ ("private_contact", bool true)
        ∷ ("submission_kind", str "schedule")
        ∷ [];
  }

  abbrev pub submission_evidence : Uuid → Object
  submission_evidence submission_id =
      ("source_type", str (source_type_value SourceType.community))
      ∷ ("submission_id", str (uuid_text submission_id))
      ∷ []

-- The keyword arguments of `parse_schedule_row` in the loop.
abbrev pub row_texts : String → ScheduleSubmissionRow → RowTexts
row_texts timezone row = record {
  on_date = row.date;
  prayer = row.prayer;
  jamaat_time = row.jamaat_time;
  start_time = row.start_time;
  session_number = row.session_number;
  session_label = row.session_label;
  timezone = timezone;
}

-- The keyword arguments of the upsert in the loop.
abbrev pub row_upsert :
    Mosque → MosqueSource → Object → ScheduleCandidateInput × Time × Option Time → Upsert
row_upsert mosque source evidence (row, jamaat_time, start_time) = record {
  mosque = mosque;
  source = source;
  extraction_run_id = none;
  row = row;
  jamaat_time = jamaat_time;
  start_time = start_time;
  evidence_extra = some evidence;
}

-- `accepted` and `rejected`.
pub record Counts : Type 0 where
  pub accepted : ℕ
  pub rejected : ℕ

abbrev pub no_rows : Counts
no_rows = record { accepted = 0; rejected = 0 }

module _ (newest : List ScheduleCandidate → Option ScheduleCandidate) (u : Unicode) where
  -- One turn of the loop, after the parse.
  unfoldable pub submit_parsed :
      Mosque
      → MosqueSource
      → Object
      → Result (ScheduleCandidateInput × Time × Option Time)
      → Counts
      → Session Counts
  submit_parsed mosque source evidence (ok parsed) n = do
    _ ← upsert_schedule_candidate newest (row_upsert mosque source evidence parsed)
    pure (record n { accepted = suc n.accepted })
  submit_parsed mosque source evidence (err (value_error text)) n =
      pure (record n { rejected = suc n.rejected })
  submit_parsed mosque source evidence (err integrity_error) n = raise integrity_error
  submit_parsed mosque source evidence (err data_error) n = raise data_error
  submit_parsed mosque source evidence (err storage_error) n = raise storage_error
  submit_parsed mosque source evidence (err network_error) n = raise network_error
  submit_parsed mosque source evidence (err (mosque_not_found id)) n = raise (mosque_not_found id)

  unfoldable pub submit_rows :
      Mosque → MosqueSource → Object → String → List ScheduleSubmissionRow → Counts → Session Counts
  submit_rows mosque source evidence timezone [] n = pure n
  submit_rows mosque source evidence timezone (row ∷ rows) n = do
    n' ← submit_parsed mosque source evidence (parse_schedule_row u (row_texts timezone row)) n
    submit_rows mosque source evidence timezone rows n'

  -- What `submit_schedule` does for the mosque that it found.
  unfoldable pub submit_schedule_for :
      (Uuid → String) → Instant → Uuid → MosqueScheduleSubmission → Mosque → Session (Uuid × Counts)
  submit_schedule_for uuid_text now mosque_id payload mosque = do
    submission_id ← uuid4
    source_id ← uuid4
    let source = submission_source uuid_text now mosque_id payload submission_id source_id
    modify (λ db. record db { sources = db.sources ++ source ∷ [] })
    n ←
        submit_rows mosque source (submission_evidence uuid_text submission_id) payload.timezone
          payload.schedules no_rows
    pure (submission_id, n)

  unfoldable pub submit_schedule :
      (Uuid → String) → Instant → Uuid → MosqueScheduleSubmission → Session (Uuid × Counts)
  submit_schedule uuid_text now mosque_id payload = do
    mosque ← require_mosque mosque_id
    submit_schedule_for uuid_text now mosque_id payload mosque
