-- ===== src/Services/Contributions/Intake.antt =====
-- What `submit_schedule` leaves in the tables (services/contribution_intake.py), if it returns, and
-- the counts of its rows.
use uk_jamaat_directory.Prelude.{
  ℕ, suc, ◌+◌, ◌<◌, ◌≡◌, ◌≢◌, refl, sym, ap, String, Bool, true, false, not, Option, none, some,
  List, [], ◌∷◌, ◌++◌, append-nil, select, length, All, All-map, arith, Bool-cases, inl, inr,
  if◌then◌else◌,
}
use uk_jamaat_directory.Models.Calendar.{Instant, Time}
use uk_jamaat_directory.Models.Json.{Object}
use uk_jamaat_directory.Models.Rows.{Uuid, Mosque, MosqueSource, ScheduleCandidate}
use uk_jamaat_directory.Models.Session.{
  Db, Result, ok, err, value_error, integrity_error, data_error, storage_error, network_error,
  mosque_not_found, get_mosque, pure, ◌>>=◌,
}
use uk_jamaat_directory.Models.Triples.{Ensures, Ensures-bind, bind-ok, bind-err}
use uk_jamaat_directory.Schedules.Types.{ScheduleCandidateInput}
use uk_jamaat_directory.Schedules.Parse.{Unicode, parse_schedule_row}
use uk_jamaat_directory.Schedules.Candidates.{upsert_schedule_candidate}
use uk_jamaat_directory.Services.Contributions.{
  MosqueScheduleSubmission, ScheduleSubmissionRow, Counts, require_mosque, submission_source,
  submission_evidence, row_texts, row_upsert, submit_parsed, submit_rows, no_rows, submit_schedule,
  submit_schedule_for, found_or_raise,
}
use uk_jamaat_directory.Services.Contributions.Rows.{
  IsPick, IsFresh, IsGrown, upsert_schedule_candidate-IsGrown,
}

abbrev pub is_ok : {A : Type 0} → Result A → Bool
is_ok (ok a) = true
is_ok (err e) = false

-- A row that can be read.
abbrev pub is_readable : Unicode → String → ScheduleSubmissionRow → Bool
is_readable u timezone row = is_ok (parse_schedule_row u (row_texts timezone row))

abbrev pub unreadable : Unicode → String → ScheduleSubmissionRow → Bool
unreadable u timezone row = not (is_readable u timezone row)

-- The counters after some rows.
abbrev pub counted : Unicode → String → List ScheduleSubmissionRow → Counts → Counts
counted u timezone rows n = record {
  accepted = n.accepted + length (select (is_readable u timezone) rows);
  rejected = n.rejected + length (select (unreadable u timezone) rows);
}

abbrev counts : ℕ → ℕ → Counts
counts a b = record { accepted = a; rejected = b }

pub counts_eq : {a b c d : ℕ} → a ≡ c → b ≡ d → counts a b ≡ counts c d
counts_eq p q = rw (p, q) refl

pub counted_cons :
    (u : Unicode) (timezone : String) (row : ScheduleSubmissionRow)
    (rows : List ScheduleSubmissionRow) (n : Counts)
    → counted u timezone rows (
        if is_readable u timezone row
        then record n { accepted = suc n.accepted }
        else record n { rejected = suc n.rejected })
      ≡ counted u timezone (row ∷ rows) n
counted_cons u timezone row rows n = elim (Bool-cases (is_readable u timezone row)) [
  | inl t ↦ rw t (counts_eq (omega arith) refl)
  | inr f ↦ rw f (counts_eq refl (omega arith))
]

module _ (newest : List ScheduleCandidate → Option ScheduleCandidate) (pick : IsPick newest)
    (u : Unicode) (mosque : Mosque) (source : MosqueSource) (evidence : Object) (db0 : Db)
    (old : All
      (λ (c : ScheduleCandidate). (c.id < db0.next_id) × (c.source_id ≢ source.id))
      db0.candidates) where
  turn-IsGrown :
      (parsed : Result (ScheduleCandidateInput × Time × Option Time)) (n : Counts) (db : Db)
      → IsGrown source db0 db
      → Ensures
          (λ m db'. IsGrown source db0 db')
          (submit_parsed newest u mosque source evidence parsed n db)
  unfolding submit_parsed Ensures
  turn-IsGrown (ok parsed) n db g =
      let up = row_upsert mosque source evidence parsed in
      Ensures-bind _ _ (upsert_schedule_candidate newest up) _ db
        (upsert_schedule_candidate-IsGrown up db0 old refl newest pick g) (λ flags db' g'. g')
  turn-IsGrown (err (value_error text)) n db g = g
  turn-IsGrown (err integrity_error) n db g = tt
  turn-IsGrown (err data_error) n db g = tt
  turn-IsGrown (err storage_error) n db g = tt
  turn-IsGrown (err network_error) n db g = tt
  turn-IsGrown (err (mosque_not_found id)) n db g = tt

  pub loop-IsGrown :
      (timezone : String) (rows : List ScheduleSubmissionRow) (n : Counts) (db : Db)
      → IsGrown source db0 db
      → Ensures
          (λ m db'. IsGrown source db0 db')
          (submit_rows newest u mosque source evidence timezone rows n db)
  unfolding submit_rows Ensures
  loop-IsGrown timezone [] n db g = g
  loop-IsGrown timezone (row ∷ rows) n db g =
      Ensures-bind _ _
        (submit_parsed newest u mosque source evidence
          (parse_schedule_row u (row_texts timezone row)) n)
        (submit_rows newest u mosque source evidence timezone rows) db
        (turn-IsGrown (parse_schedule_row u (row_texts timezone row)) n db g)
        (loop-IsGrown timezone rows)

pub select_both :
    {A : Type 0} (p : A → Bool) (xs : List A)
    → length (select p xs) + length (select (λ x. not (p x)) xs) ≡ length xs
select_both p [] = omega arith
select_both p (x ∷ xs) = elim (Bool-cases (p x)) [
  | inl t ↦ rw t (omega (arith, select_both p xs))
  | inr f ↦ rw f (omega (arith, select_both p xs))
]

module _ (newest : List ScheduleCandidate → Option ScheduleCandidate) (pick : IsPick newest)
    (u : Unicode) (uuid_text : Uuid → String) (now : Instant) (mosque_id : Uuid)
    (payload : MosqueScheduleSubmission) (db : Db) where
  abbrev pub submitted_source : MosqueSource
  submitted_source = submission_source uuid_text now mosque_id payload db.next_id (db.next_id + 1)

  -- The tables with the source of the submission, before its rows.
  abbrev pub opened : Db
  opened = record db { sources = db.sources ++ submitted_source ∷ []; next_id = db.next_id + 1 + 1 }

  pub opened_old :
      IsFresh db
      → All
          (λ (c : ScheduleCandidate). (c.id < db.next_id + 1 + 1) × (c.source_id ≢ db.next_id + 1))
          db.candidates
  opened_old fresh =
      All-map _ _ db.candidates
        (λ c h. (let k = h.0 in omega arith, λ q. let k = h.1 in absurd (omega arith)))
        fresh.candidates

  pub opened-IsGrown : IsFresh db → IsGrown submitted_source opened opened
  opened-IsGrown fresh = record {
    new = [];
    whole = sym (append-nil db.candidates);
    submitted = tt;
    later = omega arith;
    rest = refl;
  }

  pub unknown_mosque :
      get_mosque mosque_id db ≡ none
      → submit_schedule newest u uuid_text now mosque_id payload db
        ≡ err (mosque_not_found mosque_id)
  unfolding submit_schedule require_mosque
  unknown_mosque missing =
      bind-err (require_mosque mosque_id)
        (submit_schedule_for newest u uuid_text now mosque_id payload) db
        (ap (λ o. found_or_raise mosque_id o db) missing)

  -- What follows the rows of a submission for a known mosque.
  pub known_mosque :
      (mosque : Mosque)
      → get_mosque mosque_id db ≡ some mosque
      → submit_schedule newest u uuid_text now mosque_id payload db
        ≡ (submit_rows newest u mosque submitted_source
                (submission_evidence uuid_text db.next_id)
                payload.timezone
                payload.schedules
                no_rows
              >>= λ n. pure (db.next_id, n))
            opened
  unfolding submit_schedule require_mosque submit_schedule_for
  known_mosque mosque found =
      bind-ok (require_mosque mosque_id)
        (submit_schedule_for newest u uuid_text now mosque_id payload) db
        (ap (λ o. found_or_raise mosque_id o db) found) refl

  -- A submission for a known mosque adds candidates of its source, if it returns.
  pub submit_schedule-IsGrown :
      IsFresh db
      → (mosque : Mosque) → get_mosque mosque_id db ≡ some mosque
      → Ensures
          (λ r db'. IsGrown submitted_source opened db')
          (submit_schedule newest u uuid_text now mosque_id payload db)
  unfolding Ensures
  submit_schedule-IsGrown fresh mosque found = rw (known_mosque mosque found) (
      Ensures-bind _ _
        (submit_rows newest u mosque submitted_source (submission_evidence uuid_text db.next_id)
          payload.timezone payload.schedules no_rows)
        _ opened
        (loop-IsGrown newest pick u mosque submitted_source
          (submission_evidence uuid_text db.next_id) opened (opened_old fresh) payload.timezone
          payload.schedules no_rows opened (opened-IsGrown fresh))
        (λ n db' g. g))
