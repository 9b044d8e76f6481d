-- ===== src/Tests/Contributions.antt =====
-- The theorems about submitted schedules, on the sample tables.
use uk_jamaat_directory.Prelude.{
  String, ◌≡◌, true, false, refl, nat_eq, ◌⊎◌, none, some, [], ◌∷◌, all, List, Member, here, there,
  arith,
}
use uk_jamaat_directory.Prelude.Dict.{Distinct}
use uk_jamaat_directory.Schedules.Candidates.Carried.{row_fits}
use uk_jamaat_directory.Prelude.Int.{pos, ℤ-discrete}
use uk_jamaat_directory.Models.Rows.{Uuid, Mosque, ScheduleCandidate}
use uk_jamaat_directory.Models.Session.{
  Db, Result, ok, err, data_error, mosque_not_found, get_mosque,
}
use uk_jamaat_directory.Domain.{Prayer-discrete, CandidateStatus-discrete}
use uk_jamaat_directory.Schedules.Parse.{
  codes, strip_left, strip_right, strip, match_time, time_of, parse_stripped, parse_hhmm, alias,
  parse_prayer, parse_schedule_row,
}
use uk_jamaat_directory.Models.Columns.{text_length, has_no_nul, fits_text, fits_integer}
use uk_jamaat_directory.Schedules.Candidates.{
  is_for, matches, is_unchanged, updated, new_candidate, add_candidate, columns_fit, upsert_found,
  upsert_schedule_candidate,
}
use uk_jamaat_directory.Services.Contributions.{
  ScheduleSubmissionRow, MosqueScheduleSubmission, Counts, no_rows, require_mosque, submit_parsed,
  submit_rows, submit_schedule_for, submit_schedule,
}
use uk_jamaat_directory.Services.Contributions.Rows.{IsPick, IsFresh}
use uk_jamaat_directory.Services.Contributions.Stored.{upserts, IsStored, submit_schedule_outcome}
use uk_jamaat_directory.Services.Contributions.Refused.{IsRefused, submit_schedule-IsRefused}
use uk_jamaat_directory.Tests.Samples.{settings, world, today, pending_fajr, tables}
use uk_jamaat_directory.Tests.Services.{head, head-IsFirst}
use uk_jamaat_directory.Tests.Validation.{tables-IsKeyed}
use uk_jamaat_directory.Tests.Parse.{ascii}

head-IsPick : IsPick head
head-IsPick [] c h = cc
head-IsPick (x ∷ xs) c h = let q : x ≡ c = cc in here q

tables-IsFresh : IsFresh tables
tables-IsFresh = record {
  sources = (omega arith, (omega arith, (omega arith, tt)));
  candidates = (
    (omega arith, omega arith),
    ((omega arith, omega arith), ((omega arith, omega arith), ((omega arith, omega arith), tt))),
  );
}

abbrev row_at : String → ScheduleSubmissionRow
row_at time = record {
  date = today;
  prayer = codes "fajr";
  start_time = none;
  jamaat_time = codes time;
  session_number = pos 1;
  session_label = none;
}

-- Two rows for one session, and one that cannot be read.
abbrev submission : MosqueScheduleSubmission
submission = record {
  timezone = "Europe/London";
  schedules = row_at "05:30" ∷ row_at "later" ∷ row_at "05:45" ∷ [];
  message = none;
  submitter_name = none;
  submitter_email = none;
}

abbrev no_text : Uuid → String
no_text id = ""

tables-Distinct : Distinct (λ (c : ScheduleCandidate). c.id) tables.candidates
tables-Distinct = (refl, (refl, (refl, (refl, tt))))

submit_schedule_outcome_example :
    ((m : Mosque)
      → get_mosque 1 tables ≡ some m
      → (all row_fits
              (upserts head head-IsFirst head-IsPick ascii no_text world.now 1 submission tables m)
            ≡ true
          → (n : Counts) × (db' : Db) × (submit_schedule head ascii no_text world.now 1 submission
                tables
              ≡ ok ((100, n), db'))
            × IsStored head head-IsFirst head-IsPick ascii no_text world.now 1 submission tables m n
                db')
        × (all row_fits (
                upserts head head-IsFirst head-IsPick ascii no_text world.now 1 submission tables m)
              ≡ false
            → submit_schedule head ascii no_text world.now 1 submission tables ≡ err data_error))
    × (get_mosque 1 tables ≡ none
        → submit_schedule head ascii no_text world.now 1 submission tables
          ≡ err (mosque_not_found 1))
submit_schedule_outcome_example =
    submit_schedule_outcome head head-IsFirst head-IsPick ascii no_text world.now 1 submission
      tables tables-IsFresh tables-Distinct

abbrev result_of : Result ((Uuid × Counts) × Db) → (Uuid × Counts) × Db
result_of (ok r) = r
result_of (err e) = ((0, no_rows), tables)

abbrev outcome : (Uuid × Counts) × Db
outcome = result_of (submit_schedule head ascii no_text world.now 1 submission tables)

returned : submit_schedule head ascii no_text world.now 1 submission tables ≡ ok outcome
unfolding submit_schedule require_mosque submit_schedule_for submit_rows submit_parsed
    parse_schedule_row parse_hhmm parse_stripped parse_prayer alias strip strip_left strip_right
    match_time time_of upsert_schedule_candidate upsert_found matches is_for is_unchanged
    add_candidate updated new_candidate columns_fit text_length has_no_nul fits_text fits_integer
    Prayer-discrete CandidateStatus-discrete ℤ-discrete
returned = refl

abbrev last_of : List ScheduleCandidate → ScheduleCandidate
last_of [] = pending_fajr
last_of (c ∷ []) = c
last_of (c ∷ d ∷ cs) = last_of (d ∷ cs)

-- The candidate that the two rows became.
abbrev submitted : ScheduleCandidate
submitted = last_of outcome.1.candidates

submitted-Member : Member submitted outcome.1.candidates
unfolding submit_schedule require_mosque submit_schedule_for submit_rows submit_parsed
    parse_schedule_row parse_hhmm parse_stripped parse_prayer alias strip strip_left strip_right
    match_time time_of upsert_schedule_candidate upsert_found matches is_for is_unchanged
    add_candidate updated new_candidate columns_fit text_length has_no_nul fits_text fits_integer
    Prayer-discrete CandidateStatus-discrete ℤ-discrete
submitted-Member = there (there (there (there (here refl))))

submit_schedule-IsRefused_example :
    Member submitted tables.candidates
    ⊎ IsRefused settings world head head-IsPick ascii no_text 1 submission tables tables-IsKeyed
        tables-IsFresh submitted outcome.1
submit_schedule-IsRefused_example =
    submit_schedule-IsRefused settings world head head-IsPick ascii no_text 1 submission tables
      tables-IsKeyed tables-IsFresh returned submitted submitted-Member

-- A time zone of 65 characters is read and does not fit: the submission is lost.
abbrev misfit : MosqueScheduleSubmission
misfit = record submission {
  timezone = "Europe/London-Europe/London-Europe/London-Europe/London-Europe/Lon";
}

misfit_raises : submit_schedule head ascii no_text world.now 1 misfit tables ≡ err data_error
unfolding submit_schedule require_mosque submit_schedule_for submit_rows submit_parsed
    parse_schedule_row parse_hhmm parse_stripped parse_prayer alias strip strip_left strip_right
    match_time time_of upsert_schedule_candidate upsert_found matches is_for is_unchanged
    add_candidate updated new_candidate columns_fit text_length has_no_nul fits_text fits_integer
    Prayer-discrete CandidateStatus-discrete ℤ-discrete
misfit_raises = refl
