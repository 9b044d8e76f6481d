-- ===== src/Tests/Services.antt =====
-- The theorems about candidates and moderators, on the sample tables.
use uk_jamaat_directory.Prelude.{
  ◌≡◌, ◌⊎◌, refl, Bool, true, false, Option, none, some, List, [], ◌∷◌, ◌++◌, first, arith, nat_eq,
}
use uk_jamaat_directory.Domain.{Prayer, Prayer-discrete, CandidateStatus-discrete}
use uk_jamaat_directory.Prelude.Int.{pos, ℤ-discrete}
use uk_jamaat_directory.Models.Rows.{ScheduleCandidate}
use uk_jamaat_directory.Models.Session.{Db, Error, ok, err, data_error, get_candidate}
use uk_jamaat_directory.Models.Columns.{text_length, has_no_nul, fits_text, fits_integer}
use uk_jamaat_directory.Schedules.Candidates.{
  Upsert, is_for, matches, columns_fit, upsert_schedule_candidate,
}
use uk_jamaat_directory.Schedules.Candidates.Carried.{row_fits}
use uk_jamaat_directory.Schedules.Candidates.Single.{
  IsFirst, IsSettled, upsert_schedule_candidate_settles,
}
use uk_jamaat_directory.Services.Moderation.{ListFilters, rejected, action_row, reject_candidate}
use uk_jamaat_directory.Services.Moderation.Rejection.{IsRejectedIn, IsOut, reject_candidate_final}
use uk_jamaat_directory.Schedules.Evaluation.{EvaluationMode}
use uk_jamaat_directory.Schedules.Evaluation.Direct.{evaluate}
use uk_jamaat_directory.Schedules.Approval.Outcome.{IsApprovable, approved_as}
use uk_jamaat_directory.Services.Moderation.{approve_candidate}
use uk_jamaat_directory.Services.Moderation.Decision.{approved_tables, approve_candidate_audited}
use uk_jamaat_directory.Tests.Validation.{tables-IsKeyed}
use uk_jamaat_directory.Tests.Samples.{settings, world, today, at, mosque, public_source, tables}

abbrev pub head : List ScheduleCandidate → Option ScheduleCandidate
head cs = first (λ _. true) cs

pub head-IsFirst : IsFirst head
head-IsFirst = record { nothing = refl; only = λ c. refl }

-- The isha of the public source, extracted again with another time.
abbrev later_isha : Upsert
later_isha = record {
  mosque = mosque;
  source = public_source;
  extraction_run_id = some 6;
  row = record {
    date = today;
    prayer = Prayer.isha;
    session_number = pos 1;
    session_label = none;
    timezone = "Europe/London";
  };
  jamaat_time = at 21 0;
  start_time = none;
  evidence_extra = none;
}

upsert_schedule_candidate_settles_example :
    (row_fits later_isha ≡ true
      → (flags : Bool × Bool) × (db' : Db) × (c : ScheduleCandidate) × (upsert_schedule_candidate
            head later_isha tables
          ≡ ok (flags, db'))
        × IsSettled later_isha tables db' c
        × (upsert_schedule_candidate head later_isha db' ≡ ok ((false, true), db')))
    × (row_fits later_isha ≡ false
        → (upsert_schedule_candidate head later_isha tables ≡ err data_error)
          ⊎ (upsert_schedule_candidate head later_isha tables ≡ ok ((false, true), tables)))
unfolding matches is_for Prayer-discrete CandidateStatus-discrete ℤ-discrete
upsert_schedule_candidate_settles_example =
    upsert_schedule_candidate_settles later_isha head head-IsFirst tables
      (refl, (refl, (refl, (refl, tt)))) (omega arith)

later_isha_fits : row_fits later_isha ≡ true
unfolding columns_fit text_length has_no_nul fits_text fits_integer
later_isha_fits = refl

reject_candidate_final_example :
    ((c : ScheduleCandidate)
      → get_candidate 10 tables ≡ some c
      → (db' : Db) × (reject_candidate 10 "admin" none tables ≡ ok (rejected c, db'))
        × IsRejectedIn 10 db'
        × (db'.actions ≡ action_row "admin" "reject_candidate" 10 none ∷ []))
    × (get_candidate 10 tables ≡ none
        → (error : Error) × (reject_candidate 10 "admin" none tables ≡ err error))
    × ((later : Db) → IsRejectedIn 10 later → IsOut 10 later)
reject_candidate_final_example = reject_candidate_final 10 "admin" none tables

abbrev everything : ListFilters
everything = record {
  status = none;
  source_id = none;
  mosque_id = none;
  date_from = none;
  date_to = none;
}

-- The rows of the sample tables are of one date, so that a query may turn them around.
abbrev as_stored : List ScheduleCandidate → List ScheduleCandidate
as_stored cs = cs

abbrev turned : List ScheduleCandidate → List ScheduleCandidate
turned [] = []
turned (c ∷ cs) = turned cs ++ c ∷ []

approve_candidate_audited_example :
    ((c : ScheduleCandidate)
      → get_candidate 10 tables ≡ some c
      → (IsApprovable settings world c tables
          → let c' = approved_as (evaluate settings world EvaluationMode.approve c tables) c in
            approve_candidate settings world 10 "admin" tables
            ≡ ok (c', approved_tables settings world 10 "admin" tables c'))
        × (¬ IsApprovable settings world c tables
            → (error : Error) × (approve_candidate settings world 10 "admin" tables ≡ err error)))
    × (get_candidate 10 tables ≡ none
        → (error : Error) × (approve_candidate settings world 10 "admin" tables ≡ err error))
approve_candidate_audited_example =
    approve_candidate_audited settings world 10 "admin" tables tables-IsKeyed
