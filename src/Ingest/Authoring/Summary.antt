-- ===== src/Ingest/Authoring/Summary.antt =====
-- The counters of ingest/authoring/orchestrator.py, which concurrent tasks update under a lock.
pub mod Accounts
use uk_jamaat_directory.Prelude.{
  ℕ, suc, ◌+◌, ◌-◌, ◌==◌, Bool, true, false, not, ◌&&◌, Option, none, some, List, [], ◌∷◌, ◌++◌,
  length, ltb, if◌then◌else◌,
}
use uk_jamaat_directory.Prelude.Dict.{Dict}
use uk_jamaat_directory.Domain.{
  AuthoringTaskStatus, authoring_task_status_eq, AuthoringFailureCategory,
  authoring_failure_category_eq,
}
use uk_jamaat_directory.Schedules.Parse.{Text}

-- The clock, the phase and the number of candidates stay as they are here.
pub record OrchestrationSummary : Type 0 where
  pub preflight_ok : ℕ
  pub authored : ℕ
  pub deployed : ℕ
  pub skipped_review : ℕ
  pub failed : ℕ
  pub errors : List Text
  pub errors_total : ℕ
  pub failure_categories : Dict AuthoringFailureCategory ℕ
  pub processed : ℕ
  pub in_flight : ℕ
  pub preflight_done : ℕ
  pub preflight_filtered : ℕ

abbrev pub max_tracked_errors : ℕ
max_tracked_errors = 50

abbrev pub behind_first : {A : Type 0} → List A → List A
behind_first [] = []
behind_first (x ∷ xs) = xs

-- `deque(maxlen=...).append`
unfoldable pub append_error : Text → List Text → List Text
append_error e errors =
    if ltb (length errors) max_tracked_errors
    then errors ++ e ∷ []
    else behind_first (errors ++ e ∷ [])

-- `d[category] = d.get(category, 0) + 1`
unfoldable pub count_category :
    AuthoringFailureCategory → Dict AuthoringFailureCategory ℕ → Dict AuthoringFailureCategory ℕ
count_category category [] = (category, 1) ∷ []
count_category category ((k, n) ∷ d) =
    let rest = count_category category d in if k == category then (k, suc n) ∷ d else (k, n) ∷ rest

abbrev with_error : Option Text → OrchestrationSummary → OrchestrationSummary
with_error none s = s
with_error (some e) s = record s {
  errors = append_error e s.errors;
  errors_total = suc s.errors_total;
}

abbrev with_category : Option AuthoringFailureCategory → OrchestrationSummary → OrchestrationSummary
with_category none s = s
with_category (some category) s = record s {
  failure_categories = count_category category s.failure_categories;
}

-- The first section of `_process_one` under the lock.
unfoldable pub begin_source : OrchestrationSummary → OrchestrationSummary
begin_source s = record s { in_flight = suc s.in_flight }

-- The status of a task, in the counters.
unfoldable pub count_status :
    AuthoringTaskStatus
    → Option AuthoringFailureCategory
    → OrchestrationSummary
    → OrchestrationSummary
count_status AuthoringTaskStatus.deployed category s = record s {
  deployed = suc s.deployed;
  preflight_ok = suc s.preflight_ok;
}
count_status AuthoringTaskStatus.awaiting_review category s = record s {
  authored = suc s.authored;
  preflight_ok = suc s.preflight_ok;
}
count_status AuthoringTaskStatus.skipped_review category s = record s {
  skipped_review = suc s.skipped_review;
  preflight_ok = suc s.preflight_ok;
}
count_status AuthoringTaskStatus.failed category s =
    with_category category (record s { failed = suc s.failed })
count_status AuthoringTaskStatus.queued category s =
    with_category category (record s { failed = suc s.failed })
count_status AuthoringTaskStatus.discovering category s =
    with_category category (record s { failed = suc s.failed })
count_status AuthoringTaskStatus.authoring category s =
    with_category category (record s { failed = suc s.failed })

abbrev one_processed : OrchestrationSummary → OrchestrationSummary
one_processed s = record s { processed = suc s.processed }

abbrev pub one_landed : OrchestrationSummary → OrchestrationSummary
one_landed s = record s { in_flight = s.in_flight - 1 }

-- The last section of `_process_one` under the lock.
unfoldable pub finish_source :
    AuthoringTaskStatus
    → Option AuthoringFailureCategory
    → Option Text
    → OrchestrationSummary
    → OrchestrationSummary
finish_source status category error s =
    with_error error (one_processed (count_status status category (one_landed s)))

-- The verdict of `_check` in `_batch_preflight` on a source that it drops.
pub record Verdict : Type 0 where
  pub is_skipped : Bool
  pub category : AuthoringFailureCategory
  pub error : Text

abbrev count_verdict : Bool → OrchestrationSummary → OrchestrationSummary
count_verdict true s = record s { skipped_review = suc s.skipped_review }
count_verdict false s = record s { failed = suc s.failed }

abbrev one_filtered : OrchestrationSummary → OrchestrationSummary
one_filtered s = record s {
  preflight_filtered = suc s.preflight_filtered;
  processed = suc s.processed;
}

abbrev one_done : OrchestrationSummary → OrchestrationSummary
one_done s = record s { preflight_done = suc s.preflight_done }

-- An error text of the code is never empty here.
unfoldable pub checked_source : Option Verdict → OrchestrationSummary → OrchestrationSummary
checked_source none s = one_done s
checked_source (some verdict) s = with_error (some verdict.error) (
    with_category (some verdict.category)
      (count_verdict verdict.is_skipped (one_filtered (one_done s))))

-- A crash in the preflight of one source, which keeps it.
unfoldable pub crashed_check : Text → OrchestrationSummary → OrchestrationSummary
crashed_check error s = with_error (some error) s

abbrev pub empty_summary : OrchestrationSummary
empty_summary = record {
  preflight_ok = 0;
  authored = 0;
  deployed = 0;
  skipped_review = 0;
  failed = 0;
  errors = [];
  errors_total = 0;
  failure_categories = [];
  processed = 0;
  in_flight = 0;
  preflight_done = 0;
  preflight_filtered = 0;
}
