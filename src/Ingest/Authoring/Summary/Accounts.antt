-- ===== src/Ingest/Authoring/Summary/Accounts.antt =====
-- In whatever order concurrent tasks update the summary, its counters agree
-- (ingest/authoring/orchestrator.py).
use uk_jamaat_directory.Prelude.{
  ℕ, suc, ◌+◌, ◌≤◌, ◌≡◌, refl, ap, Bool, true, false, Option, none, some, List, [], ◌∷◌, ◌++◌, ◌==◌,
  length, length-append, ltb, arith, Bool-cases, inl, inr,
}
use uk_jamaat_directory.Prelude.Dict.{Dict}
use uk_jamaat_directory.Domain.{
  AuthoringTaskStatus, AuthoringFailureCategory, authoring_failure_category_eq,
}
use uk_jamaat_directory.Schedules.Parse.{Text}
use uk_jamaat_directory.Ingest.Authoring.Summary.{
  OrchestrationSummary, max_tracked_errors, behind_first, append_error, count_category, with_error,
  with_category, begin_source, count_status, one_landed, one_processed, finish_source, Verdict,
  count_verdict, one_filtered, one_done, checked_source, crashed_check, empty_summary,
}

-- The updates in the order of the lock, with the number of sources that began and did not finish.
pub data Updates : ℕ → OrchestrationSummary → Type 0 where
  nothing : Updates 0 empty_summary
  begins : {n : ℕ} {s : OrchestrationSummary} → Updates n s → Updates (suc n) (begin_source s)
  finishes :
      {n : ℕ} {s : OrchestrationSummary} (status : AuthoringTaskStatus)
      (category : Option AuthoringFailureCategory) (error : Option Text)
      → Updates (suc n) s
      → Updates n (finish_source status category error s)
  checks :
      {n : ℕ} {s : OrchestrationSummary} (verdict : Option Verdict)
      → Updates n s
      → Updates n (checked_source verdict s)
  crashes :
      {n : ℕ} {s : OrchestrationSummary} (error : Text)
      → Updates n s
      → Updates n (crashed_check error s)

-- The sum of the counts by category.
abbrev pub total : Dict AuthoringFailureCategory ℕ → ℕ
total [] = 0
total ((k, n) ∷ d) = n + total d

pub record IsAccounted (n : ℕ) (s : OrchestrationSummary) : Type 0 where
  pub in_flight : s.in_flight ≡ n
  pub processed : s.processed ≡ s.deployed + s.authored + s.skipped_review + s.failed
  pub errors : length s.errors ≤ max_tracked_errors
  pub errors_total : length s.errors ≤ s.errors_total
  pub categories : total s.failure_categories ≤ s.failed + s.preflight_filtered
  pub filtered : s.preflight_filtered ≤ s.preflight_done

total-count_category :
    (category : AuthoringFailureCategory) (d : Dict AuthoringFailureCategory ℕ)
    → total (count_category category d) ≡ suc (total d)
unfolding count_category
total-count_category category [] = omega arith
total-count_category category ((k, n) ∷ d) = elim (Bool-cases (k == category)) [
  | inl t ↦ rw t (omega arith)
  | inr f ↦ rw f (omega (arith, total-count_category category d))
]

length-behind_first :
    (e : Text) (errors : List Text) → length (behind_first (errors ++ e ∷ [])) ≡ length errors
length-behind_first e [] = refl
length-behind_first e (x ∷ errors) = omega (arith, length-append errors (e ∷ []))

length-append_error :
    (e : Text) (errors : List Text)
    → length errors ≤ max_tracked_errors
    → (length (append_error e errors) ≤ max_tracked_errors)
      × (length (append_error e errors) ≤ suc (length errors))
unfolding append_error
length-append_error e errors h = elim (Bool-cases (ltb (length errors) max_tracked_errors)) [
  | inl t ↦ let q = length-append errors (e ∷ []) in rw t (ground arith, omega arith)
  | inr f ↦ let q = length-behind_first e errors in rw f (omega arith, omega arith)
]

with_error-IsAccounted :
    {n : ℕ} (error : Option Text) (s : OrchestrationSummary)
    → IsAccounted n s
    → IsAccounted n (with_error error s)
with_error-IsAccounted none s h = h
with_error-IsAccounted (some e) s h =
    let (few, grown) = length-append_error e s.errors h.errors in
    record {
      in_flight = h.in_flight;
      processed = h.processed;
      errors = few;
      errors_total = omega (arith, grown, h.errors_total);
      categories = h.categories;
      filtered = h.filtered;
    }

-- The accounts amid an update: `late` sources are in the counters of the statuses before they count
-- as processed, and `extra` failures are not in the categories.
record IsCounting (n late extra : ℕ) (s : OrchestrationSummary) : Type 0 where
  in_flight : s.in_flight ≡ n
  processed : late + s.processed ≡ s.deployed + s.authored + s.skipped_review + s.failed
  errors : length s.errors ≤ max_tracked_errors
  errors_total : length s.errors ≤ s.errors_total
  categories : extra + total s.failure_categories ≤ s.failed + s.preflight_filtered
  filtered : s.preflight_filtered ≤ s.preflight_done

counted : {n extra : ℕ} (s : OrchestrationSummary) → IsCounting n 0 extra s → IsAccounted n s
counted s h = record {
  in_flight = h.in_flight;
  processed = omega (arith, h.processed);
  errors = h.errors;
  errors_total = h.errors_total;
  categories = omega (arith, h.categories);
  filtered = h.filtered;
}

with_category-IsCounting :
    {n late : ℕ} (category : Option AuthoringFailureCategory) (s : OrchestrationSummary)
    → IsCounting n late 1 s
    → IsCounting n late 0 (with_category category s)
with_category-IsCounting none s h = record {
  in_flight = h.in_flight;
  processed = omega (arith, h.processed);
  errors = h.errors;
  errors_total = h.errors_total;
  categories = omega (arith, h.categories);
  filtered = h.filtered;
}
with_category-IsCounting (some category) s h = record {
  in_flight = h.in_flight;
  processed = omega (arith, h.processed);
  errors = h.errors;
  errors_total = h.errors_total;
  categories = omega (arith, h.categories, total-count_category category s.failure_categories);
  filtered = h.filtered;
}

-- A status is counted once, and as a failure at most once.
count_failed-IsCounting :
    {n : ℕ} (s : OrchestrationSummary)
    → IsAccounted n s
    → IsCounting n 1 1 (record s { failed = suc s.failed })
count_failed-IsCounting s h = record {
  in_flight = h.in_flight;
  processed = omega (arith, h.processed);
  errors = h.errors;
  errors_total = h.errors_total;
  categories = omega (arith, h.categories);
  filtered = h.filtered;
}

count_status-IsCounting :
    {n : ℕ} (status : AuthoringTaskStatus) (category : Option AuthoringFailureCategory)
    (s : OrchestrationSummary)
    → IsAccounted n s
    → IsCounting n 1 0 (count_status status category s)
unfolding count_status
count_status-IsCounting AuthoringTaskStatus.deployed category s h = record {
  in_flight = h.in_flight;
  processed = omega (arith, h.processed);
  errors = h.errors;
  errors_total = h.errors_total;
  categories = omega (arith, h.categories);
  filtered = h.filtered;
}
count_status-IsCounting AuthoringTaskStatus.awaiting_review category s h = record {
  in_flight = h.in_flight;
  processed = omega (arith, h.processed);
  errors = h.errors;
  errors_total = h.errors_total;
  categories = omega (arith, h.categories);
  filtered = h.filtered;
}
count_status-IsCounting AuthoringTaskStatus.skipped_review category s h = record {
  in_flight = h.in_flight;
  processed = omega (arith, h.processed);
  errors = h.errors;
  errors_total = h.errors_total;
  categories = omega (arith, h.categories);
  filtered = h.filtered;
}
count_status-IsCounting AuthoringTaskStatus.failed category s h =
    with_category-IsCounting category (record s { failed = suc s.failed })
      (count_failed-IsCounting s h)
count_status-IsCounting AuthoringTaskStatus.queued category s h =
    with_category-IsCounting category (record s { failed = suc s.failed })
      (count_failed-IsCounting s h)
count_status-IsCounting AuthoringTaskStatus.discovering category s h =
    with_category-IsCounting category (record s { failed = suc s.failed })
      (count_failed-IsCounting s h)
count_status-IsCounting AuthoringTaskStatus.authoring category s h =
    with_category-IsCounting category (record s { failed = suc s.failed })
      (count_failed-IsCounting s h)

one_landed-IsAccounted :
    {n : ℕ} (s : OrchestrationSummary) → IsAccounted (suc n) s → IsAccounted n (one_landed s)
one_landed-IsAccounted s h = record {
  in_flight = omega (arith, h.in_flight);
  processed = omega (arith, h.processed);
  errors = h.errors;
  errors_total = h.errors_total;
  categories = omega (arith, h.categories);
  filtered = h.filtered;
}

one_processed-IsCounting :
    {n extra : ℕ} (s : OrchestrationSummary)
    → IsCounting n 1 extra s
    → IsCounting n 0 extra (one_processed s)
one_processed-IsCounting s h = record {
  in_flight = h.in_flight;
  processed = omega (arith, h.processed);
  errors = h.errors;
  errors_total = h.errors_total;
  categories = omega (arith, h.categories);
  filtered = h.filtered;
}

finish_source-IsAccounted :
    {n : ℕ} (status : AuthoringTaskStatus) (category : Option AuthoringFailureCategory)
    (error : Option Text) (s : OrchestrationSummary)
    → IsAccounted (suc n) s
    → IsAccounted n (finish_source status category error s)
unfolding finish_source
finish_source-IsAccounted status category error s h =
    let counting =
      count_status-IsCounting status category (one_landed s) (one_landed-IsAccounted s h) in
    with_error-IsAccounted error _ (counted _ (one_processed-IsCounting _ counting))

one_done-IsAccounted :
    {n : ℕ} (s : OrchestrationSummary) → IsAccounted n s → IsAccounted n (one_done s)
one_done-IsAccounted s h = record {
  in_flight = h.in_flight;
  processed = omega (arith, h.processed);
  errors = h.errors;
  errors_total = h.errors_total;
  categories = omega (arith, h.categories);
  filtered = omega (arith, h.filtered);
}

-- A source that is filtered out and counted, before its category is.
count_filtered-IsCounting :
    {n : ℕ} (is_skipped : Bool) (s : OrchestrationSummary)
    → IsAccounted n s
    → IsCounting n 0 1 (count_verdict is_skipped (one_filtered (one_done s)))
count_filtered-IsCounting true s h = record {
  in_flight = h.in_flight;
  processed = omega (arith, h.processed);
  errors = h.errors;
  errors_total = h.errors_total;
  categories = omega (arith, h.categories);
  filtered = omega (arith, h.filtered);
}
count_filtered-IsCounting false s h = record {
  in_flight = h.in_flight;
  processed = omega (arith, h.processed);
  errors = h.errors;
  errors_total = h.errors_total;
  categories = omega (arith, h.categories);
  filtered = omega (arith, h.filtered);
}

checked_source-IsAccounted :
    {n : ℕ} (verdict : Option Verdict) (s : OrchestrationSummary)
    → IsAccounted n s
    → IsAccounted n (checked_source verdict s)
unfolding checked_source
checked_source-IsAccounted none s h = one_done-IsAccounted s h
checked_source-IsAccounted (some verdict) s h = with_error-IsAccounted (some verdict.error) _ (
    counted _ (
      with_category-IsCounting (some verdict.category) _
        (count_filtered-IsCounting verdict.is_skipped s h)))

begin_source-IsAccounted :
    {n : ℕ} (s : OrchestrationSummary) → IsAccounted n s → IsAccounted (suc n) (begin_source s)
unfolding begin_source
begin_source-IsAccounted s h = record {
  in_flight = ap suc h.in_flight;
  processed = omega (arith, h.processed);
  errors = h.errors;
  errors_total = h.errors_total;
  categories = omega (arith, h.categories);
  filtered = h.filtered;
}

empty_summary-IsAccounted : IsAccounted 0 empty_summary
empty_summary-IsAccounted = record {
  in_flight = refl;
  processed = refl;
  errors = omega arith;
  errors_total = omega arith;
  categories = omega arith;
  filtered = omega arith;
}

-- In whatever order the updates of concurrent tasks take the lock, if every finish follows a begin
-- of its own: the sources in flight are those that began and did not finish, the processed ones are
-- the deployed, authored, skipped and failed ones together, the categories count no more than the
-- failures and the filtered sources, and the list of errors has at most 50 entries and at most as
-- many as there were errors.
pub Updates-IsAccounted : {n : ℕ} {s : OrchestrationSummary} → Updates n s → IsAccounted n s
unfolding crashed_check
Updates-IsAccounted Updates.nothing = empty_summary-IsAccounted
Updates-IsAccounted (Updates.begins u) = begin_source-IsAccounted _ (Updates-IsAccounted u)
Updates-IsAccounted (Updates.finishes status category error u) =
    finish_source-IsAccounted status category error _ (Updates-IsAccounted u)
Updates-IsAccounted (Updates.checks verdict u) =
    checked_source-IsAccounted verdict _ (Updates-IsAccounted u)
Updates-IsAccounted (Updates.crashes error u) =
    with_error-IsAccounted (some error) _ (Updates-IsAccounted u)
