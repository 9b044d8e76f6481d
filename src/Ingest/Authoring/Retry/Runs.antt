-- ===== src/Ingest/Authoring/Retry/Runs.antt =====
-- Runs of the orchestrator over one source come to an end (ingest/authoring/orchestrator.py).
use uk_jamaat_directory.Prelude.{
  ℕ, suc, ◌≤◌, ◌<◌, ◌≡◌, ◌≢◌, refl, ◌∙◌, Bool, true, false, not, ◌&&◌, ◌||◌, ◌⊎◌, inl, inr, ◌==◌,
  Option, none, some, [], ltb, arith, Bool-cases,
}
use uk_jamaat_directory.Domain.{
  AuthoringTaskStatus, AuthoringTaskStatus-discrete, authoring_task_status_eq,
  AuthoringFailureCategory, authoring_failure_category_eq, permanent_failure_categories,
}
use uk_jamaat_directory.Models.Rows.{Uuid}
use uk_jamaat_directory.Ingest.Authoring.Retry.{
  AuthoringTask, RetryPolicy, or_zero, is_among, task_eligible_for_retry, is_settled,
  SourceProcessResult, Deployment, attempted, deployed_task, record_result, record_crash,
  persist_preflight_outcome,
}

-- The states that `_process_source` returns in.
pub data IsFinished : AuthoringTaskStatus → Type 0 where
  as_failed : IsFinished AuthoringTaskStatus.failed
  as_skipped : IsFinished AuthoringTaskStatus.skipped_review
  as_authored : IsFinished AuthoringTaskStatus.awaiting_review

-- What one run that is saved does to the task of a source that it takes up.
pub data Run (source_id : Uuid) : Option AuthoringTask → AuthoringTask → Type 0 where
  processed :
      {task : Option AuthoringTask} (dry_run : Bool) (result : SourceProcessResult)
      (deployment : Deployment)
      → IsFinished result.status
      → Run source_id task (record_result dry_run source_id result deployment task)
  crashed : {task : Option AuthoringTask} → Run source_id task (record_crash source_id task)
  filtered :
      {task : Option AuthoringTask} (status : AuthoringTaskStatus)
      (category : AuthoringFailureCategory)
      → IsFinished status
      → Run source_id task (persist_preflight_outcome source_id status category task)

-- A number of runs over a source that has no task at first, each of which took it up.
pub data Runs (policy : RetryPolicy) (source_id : Uuid) : ℕ → Option AuthoringTask → Type 0 where
  start : Runs policy source_id 0 none
  next :
      {n : ℕ} {before : Option AuthoringTask} {after : AuthoringTask}
      → Runs policy source_id n before
      → is_settled policy before ≡ false
      → Run source_id before after
      → Runs policy source_id (suc n) (some after)

abbrev attempts_of : Option AuthoringTask → ℕ
attempts_of none = 0
attempts_of (some task) = or_zero task.attempts

-- The states that a run leaves a task in.
abbrev is_left : AuthoringTaskStatus → Bool
is_left status =
    status == AuthoringTaskStatus.failed
    || (status == AuthoringTaskStatus.deployed
        || (status == AuthoringTaskStatus.awaiting_review
            || status == AuthoringTaskStatus.skipped_review))

IsFinished-is_left : {status : AuthoringTaskStatus} → IsFinished status → is_left status ≡ true
unfolding AuthoringTaskStatus-discrete
IsFinished-is_left as_failed = refl
IsFinished-is_left as_skipped = refl
IsFinished-is_left as_authored = refl

-- A task counts one more attempt, in a state that a run leaves.
abbrev Counted : Option AuthoringTask → AuthoringTask → Type 0
Counted before after =
    (or_zero after.attempts ≡ suc (attempts_of before)) × (is_left after.status ≡ true)

attempted-Counted :
    (source_id : Uuid) (status : AuthoringTaskStatus) (category : Option AuthoringFailureCategory)
    (task : Option AuthoringTask)
    → is_left status ≡ true
    → Counted task (attempted source_id status category task)
attempted-Counted source_id status category none h = (refl, h)
attempted-Counted source_id status category (some task) h = (refl, h)

deployed-Counted :
    (before : Option AuthoringTask) (deployment : Deployment) (task : AuthoringTask)
    → or_zero task.attempts ≡ suc (attempts_of before)
    → Counted before (deployed_task deployment task)
unfolding AuthoringTaskStatus-discrete
deployed-Counted before Deployment.deploys task h = (h, refl)
deployed-Counted before Deployment.refuses task h = (h, refl)
deployed-Counted before Deployment.raises task h = (h, refl)

record_result-Counted :
    (dry_run : Bool) (source_id : Uuid) (result : SourceProcessResult) (deployment : Deployment)
    (task : Option AuthoringTask)
    → IsFinished result.status
    → Counted task (record_result dry_run source_id result deployment task)
unfolding record_result AuthoringTaskStatus-discrete
record_result-Counted dry_run source_id result deployment task f =
    let kept =
      attempted-Counted source_id result.status result.failure_category task
        (IsFinished-is_left f) in
    elim (Bool-cases (not dry_run && result.status == AuthoringTaskStatus.awaiting_review)) [
      | inr same ↦ rw same kept
      | inl deploy ↦ rw deploy (deployed-Counted task deployment _ kept.0)
    ]

Run-Counted :
    {source_id : Uuid} {before : Option AuthoringTask} {after : AuthoringTask}
    → Run source_id before after
    → Counted before after
unfolding record_crash persist_preflight_outcome
Run-Counted {source_id} (processed {task = task} dry_run result deployment f) =
    record_result-Counted dry_run source_id result deployment task f
Run-Counted {source_id} (crashed {task = task}) =
    attempted-Counted source_id AuthoringTaskStatus.failed _ task (IsFinished-is_left as_failed)
Run-Counted {source_id} (filtered {task = task} status category f) =
    attempted-Counted source_id status _ task (IsFinished-is_left f)

-- A policy that retries nothing on demand.
pub record IsPlain (policy : RetryPolicy) : Type 0 where
  pub no_failed : policy.retry_failed ≡ false
  pub no_categories : policy.retry_categories ≡ []

module _ (policy : RetryPolicy) (plain : IsPlain policy) where
  is_among_none :
      (category : Option AuthoringFailureCategory)
      → is_among category policy.retry_categories ≡ false
  is_among_none none = refl
  is_among_none (some category) = rw plain.no_categories refl

  settled_eq :
      (task : AuthoringTask)
      → is_left task.status ≡ true
      → is_settled policy (some task) ≡ (
          not (task.status == AuthoringTaskStatus.failed)
          || (is_among task.failure_category permanent_failure_categories
              || not (ltb (or_zero task.attempts) policy.max_attempts)))
  unfolding is_settled task_eligible_for_retry
  settled_eq task h =
      let c = is_among_none task.failure_category in let f = plain.no_failed in ground arith

  abbrev State : ℕ → Option AuthoringTask → Type 0
  State n none = n ≡ 0
  State n (some task) = (or_zero task.attempts ≡ n) × (is_left task.status ≡ true)

  next_attempt-State :
      {n : ℕ} (before : Option AuthoringTask) (after : AuthoringTask)
      → State n before
      → Counted before after
      → State (suc n) (some after)
  next_attempt-State none after h c = let a = c.0 in (omega arith, c.1)
  next_attempt-State (some task) after h c = let a = c.0 in let b = h.0 in (omega arith, c.1)

  runs-State :
      {source_id : Uuid} {n : ℕ} {task : Option AuthoringTask}
      → Runs policy source_id n task
      → State n task
  runs-State start = refl
  runs-State (next {n = n} {before = before} {after = after} runs unsettled run) =
      next_attempt-State before after (runs-State runs) (Run-Counted run)

  taken_up :
      {n : ℕ} (before : Option AuthoringTask)
      → State n before
      → is_settled policy before ≡ false
      → (n ≡ 0) ⊎ (n < policy.max_attempts)
  taken_up none h unsettled = inl h
  taken_up (some task) h unsettled =
      let e = settled_eq task h.1 in let a = h.0 in inr (ground arith)

  runs_bound :
      {source_id : Uuid} {n : ℕ} {task : Option AuthoringTask}
      → Runs policy source_id n task
      → (n ≤ 1) ⊎ (n ≤ policy.max_attempts)
  runs_bound start = inl (omega arith)
  runs_bound (next {n = n} {before = before} runs unsettled run) =
      elim (taken_up before (runs-State runs) unsettled) [
        | inl zero_runs ↦ inl (omega arith)
        | inr few ↦ inr (omega arith)
      ]

  -- The final states: a success or a skip is never taken up again.
  settled_success :
      (task : AuthoringTask)
      → is_left task.status ≡ true
      → task.status ≢ AuthoringTaskStatus.failed
      → is_settled policy (some task) ≡ true
  settled_success task h n =
      let e = settled_eq task h in
      elim (Bool-cases (task.status == AuthoringTaskStatus.failed)) [
        | inl t ↦
            absurd
              (n ((authoring_task_status_eq.beq_iff task.status AuthoringTaskStatus.failed).0 t))
        | inr f ↦ e ∙ ground arith
      ]

  left-cases :
      (status : AuthoringTaskStatus)
      → is_left status ≡ true
      → (status ≡ AuthoringTaskStatus.failed)
        ⊎ ((status ≡ AuthoringTaskStatus.deployed)
            ⊎ ((status ≡ AuthoringTaskStatus.awaiting_review)
                ⊎ (status ≡ AuthoringTaskStatus.skipped_review)))
  unfolding AuthoringTaskStatus-discrete
  left-cases AuthoringTaskStatus.queued h = cc
  left-cases AuthoringTaskStatus.discovering h = cc
  left-cases AuthoringTaskStatus.authoring h = cc
  left-cases AuthoringTaskStatus.failed h = inl refl
  left-cases AuthoringTaskStatus.deployed h = inr (inl refl)
  left-cases AuthoringTaskStatus.awaiting_review h = inr (inr (inl refl))
  left-cases AuthoringTaskStatus.skipped_review h = inr (inr (inr refl))

  -- Without a retry on demand, the runs that take up a source and save its task are at most
  -- `max_attempts`, or one, and the task counts them. The last one leaves the task failed, deployed,
  -- waiting for review or skipped for review. A task that has not failed, that has had its attempts,
  -- or whose failure is permanent, keeps its source out of the next run.
  pub runs_end :
      {source_id : Uuid} {n : ℕ} {task : AuthoringTask}
      → Runs policy source_id n (some task)
      → ((n ≤ 1) ⊎ (n ≤ policy.max_attempts))
        × (or_zero task.attempts ≡ n)
        × ((task.status ≡ AuthoringTaskStatus.failed)
            ⊎ ((task.status ≡ AuthoringTaskStatus.deployed)
                ⊎ ((task.status ≡ AuthoringTaskStatus.awaiting_review)
                    ⊎ (task.status ≡ AuthoringTaskStatus.skipped_review))))
        × (task.status ≢ AuthoringTaskStatus.failed → is_settled policy (some task) ≡ true)
        × (policy.max_attempts ≤ n → is_settled policy (some task) ≡ true)
        × (is_among task.failure_category permanent_failure_categories ≡ true
            → is_settled policy (some task) ≡ true)
  runs_end {n = n} {task = task} runs =
      let s = runs-State runs in
      let a = s.0 in
      let e = settled_eq task s.1 in
      (
        runs_bound runs,
        a,
        left-cases task.status s.1,
        settled_success task s.1,
        (λ h. ground arith),
        (λ h. ground arith),
      )
