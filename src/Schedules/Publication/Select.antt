-- ===== src/Schedules/Publication/Select.antt =====
-- `_select_publishable_candidates` of schedules/publication.py: the candidates of a batch that pass
-- the gates at publish time, with the counters and messages of the others.
use uk_jamaat_directory.Prelude.{
  ◌+◌, nat_eq, String, Bool, true, false, Option, none, some, List, [], ◌∷◌, ◌++◌,
}
use uk_jamaat_directory.Prelude.Dict.{lookup}
use uk_jamaat_directory.Models.Calendar.{World}
use uk_jamaat_directory.Models.Rows.{Uuid, Mosque, MosqueSource, ScheduleCandidate}
use uk_jamaat_directory.Models.Session.{Db}
use uk_jamaat_directory.Schedules.Types.{Settings, PublishResult, is_valid}
use uk_jamaat_directory.Schedules.Prefetch.{ValidationBatchContext, build_validation_batch_context}
use uk_jamaat_directory.Schedules.Evaluation.{EvaluationMode, evaluate_candidate_in_context}

pub record PublishableCandidate : Type 0 where
  pub candidate : ScheduleCandidate
  pub source : MosqueSource
  pub mosque : Mosque

abbrev pub no_result : PublishResult
no_result = record {
  dataset_version = none;
  published = 0;
  skipped_policy = 0;
  skipped_validation = 0;
  carried_forward = 0;
  removed_occurrences = 0;
  change_events = 0;
  errors = [];
}

abbrev pub add_error : String → PublishResult → PublishResult
add_error text r = record r { errors = r.errors ++ text ∷ [] }

abbrev pub skip_validation : PublishResult → PublishResult
skip_validation r = record r { skipped_validation = r.skipped_validation + 1 }

abbrev pub skip_policy : PublishResult → PublishResult
skip_policy r = record r { skipped_policy = r.skipped_policy + 1 }

abbrev pub Selection : Type 0
Selection = List PublishableCandidate × PublishResult

-- The two gates: the reason of a policy refusal, and whether the checks pass. A policy refusal
-- always has a reason, so that `if evaluation.policy_reason` always holds.
abbrev pub gate : PublishableCandidate → Option String → Bool → Selection → Selection
gate item (some reason) valid (items, r) = (items, add_error reason (skip_policy r))
gate item none false (items, r) =
    (items, add_error "validation failed at publish time" (skip_validation r))
gate item none true (items, r) = (items ++ item ∷ [], r)

module _ (cfg : Settings) (w : World) (context : ValidationBatchContext) where
  unfoldable pub select_with :
      ScheduleCandidate → Option MosqueSource → Option Mosque → Selection → Selection
  select_with c none mosque (items, r) = (items, skip_validation r)
  select_with c (some source) none (items, r) = (items, skip_validation r)
  select_with c (some source) (some mosque) s =
      let evaluation = evaluate_candidate_in_context cfg w EvaluationMode.publish c context in
      gate (record { candidate = c; source = source; mosque = mosque }) evaluation.policy_reason
        (is_valid evaluation.validation) s

  unfoldable pub select_linked : ScheduleCandidate → Option Uuid → Selection → Selection
  unfolding select_with
  select_linked c none (items, r) = (items, skip_validation r)
  select_linked c (some mosque_id) s =
      select_with c (lookup c.source_id context.sources) (lookup mosque_id context.mosques) s

  unfoldable pub select_loop : List ScheduleCandidate → Selection → Selection
  select_loop [] s = s
  select_loop (c ∷ cs) s = select_loop cs (select_linked c c.mosque_id s)

unfoldable pub select_publishable_candidates :
    Settings → World → List ScheduleCandidate → Db → Selection
select_publishable_candidates cfg w candidates db =
    select_loop cfg w (build_validation_batch_context candidates db) candidates ([], no_result)
