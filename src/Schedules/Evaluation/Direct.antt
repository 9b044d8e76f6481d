-- ===== src/Schedules/Evaluation/Direct.antt =====
-- The batch context changes nothing: an evaluation in the context of a batch is the evaluation
-- from the rows of the tables.
use uk_jamaat_directory.Prelude.{◌≡◌, List, Member, nat_eq}
use uk_jamaat_directory.Prelude.Dict.{Distinct}
use uk_jamaat_directory.Models.Calendar.{World}
use uk_jamaat_directory.Models.Rows.{ScheduleCandidate}
use uk_jamaat_directory.Models.Session.{Db, get_source}
use uk_jamaat_directory.Schedules.Types.{Settings}
use uk_jamaat_directory.Schedules.Prefetch.{build_validation_batch_context}
use uk_jamaat_directory.Schedules.Prefetch.Lookup.{
  IsKeyed, context_source, context_kind, kind_of_run,
}
use uk_jamaat_directory.Schedules.Prefetch.Duplicates.{rivals, context_duplicates}
use uk_jamaat_directory.Schedules.Evaluation.{
  EvaluationMode, CandidateEvaluation, evaluate_with, evaluate_candidate_in_context,
}

-- The evaluation of a candidate from the tables, with no batch.
unfoldable pub evaluate :
    Settings → World → EvaluationMode → ScheduleCandidate → Db → CandidateEvaluation
evaluate cfg w mode c db =
    evaluate_with cfg w mode c (get_source c.source_id db) (kind_of_run db c.extraction_run_id)
      (rivals c db)

-- In a database with keyed tables, the evaluation of a candidate in the context built for any batch
-- of distinct candidates that holds it is its evaluation from the tables: its own source, the kind
-- of its own run, and the other active candidates with its natural key in the whole table.
pub evaluate_candidate_in_context-build :
    (cfg : Settings) (w : World) (mode : EvaluationMode) (db : Db) (c : ScheduleCandidate)
    (cs : List ScheduleCandidate)
    → IsKeyed db
    → Distinct (λ (x : ScheduleCandidate). x.id) cs
    → Member c cs
    → evaluate_candidate_in_context cfg w mode c (build_validation_batch_context cs db)
      ≡ evaluate cfg w mode c db
unfolding evaluate_candidate_in_context evaluate
evaluate_candidate_in_context-build cfg w mode db c cs keyed d m =
    rw (context_source db keyed c cs m)
      (rw (context_kind db keyed c cs d m) (rw (context_duplicates db c cs d m)))
