-- ===== src/Schedules/Batch/Counts.antt =====
-- The counters that a batch validation returns account for every candidate that it selects.
use uk_jamaat_directory.Prelude.{
  ◌≡◌, ◌+◌, nat_eq, Bool, true, false, Option, none, some, List, [], ◌∷◌, select, length, arith,
}
use uk_jamaat_directory.Prelude.Dict.{lookup}
use uk_jamaat_directory.Models.Calendar.{World}
use uk_jamaat_directory.Models.Rows.{Uuid, MosqueSource, ScheduleCandidate}
use uk_jamaat_directory.Models.Session.{Db}
use uk_jamaat_directory.Schedules.Types.{Settings, ValidateBatchResult}
use uk_jamaat_directory.Schedules.Queries.{Filters}
use uk_jamaat_directory.Schedules.Prefetch.{ValidationBatchContext}
use uk_jamaat_directory.Schedules.Batch.{
  is_selected, tally, no_candidates, validate_found, validate_one, validate_loop,
  validate_candidates,
}

-- With statuses updated every candidate that is examined falls under one count.
abbrev IsBalanced : Bool → ValidateBatchResult → Type 0
IsBalanced true r = r.examined ≡ r.approved + r.rejected + r.pending + r.skipped
IsBalanced false r = (r.approved ≡ 0) × (r.rejected ≡ 0) × (r.pending ≡ 0)

module _ (cfg : Settings) (w : World) (context : ValidationBatchContext) where
  validate_found_counts :
      (update : Bool) (found : Option MosqueSource) (c : ScheduleCandidate)
      (s : ValidateBatchResult × Db)
      → IsBalanced update s.0
      → IsBalanced update (validate_found cfg w update context found c s).0
        × ((validate_found cfg w update context found c s).0.examined ≡ s.0.examined + 1)
  unfolding validate_found tally
  validate_found_counts true none c s h = ground arith
  validate_found_counts true (some source) c s h = ground arith
  validate_found_counts false none c s h = ground arith
  validate_found_counts false (some source) c s h = ground arith

  validate_loop_counts :
      (update : Bool) (cs : List ScheduleCandidate) (s : ValidateBatchResult × Db)
      → IsBalanced update s.0
      → IsBalanced update (validate_loop cfg w update context cs s).0
        × ((validate_loop cfg w update context cs s).0.examined ≡ s.0.examined + length cs)
  unfolding validate_loop validate_one
  validate_loop_counts update [] s h = (h, omega arith)
  validate_loop_counts update (c ∷ cs) s h =
      let one = validate_found_counts update (lookup c.source_id context.sources) c s h in
      let rest = validate_loop_counts update cs (validate_one cfg w update context c s) one.0 in
      (rest.0, omega (arith, one.1, rest.1))

-- A batch validation examines every candidate that its filters select; where it updates statuses,
-- each of them is counted as approved, rejected, pending or skipped, and as one of these only.
pub validate_candidates_counts :
    (cfg : Settings) (w : World) (f : Filters) (source_ids : List Uuid) (db : Db)
    → let r = (validate_candidates cfg w f source_ids true db).0 in
      (r.examined ≡ length (select (is_selected f source_ids) db.candidates))
      × (r.examined ≡ r.approved + r.rejected + r.pending + r.skipped)
unfolding validate_candidates
validate_candidates_counts cfg w f source_ids db =
    let counts =
      validate_loop_counts cfg w _ true (select (is_selected f source_ids) db.candidates)
        (no_candidates, db) (omega arith) in
    (omega (arith, counts.1), counts.0)
