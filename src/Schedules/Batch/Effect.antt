-- ===== src/Schedules/Batch/Effect.antt =====
-- What a batch validation writes: one map over the table of candidates, with every check made
-- against the tables as they were before the batch.
use uk_jamaat_directory.Prelude.{
  ◌≡◌, refl, sym, ap, ◌∙◌, nat_eq, Bool, true, false, Option, none, some, List, [], ◌∷◌, map,
  select, if◌then◌else◌, Bool-cases, inl, inr, Member, map-Member, Member-select,
}
use uk_jamaat_directory.Prelude.Dict.{Distinct, Distinct-select, lookup}
use uk_jamaat_directory.Prelude.Tables.{save_some, save_all, save_all-select, or_old}
use uk_jamaat_directory.Models.Calendar.{World}
use uk_jamaat_directory.Models.Rows.{Uuid, MosqueSource, ScheduleCandidate}
use uk_jamaat_directory.Models.Session.{Db, get_source}
use uk_jamaat_directory.Schedules.Types.{Settings, ValidateBatchResult}
use uk_jamaat_directory.Schedules.Queries.{Filters}
use uk_jamaat_directory.Schedules.Prefetch.{ValidationBatchContext, build_validation_batch_context}
use uk_jamaat_directory.Schedules.Prefetch.Lookup.{IsKeyed, context_source}
use uk_jamaat_directory.Schedules.Evaluation.{
  EvaluationMode, CandidateEvaluation, evaluate_candidate_in_context, apply_validation_result,
}
use uk_jamaat_directory.Schedules.Evaluation.Direct.{evaluate, evaluate_candidate_in_context-build}
use uk_jamaat_directory.Schedules.Batch.{
  is_selected, validated, no_candidates, validate_found, validate_one, validate_loop,
  validate_candidates,
}

abbrev id_of : ScheduleCandidate → Uuid
id_of c = c.id

validated_id :
    (update : Bool) (e : CandidateEvaluation) (c : ScheduleCandidate)
    → (validated update e c).id ≡ c.id
unfolding apply_validation_result
validated_id true e c = refl
validated_id false e c = refl

module _ (cfg : Settings) (w : World) (update_status : Bool) where
  abbrev written_with :
      Option MosqueSource → CandidateEvaluation → ScheduleCandidate → Option ScheduleCandidate
  written_with none e c = none
  written_with (some source) e c = some (validated update_status e c)

  -- What a round writes, if it writes.
  written : ValidationBatchContext → ScheduleCandidate → Option ScheduleCandidate
  written context c =
      written_with (lookup c.source_id context.sources)
        (evaluate_candidate_in_context cfg w EvaluationMode.validate c context) c

  written_with_id :
      (found : Option MosqueSource) (e : CandidateEvaluation) (a b : ScheduleCandidate)
      → written_with found e a ≡ some b
      → b.id ≡ a.id
  written_with_id none e a b h = cc
  written_with_id (some source) e a b h =
      let r : validated update_status e a ≡ b = cc in
      ap id_of (sym r) ∙ validated_id update_status e a

  written_id :
      (context : ValidationBatchContext) (a b : ScheduleCandidate)
      → written context a ≡ some b
      → b.id ≡ a.id
  unfolding written
  written_id context a b h = written_with_id _ _ a b h

  validate_found_candidates :
      (context : ValidationBatchContext) (found : Option MosqueSource) (c : ScheduleCandidate)
      (s : ValidateBatchResult × Db)
      → (validate_found cfg w update_status context found c s).1 ≡ record (s.1) {
        candidates =
            save_some id_of
              (written_with found
                (evaluate_candidate_in_context cfg w EvaluationMode.validate c context)
                c)
              s.1.candidates;
      }
  unfolding validate_found
  validate_found_candidates context none c s = refl
  validate_found_candidates context (some source) c s = refl

  validate_loop_candidates :
      (context : ValidationBatchContext) (cs : List ScheduleCandidate)
      (s : ValidateBatchResult × Db)
      → (validate_loop cfg w update_status context cs s).1
        ≡ record (s.1) { candidates = save_all id_of (written context) cs s.1.candidates }
  unfolding validate_loop validate_one written
  validate_loop_candidates context [] s = refl
  validate_loop_candidates context (c ∷ cs) s =
      validate_loop_candidates context cs (validate_one cfg w update_status context c s)
      ∙ ap
          (λ (db : Db). record db {
            candidates = save_all id_of (written context) cs db.candidates;
          })
          (validate_found_candidates context (lookup c.source_id context.sources) c s)

  -- The evaluated row, or the row itself where its source is missing.
  abbrev pub settled :
      Option MosqueSource → CandidateEvaluation → ScheduleCandidate → ScheduleCandidate
  settled none e c = c
  settled (some source) e c = validated update_status e c

  -- A candidate after a batch: selected and with a source it carries the issues and, where statuses
  -- are updated, the status of its evaluation.
  abbrev pub revalidated : Filters → List Uuid → Db → ScheduleCandidate → ScheduleCandidate
  revalidated f source_ids db c =
      if is_selected f source_ids c
      then settled (get_source c.source_id db) (evaluate cfg w EvaluationMode.validate c db) c
      else c

  or_old-written_with :
      (found : Option MosqueSource) (e : CandidateEvaluation) (x : ScheduleCandidate)
      → or_old id_of (written_with found e) (written_with found e x) x ≡ settled found e x
  or_old-written_with none e x = refl
  or_old-written_with (some source) e x = refl

  written-direct :
      (p : ScheduleCandidate → Bool) (db : Db) (x : ScheduleCandidate)
      → IsKeyed db
      → Distinct id_of db.candidates
      → Member x (select p db.candidates)
      → written (build_validation_batch_context (select p db.candidates) db) x
        ≡ written_with (get_source x.source_id db) (evaluate cfg w EvaluationMode.validate x db) x
  unfolding written
  written-direct p db x keyed d m =
      let cs = select p db.candidates in
      rw (context_source db keyed x cs m) (
        rw (
          evaluate_candidate_in_context-build cfg w EvaluationMode.validate db x cs keyed
            (Distinct-select id_of p db.candidates d) m))

  written-settled :
      (p : ScheduleCandidate → Bool) (db : Db) (x : ScheduleCandidate)
      → IsKeyed db
      → Distinct id_of db.candidates
      → Member x (select p db.candidates)
      → let context = build_validation_batch_context (select p db.candidates) db in
        or_old id_of (written context) (written context x) x
        ≡ settled (get_source x.source_id db) (evaluate cfg w EvaluationMode.validate x db) x
  written-settled p db x keyed d m =
      ap
        (λ o.
          or_old id_of (written (build_validation_batch_context (select p db.candidates) db)) o x)
        (written-direct p db x keyed d m)
      ∙ or_old-written_with (get_source x.source_id db)
          (evaluate cfg w EvaluationMode.validate x db) x

  -- In a database with keyed tables, a batch validation changes the candidates only, and each of
  -- them as if alone: one that is selected and has a source gets the issues and, where statuses are
  -- updated, the status of its evaluation against the tables before the batch; any other candidate
  -- stays as it was.
  pub validate_candidates-map :
      (f : Filters) (source_ids : List Uuid) (db : Db)
      → IsKeyed db
      → Distinct id_of db.candidates
      → (validate_candidates cfg w f source_ids update_status db).1
        ≡ record db { candidates = map (revalidated f source_ids db) db.candidates }
  unfolding validate_candidates
  validate_candidates-map f source_ids db keyed d =
      let p = is_selected f source_ids in
      let cs = select p db.candidates in
      let context = build_validation_batch_context cs db in
      validate_loop_candidates context cs (no_candidates, db)
      ∙ ap (λ (l : List ScheduleCandidate). record db { candidates = l })
          (save_all-select id_of (written context) (written_id context) p db.candidates d
            ∙ map-Member db.candidates (λ x m. elim (Bool-cases (p x)) [
              | inl t ↦ rw t (written-settled p db x keyed d (Member-select p m t))
              | inr n ↦ rw n
            ]))
