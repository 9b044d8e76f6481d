-- ===== src/Schedules/Publication/Gates.antt =====
-- What passes the gates at publish time (`_select_publishable_candidates` of
-- schedules/publication.py).
use uk_jamaat_directory.Prelude.{
  ◌≡◌, refl, sym, ap, ◌∙◌, nat_eq, Bool, true, false, Option, none, some, List, [], ◌∷◌, All,
  All-append, Member, All-Member, String,
}
use uk_jamaat_directory.Prelude.Dict.{Distinct}
use uk_jamaat_directory.Models.Calendar.{World}
use uk_jamaat_directory.Models.Rows.{Uuid, Mosque, MosqueSource, ScheduleCandidate}
use uk_jamaat_directory.Models.Session.{Db, get_source, get_mosque}
use uk_jamaat_directory.Schedules.Types.{Settings, is_valid}
use uk_jamaat_directory.Schedules.Gates.{can_publish_candidate}
use uk_jamaat_directory.Schedules.Validation.Acceptable.{
  IsAcceptable, validate_candidate-IsAcceptable,
}
use uk_jamaat_directory.Schedules.Prefetch.{build_validation_batch_context}
use uk_jamaat_directory.Schedules.Prefetch.Lookup.{
  IsKeyed, context_source, context_mosque, kind_of_run,
}
use uk_jamaat_directory.Schedules.Prefetch.Duplicates.{rivals}
use uk_jamaat_directory.Schedules.Evaluation.{EvaluationMode, CandidateEvaluation, evaluate_with}
use uk_jamaat_directory.Schedules.Evaluation.Direct.{evaluate, evaluate_candidate_in_context-build}
use uk_jamaat_directory.Schedules.Publication.Select.{
  PublishableCandidate, Selection, no_result, gate, select_with, select_linked, select_loop,
  select_publishable_candidates,
}

-- A candidate that may be published: it is linked to a known mosque, its source exists and allows
-- public redistribution, an AI extraction is allowed by the settings, and every check passes.
pub record IsPublishable (cfg : Settings) (w : World) (db : Db) (item : PublishableCandidate)
    : Type 0 where
  pub mosque_found :
      (m : Uuid) → item.candidate.mosque_id ≡ some m → get_mosque m db ≡ some item.mosque
  pub source_found : get_source item.candidate.source_id db ≡ some item.source
  pub allowed :
      can_publish_candidate cfg item.source (kind_of_run db item.candidate.extraction_run_id) ≡ none
  pub acceptable : IsAcceptable cfg w item.candidate (rivals item.candidate db)

gate-All :
    (P : PublishableCandidate → Type 0) (item : PublishableCandidate) (reason : Option String)
    (valid : Bool) (s : Selection)
    → All P s.0
    → (reason ≡ none → valid ≡ true → P item)
    → All P (gate item reason valid s).0
gate-All P item (some reason) valid s h pass = h
gate-All P item none false s h pass = h
gate-All P item none true s h pass = All-append P s.0 (item ∷ []) h (pass refl refl, tt)

module _ (cfg : Settings) (w : World) (db : Db) (keyed : IsKeyed db) (c : ScheduleCandidate) where
  evaluate_passes :
      (source : MosqueSource) (mosque : Mosque)
      → get_source c.source_id db ≡ some source
      → ((m : Uuid) → c.mosque_id ≡ some m → get_mosque m db ≡ some mosque)
      → (evaluate cfg w EvaluationMode.publish c db).policy_reason ≡ none
      → is_valid (evaluate cfg w EvaluationMode.publish c db).validation ≡ true
      → IsPublishable cfg w db (record { candidate = c; source = source; mosque = mosque })
  unfolding evaluate evaluate_with
  evaluate_passes source mosque s m r v =
      let kind = kind_of_run db c.extraction_run_id in
      let found : evaluate cfg w EvaluationMode.publish c db
          ≡ evaluate_with cfg w EvaluationMode.publish c (some source) kind (rivals c db) =
        rw s in
      record {
        mosque_found = m;
        source_found = s;
        allowed = ap (λ (e : CandidateEvaluation). e.policy_reason) (sym found) ∙ r;
        acceptable =
            (validate_candidate-IsAcceptable cfg w c (rivals c db) kind).0
              (ap (λ (e : CandidateEvaluation). is_valid e.validation) (sym found) ∙ v);
      }

  module _ (cs : List ScheduleCandidate) (d : Distinct (λ (x : ScheduleCandidate). x.id) cs)
      (m : Member c cs) where
    select_with-All :
        (source : Option MosqueSource) (mosque : Option Mosque) (mosque_id : Uuid) (s : Selection)
        → get_source c.source_id db ≡ source
        → c.mosque_id ≡ some mosque_id
        → get_mosque mosque_id db ≡ mosque
        → All (IsPublishable cfg w db) s.0
        → All
            (IsPublishable cfg w db)
            (select_with cfg w (build_validation_batch_context cs db) c source mosque s).0
    unfolding select_with
    select_with-All none mosque mosque_id s fs link fm h = h
    select_with-All (some source) none mosque_id s fs link fm h = h
    select_with-All (some source) (some mosque) mosque_id s fs link fm h =
        rw (evaluate_candidate_in_context-build cfg w EvaluationMode.publish db c cs keyed d m) (
          gate-All (IsPublishable cfg w db) _ _ _ s h
            (evaluate_passes source mosque fs (λ i l. let q : i ≡ mosque_id = cc in rw q fm)))

    select_linked-All :
        (mosque_id : Option Uuid) (s : Selection)
        → c.mosque_id ≡ mosque_id
        → All (IsPublishable cfg w db) s.0
        → All
            (IsPublishable cfg w db)
            (select_linked cfg w (build_validation_batch_context cs db) c mosque_id s).0
    unfolding select_linked
    select_linked-All none s q h = h
    select_linked-All (some mosque_id) s q h = rw (context_source db keyed c cs m) (
        rw (context_mosque db keyed c cs m q) (
          select_with-All (get_source c.source_id db) (get_mosque mosque_id db) mosque_id s refl q
            refl h))

module _ (cfg : Settings) (w : World) (db : Db) (keyed : IsKeyed db) (cs : List ScheduleCandidate)
    (d : Distinct (λ (x : ScheduleCandidate). x.id) cs) where
  select_loop-All :
      (rest : List ScheduleCandidate) (s : Selection)
      → All (λ c. Member c cs) rest
      → All (IsPublishable cfg w db) s.0
      → All
          (IsPublishable cfg w db)
          (select_loop cfg w (build_validation_batch_context cs db) rest s).0
  unfolding select_loop
  select_loop-All [] s ms h = h
  select_loop-All (c ∷ rest) s ms h =
      select_loop-All rest _ ms.1
        (select_linked-All cfg w db keyed c cs d ms.0 c.mosque_id s refl h)

  -- Of distinct candidates, in a database with keyed tables, every one that is selected for
  -- publication is linked to a mosque of the table if to any, its source exists and allows public
  -- redistribution, its extraction kind is allowed, and it passes every check against the tables.
  pub select_publishable_candidates-IsPublishable :
      All (IsPublishable cfg w db) (select_publishable_candidates cfg w cs db).0
  unfolding select_publishable_candidates
  select_publishable_candidates-IsPublishable =
      select_loop-All cs ([], no_result) (All-Member cs) tt
