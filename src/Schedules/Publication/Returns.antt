-- ===== src/Schedules/Publication/Returns.antt =====
-- When `publish_candidates` of schedules/publication.py returns, and when the unique constraint
-- stops it.
use uk_jamaat_directory.Prelude.{
  ◌+◌, ◌≡◌, refl, sym, ap, subst, ◌∙◌, nat_eq, Bool, true, false, not, ◌&&◌, ◌||◌, Option, none,
  some, List, [], ◌∷◌, ◌++◌, any, update_where, select, Bool-cases, inl, inr, All, if◌then◌else◌,
}
use uk_jamaat_directory.Prelude.Dict.{Dict}
use uk_jamaat_directory.Domain.{FreshnessStatus}
use uk_jamaat_directory.Models.Calendar.{Date, World}
use uk_jamaat_directory.Models.Rows.{Uuid, MosqueSource, DatasetVersion, ScheduleOccurrence}
use uk_jamaat_directory.Models.Session.{
  Db, ok, err, integrity_error, raise_if, ◌>>=◌, ◌>>◌, gets, pure,
}
use uk_jamaat_directory.Models.Triples.{bind-ok}
use uk_jamaat_directory.Schedules.Types.{Settings, PublishResult}
use uk_jamaat_directory.Schedules.Queries.{Filters, candidate_filters, publish_filters_active}
use uk_jamaat_directory.Schedules.Keys.{OccurrenceKey}
use uk_jamaat_directory.Schedules.Dataset.{
  get_latest_published_version, create_published_dataset_version, patches_of_day, name_taken,
  next_patch, new_version,
}
use uk_jamaat_directory.Schedules.Freshness.{
  recompute_source_health, refresh_occurrence_freshness_for_source, in_version,
}
use uk_jamaat_directory.Schedules.Freshness.Frame.{
  IsLinked, recompute_source_health_returns, with_status, refresh_returns,
}
use uk_jamaat_directory.Schedules.Publication.Select.{
  PublishableCandidate, select_publishable_candidates,
}
use uk_jamaat_directory.Schedules.Publication.Loops.{
  Run, carry_forward, emit_events, clashes, occurrences_unique,
}
use uk_jamaat_directory.Schedules.Publication.{
  is_approved, batch_run, final_run, publish_rows, load_all_previous_occurrences, update_manifest,
  refresh_sources, version_or_new, finish_publish, publish_into, publish_selected,
  publish_candidates,
}
use uk_jamaat_directory.Schedules.Publication.Accounting.{IsFiled}
use uk_jamaat_directory.Schedules.Publication.Scope.{emit_removals_lem}
use uk_jamaat_directory.Schedules.Publication.Events.{
  IsUnused, batch_run-InStep, load_all_previous_occurrences-IsFiled,
}
use uk_jamaat_directory.Schedules.Publication.Conflicts.{
  conflicts, batch_run_unique, carry_forward_unique,
}
use uk_jamaat_directory.Schedules.Publication.Whole.{target}
use uk_jamaat_directory.Schedules.Publication.Touched.{ItemsAre, RowsAre, final_run-Touches}

module _ (w : World) (f : Filters) (version : DatasetVersion)
    (fp : Dict OccurrenceKey ScheduleOccurrence) (filed : IsFiled fp)
    (items : List PublishableCandidate) (r : PublishResult) (db : Db) (unused : IsUnused version db)
    (unique : occurrences_unique db.occurrences ≡ true) where
  -- Into a version with no row yet, in a database that meets the unique constraint, a batch is
  -- written if and only if no two of its items have one key and, under a filter, no item has the key
  -- of a previous row out of the filter's scope; else the constraint is broken and it raises.
  pub publish_rows_outcome :
      (conflicts f fp items ≡ false
        → publish_rows w f version fp items r db
          ≡ ok (final_run w f version fp (batch_run w f version fp items r db), db))
      × (conflicts f fp items ≡ true → publish_rows w f version fp items r db ≡ err integrity_error)
  unfolding publish_rows
  publish_rows_outcome =
      let q = batch_run_unique w f version fp filed items r db unused unique in
      ((λ none_clash. rw (q, none_clash) refl), (λ clash. rw (q, clash) refl))

  final_run_unique :
      conflicts f fp items ≡ false
      → occurrences_unique
          (final_run w f version fp (batch_run w f version fp items r db)).db.occurrences
        ≡ true
  unfolding final_run emit_events
  final_run_unique none_clash =
      let batch = batch_run w f version fp items r db in
      let q : occurrences_unique batch.db.occurrences ≡ true =
        batch_run_unique w f version fp filed items r db unused unique ∙ ap not none_clash in
      let step = batch_run-InStep w f version fp filed items r db unused in
      elim (Bool-cases (publish_filters_active f)) [
        | inr n ↦ rw n (rw (emit_removals_lem version fp (emit_events batch)) q)
        | inl t ↦ rw t (
            rw
              (emit_removals_lem version fp
                (carry_forward f version w.now true fp (emit_events batch)))
              (carry_forward_unique version w.now f true fp (emit_events batch) filed step ∙ q))
      ]

-- A new status breaks no key.
clashes-update :
    (a b : ScheduleOccurrence) (p : ScheduleOccurrence → Bool) (s : FreshnessStatus)
    → clashes (if p a then with_status s a else a) b ≡ clashes a b
clashes-update a b p s = elim (Bool-cases (p a)) [ inl t ↦ rw t refl | inr n ↦ rw n refl ]

any-clashes-update :
    (a : ScheduleOccurrence) (p : ScheduleOccurrence → Bool) (s : FreshnessStatus)
    (os : List ScheduleOccurrence)
    → any (clashes a) (update_where p (with_status s) os) ≡ any (clashes a) os
any-clashes-update a p s [] = refl
any-clashes-update a p s (o ∷ os) = elim (Bool-cases (p o)) [
  | inl t ↦ rw t (ap (λ b. clashes a o || b) (any-clashes-update a p s os))
  | inr n ↦ rw n (ap (λ b. clashes a o || b) (any-clashes-update a p s os))
]

unique-update :
    (p : ScheduleOccurrence → Bool) (s : FreshnessStatus) (os : List ScheduleOccurrence)
    → occurrences_unique (update_where p (with_status s) os) ≡ occurrences_unique os
unfolding occurrences_unique
unique-update p s [] = refl
unique-update p s (o ∷ os) = elim (Bool-cases (p o)) [
  | inl t ↦ rw t (rw (any-clashes-update (with_status s o) p s os, unique-update p s os) refl)
  | inr n ↦ rw n (rw (any-clashes-update o p s os, unique-update p s os) refl)
]

module _ (cfg : Settings) (w : World) where
  -- Where every source is linked, the updates of health and status return.
  refresh_sources_returns :
      (ids : List Uuid) (db : Db)
      → All (IsLinked db.sources) ids
      → occurrences_unique db.occurrences ≡ true
      → (db' : Db) × (refresh_sources cfg w ids db ≡ ok (tt, db'))
        × (occurrences_unique db'.occurrences ≡ true)
  unfolding refresh_sources
  refresh_sources_returns [] db linked u = (db, refl, u)
  refresh_sources_returns (id ∷ ids) db linked u =
      let (health, db₁, e₁, same) = recompute_source_health_returns cfg w id db linked.0 in
      let u₁ : occurrences_unique db₁.occurrences ≡ true = ap occurrences_unique same.1 ∙ u in
      let (n, db₂, e₂, s₂, u₂) =
        refresh_returns (λ os. occurrences_unique os ≡ true) id db₁ u₁
          (λ p s. unique-update p s db₁.occurrences ∙ u₁) in
      let l₂ : All (IsLinked db₂.sources) ids =
        subst (λ (ss : List MosqueSource). All (IsLinked ss) ids) (sym (s₂ ∙ same.0)) linked.1 in
      let (db₃, e₃, u₃) = refresh_sources_returns ids db₂ l₂ u₂ in
      (
        db₃,
        bind-ok (recompute_source_health cfg w id)
            (λ _. refresh_occurrence_freshness_for_source id >> refresh_sources cfg w ids) db e₁
            (bind-ok (refresh_occurrence_freshness_for_source id) (λ _. refresh_sources cfg w ids)
              db₁ e₂ e₃),
        u₃,
      )

  finish_publish_returns :
      (version : DatasetVersion) (run : Run) (db : Db)
      → All (IsLinked run.db.sources) run.touched
      → occurrences_unique run.db.occurrences ≡ true
      → (db' : Db) × (finish_publish cfg w version run db ≡ ok (run.result, db'))
  unfolding finish_publish update_manifest
  finish_publish_returns version run db linked u =
      let (db', e, u') =
        refresh_sources_returns run.touched (update_manifest version run run.db) linked u in
      (
        db',
        bind-ok (refresh_sources cfg w run.touched)
            (λ _. gets (λ (d : Db). d.occurrences) >>= λ occurrences.
              raise_if (not (occurrences_unique occurrences)) integrity_error >> pure run.result)
            (update_manifest version run run.db) e (rw u' refl),
      )

-- A version is given, or the next name of the day is free.
abbrev pub IsAvailable : Option DatasetVersion → Date → Db → Type 0
IsAvailable none day db = name_taken day (next_patch (patches_of_day day db.versions)) db ≡ false
IsAvailable (some version) day db = Unit

version_or_new_returns :
    (given : Option DatasetVersion) (day : Date) (w : World) (db : Db)
    → IsAvailable given day db
    → (version : DatasetVersion) × (db' : Db) × (version_or_new given day w db ≡ ok (version, db'))
      × (version.id ≡ target given db)
      × (db'.sources ≡ db.sources)
      × (db'.occurrences ≡ db.occurrences)
unfolding version_or_new create_published_dataset_version
version_or_new_returns (some version) day w db a = (version, db, refl, refl, refl, refl)
version_or_new_returns none day w db a =
    let version = new_version db.next_id day (next_patch (patches_of_day day db.versions)) w.now in
    (
      version,
      record db { versions = db.versions ++ version ∷ []; next_id = db.next_id + 1 },
      rw a refl,
      refl,
      refl,
      refl,
    )

-- What a publication needs in order to return: a name for its version, which has no row yet,
-- occurrences that meet the unique constraint, a batch without conflicts, and, since the health of
-- every touched source is recomputed, items and previous rows from linked sources.
pub record CanPublish (cfg : Settings) (w : World) (day : Date) (f : Filters)
    (given : Option DatasetVersion) (db : Db) (items : List PublishableCandidate) : Type 0 where
  pub available : IsAvailable given day db
  pub unused : any (in_version (some (target given db))) db.occurrences ≡ false
  pub unique : occurrences_unique db.occurrences ≡ true
  pub no_conflict :
      conflicts f (load_all_previous_occurrences (get_latest_published_version db) db) items ≡ false
  pub items_linked : ItemsAre (IsLinked db.sources) items
  pub rows_linked :
      RowsAre
        (IsLinked db.sources)
        (load_all_previous_occurrences (get_latest_published_version db) db)

module _ (cfg : Settings) (w : World) (day : Date) (f : Filters) (given : Option DatasetVersion)
    (db : Db) where
  publish_selected_returns :
      (items : List PublishableCandidate) (r : PublishResult)
      → CanPublish cfg w day f given db items
      → (result : PublishResult) × (db' : Db) × (publish_selected cfg w day f given (items, r) db
          ≡ ok (result, db'))
  unfolding publish_selected publish_into
  publish_selected_returns [] r can = (_, db, refl)
  publish_selected_returns (p ∷ items) r can =
      let fp = load_all_previous_occurrences (get_latest_published_version db) db in
      let filed = load_all_previous_occurrences-IsFiled (get_latest_published_version db) db in
      let (version, db₁, e₁, id, s, o) = version_or_new_returns given day w db can.available in
      let result = record r { dataset_version = some version.version } in
      let run = final_run w f version fp (batch_run w f version fp (p ∷ items) result db₁) in
      let unused : IsUnused version db₁ = rw (id, o) can.unused in
      let unique : occurrences_unique db₁.occurrences ≡ true = rw o can.unique in
      let written =
        (publish_rows_outcome w f version fp filed (p ∷ items) result db₁ unused unique).0
          can.no_conflict in
      let touched =
        final_run-Touches (IsLinked db.sources) db.sources w f version fp can.rows_linked
          (p ∷ items) result db₁ can.items_linked s in
      let linked : All (IsLinked run.db.sources) run.touched =
        subst (λ (ss : List MosqueSource). All (IsLinked ss) run.touched) (sym touched.0)
          touched.1 in
      let end = finish_publish_returns cfg w version run db₁ linked (
        final_run_unique w f version fp filed (p ∷ items) result db₁ unused unique
          can.no_conflict) in
      (
        run.result,
        end.0,
        bind-ok (version_or_new given day w) (publish_into cfg w f fp (p ∷ items) r) db e₁ (
            bind-ok (publish_rows w f version fp (p ∷ items) result) (finish_publish cfg w version)
              db₁ written end.1),
      )

  -- A publication returns if its version can be created and has no row yet, the occurrences meet the
  -- unique constraint, no two selected candidates have one key, nor, under a filter, a candidate and
  -- a previous row out of its scope, and the sources of the selected candidates and of the previous
  -- rows are stored and linked to a mosque.
  pub publish_candidates_returns :
      CanPublish cfg w day f given db
        (select_publishable_candidates cfg w
          (select (λ c. is_approved c && candidate_filters f c) db.candidates)
          db).0
      → (result : PublishResult) × (db' : Db) × (publish_candidates cfg w day f given db
          ≡ ok (result, db'))
  unfolding publish_candidates
  publish_candidates_returns can = publish_selected_returns _ _ can
