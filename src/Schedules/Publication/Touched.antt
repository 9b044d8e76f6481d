-- ===== src/Schedules/Publication/Touched.antt =====
-- The sources that a publication touches are those of its items and of the previous rows
-- (schedules/publication.py).
use uk_jamaat_directory.Prelude.{
  ◌≡◌, Bool, true, false, Option, none, some, List, [], ◌∷◌, contains, add, nat_eq, Bool-cases, inl,
  inr, All,
}
use uk_jamaat_directory.Prelude.Dict.{Dict}
use uk_jamaat_directory.Models.Calendar.{Time, World}
use uk_jamaat_directory.Models.Rows.{Uuid, MosqueSource, DatasetVersion, ScheduleOccurrence}
use uk_jamaat_directory.Models.Session.{Db}
use uk_jamaat_directory.Schedules.Types.{PublishResult}
use uk_jamaat_directory.Schedules.Queries.{Filters, publish_filters_active}
use uk_jamaat_directory.Schedules.Keys.{OccurrenceKey}
use uk_jamaat_directory.Schedules.Publication.Select.{PublishableCandidate}
use uk_jamaat_directory.Schedules.Publication.Loops.{
  Run, start, passed_over, carry_one, carry_forward, publish_item, publish_batch, emit_events,
}
use uk_jamaat_directory.Schedules.Publication.{batch_run, final_run}
use uk_jamaat_directory.Schedules.Publication.Scope.{Entry, emit_removals_lem}

module _ (P : Uuid → Type 0) where
  All-add : (id : Uuid) (ids : List Uuid) → P id → All P ids → All P (add id ids)
  All-add id ids p h = elim (Bool-cases (contains id ids)) [ inl t ↦ rw t h | inr n ↦ rw n (p, h) ]

  abbrev pub ItemsAre : List PublishableCandidate → Type 0
  ItemsAre items = All (λ (i : PublishableCandidate). P i.source.id) items

  abbrev pub RowsAre : Dict OccurrenceKey ScheduleOccurrence → Type 0
  RowsAre d = All (λ (e : Entry). P e.1.source_id) d

  module _ (sources : List MosqueSource) (w : World) (f : Filters) (version : DatasetVersion) where
    abbrev pub Touches : Run → Type 0
    Touches run = (run.db.sources ≡ sources) × All P run.touched

    carry_one-Touches :
        (scope : Bool) (key : OccurrenceKey) (previous : ScheduleOccurrence) (run : Run)
        → P previous.source_id
        → Touches run
        → Touches (carry_one f version w.now scope key previous run)
    unfolding carry_one
    carry_one-Touches scope key previous run p h =
        elim (Bool-cases (passed_over f version w.now scope key previous run)) [
          | inl q ↦ rw q h
          | inr q ↦ rw q (h.0, All-add previous.source_id run.touched p h.1)
        ]

    carry_forward-Touches :
        (scope : Bool) (d : Dict OccurrenceKey ScheduleOccurrence) (run : Run)
        → RowsAre d
        → Touches run
        → Touches (carry_forward f version w.now scope d run)
    unfolding carry_forward
    carry_forward-Touches scope [] run a h = h
    carry_forward-Touches scope ((key, previous) ∷ d) run a h =
        carry_forward-Touches scope d _ a.1 (carry_one-Touches scope key previous run a.0 h)

    module _ (fp : Dict OccurrenceKey ScheduleOccurrence) (rows : RowsAre fp) where
      publish_item-Touches :
          (item : PublishableCandidate) (t : Option Time) (m : Option Uuid) (run : Run)
          → P item.source.id
          → Touches run
          → Touches (publish_item version w.now fp item t m run)
      unfolding publish_item
      publish_item-Touches item none m run p h = h
      publish_item-Touches item (some t) none run p h = h
      publish_item-Touches item (some t) (some m) run p h =
          (h.0, All-add item.source.id run.touched p h.1)

      publish_batch-Touches :
          (items : List PublishableCandidate) (run : Run)
          → ItemsAre items
          → Touches run
          → Touches (publish_batch version w.now fp items run)
      unfolding publish_batch
      publish_batch-Touches [] run a h = h
      publish_batch-Touches (i ∷ items) run a h =
          publish_batch-Touches items _ a.1
            (publish_item-Touches i i.candidate.jamaat_time i.candidate.mosque_id run a.0 h)

      pub final_run-Touches :
          (items : List PublishableCandidate) (r : PublishResult) (db : Db)
          → ItemsAre items
          → db.sources ≡ sources
          → Touches (final_run w f version fp (batch_run w f version fp items r db))
      unfolding final_run batch_run emit_events
      final_run-Touches items r db a s = elim (Bool-cases (publish_filters_active f)) [
        | inl t ↦
            let kept = carry_forward-Touches false fp (start r db) rows (s, tt) in
            let batch = publish_batch-Touches items _ a kept in
            rw t (
              rw (emit_removals_lem version fp _) (
                carry_forward-Touches true fp
                  (emit_events (
                    publish_batch version w.now fp items
                      (carry_forward f version w.now false fp (start r db))))
                  rows batch))
        | inr n ↦ rw n (
            rw (emit_removals_lem version fp _)
              (publish_batch-Touches items (start r db) a (s, tt)))
      ]
