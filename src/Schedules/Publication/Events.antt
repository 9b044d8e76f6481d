-- ===== src/Schedules/Publication/Events.antt =====
-- The rows and events of a publication accounted for: `publish_candidates` of
-- schedules/publication.py from the loading of the previous version to the removals.
use uk_jamaat_directory.Prelude.{
  ◌+◌, ◌≡◌, refl, sym, ap, subst, ◌∙◌, ◌==◌, nat_eq, Bool, true, false, not, ◌&&◌, Option, none,
  some, List, [], ◌∷◌, ◌++◌, map, select, select_eq, length, any, any-false-and, Bool-cases, inl,
  inr, if◌then◌else◌,
}
use uk_jamaat_directory.Prelude.Dict.{Dict, insert, from_rows}
use uk_jamaat_directory.Models.Calendar.{Instant, World}
use uk_jamaat_directory.Models.Rows.{DatasetVersion, ScheduleOccurrence}
use uk_jamaat_directory.Models.Session.{Db}
use uk_jamaat_directory.Schedules.Types.{PublishResult}
use uk_jamaat_directory.Schedules.Queries.{Filters, publish_filters_active}
use uk_jamaat_directory.Schedules.Keys.{OccurrenceKey, occurrence_key_from_row, occurrence_key_eq}
use uk_jamaat_directory.Schedules.Freshness.{in_version, has_public_source}
use uk_jamaat_directory.Schedules.Publication.Select.{PublishableCandidate}
use uk_jamaat_directory.Schedules.Publication.Loops.{
  Run, start, passed_over, carry_one, carry_forward, emit_events, removal_event, emit_removals,
}
use uk_jamaat_directory.Schedules.Publication.{batch_run, final_run, load_all_previous_occurrences}
use uk_jamaat_directory.Schedules.Publication.Accounting.{
  has_row, InStep, IsFiled, carry_forward-InStep, publish_batch-InStep, emit_events-InStep,
}
use uk_jamaat_directory.Schedules.Publication.Scope.{Entry, with_removals, emit_removals_lem}

insert-IsFiled :
    (key : OccurrenceKey) (o : ScheduleOccurrence) (d : Dict OccurrenceKey ScheduleOccurrence)
    → occurrence_key_from_row o ≡ key
    → IsFiled d
    → IsFiled (insert key o d)
insert-IsFiled key o [] q h = (q, tt)
insert-IsFiled key o ((j, p) ∷ d) q h = elim (Bool-cases (j == key)) [
  | inl t ↦ rw t (q ∙ sym ((occurrence_key_eq.beq_iff j key).0 t), h.1)
  | inr n ↦ rw n (h.0, insert-IsFiled key o d q h.1)
]

from_rows-IsFiled :
    (rows : List ScheduleOccurrence) (d : Dict OccurrenceKey ScheduleOccurrence)
    → IsFiled d
    → IsFiled (from_rows occurrence_key_from_row (λ o. o) rows d)
from_rows-IsFiled [] d h = h
from_rows-IsFiled (o ∷ rows) d h =
    from_rows-IsFiled rows _ (insert-IsFiled (occurrence_key_from_row o) o d refl h)

pub load_all_previous_occurrences-IsFiled :
    (previous : Option DatasetVersion) (db : Db)
    → IsFiled (load_all_previous_occurrences previous db)
unfolding load_all_previous_occurrences
load_all_previous_occurrences-IsFiled none db = tt
load_all_previous_occurrences-IsFiled (some version) db =
    from_rows-IsFiled
      (select (λ o. in_version (some version.id) o && has_public_source db o) db.occurrences) [] tt

-- Carrying rows forward writes no event.
carry_one_events :
    (version : DatasetVersion) (now : Instant) (f : Filters) (scope : Bool) (key : OccurrenceKey)
    (previous : ScheduleOccurrence) (run : Run)
    → let after = carry_one f version now scope key previous run in
      (after.db.events ≡ run.db.events) × (after.result.change_events ≡ run.result.change_events)
unfolding carry_one
carry_one_events version now f scope key previous run =
    elim (Bool-cases (passed_over f version now scope key previous run)) [
      | inl p ↦ rw p (refl, refl)
      | inr p ↦ rw p (refl, refl)
    ]

carry_forward_events :
    (version : DatasetVersion) (now : Instant) (f : Filters) (scope : Bool)
    (d : Dict OccurrenceKey ScheduleOccurrence) (run : Run)
    → let after = carry_forward f version now scope d run in
      (after.db.events ≡ run.db.events) × (after.result.change_events ≡ run.result.change_events)
unfolding carry_forward
carry_forward_events version now f scope [] run = (refl, refl)
carry_forward_events version now f scope ((key, previous) ∷ d) run =
    let one = carry_one_events version now f scope key previous run in
    let rest =
      carry_forward_events version now f scope d (carry_one f version now scope key previous run) in
    (rest.0 ∙ one.0, rest.1 ∙ one.1)

-- The events of the removals, from a run whose final keys are in step with its rows.
removals_accounting :
    (version : DatasetVersion) (d : Dict OccurrenceKey ScheduleOccurrence) (run : Run)
    → InStep version.id run
    → let gone = select (λ (e : Entry). not (has_row version.id e.0 run.db.occurrences)) d in
      emit_removals version d run ≡ with_removals version gone run
removals_accounting version d run h =
    emit_removals_lem version d run
    ∙ ap (λ x. with_removals version x run) (select_eq _ _ d (λ e. ap not (h e.0)))

-- The version has no row yet.
abbrev pub IsUnused : DatasetVersion → Db → Type 0
IsUnused version db = any (in_version (some version.id)) db.occurrences ≡ false

module _ (w : World) (f : Filters) (version : DatasetVersion)
    (fp : Dict OccurrenceKey ScheduleOccurrence) (filed : IsFiled fp) where
  second_carry : Run → Run
  second_carry run =
      if publish_filters_active f then carry_forward f version w.now true fp run else run

  second_carry_lem :
      (run : Run)
      → InStep version.id run
      → InStep version.id (second_carry run)
        × ((second_carry run).db.events ≡ run.db.events)
        × ((second_carry run).result.change_events ≡ run.result.change_events)
  unfolding second_carry
  second_carry_lem run h = elim (Bool-cases (publish_filters_active f)) [
    | inl t ↦
        let e = carry_forward_events version w.now f true fp run in
        rw t (carry_forward-InStep version w.now f true fp run filed h, e.0, e.1)
    | inr n ↦ rw n (h, refl, refl)
  ]

  pub batch_run-InStep :
      (items : List PublishableCandidate) (r : PublishResult) (db : Db)
      → IsUnused version db
      → InStep version.id (batch_run w f version fp items r db)
  unfolding batch_run
  batch_run-InStep items r db unused =
      let first : InStep version.id (start r db) =
        λ k. sym (any-false-and (in_version (some version.id)) _ db.occurrences unused) in
      publish_batch-InStep version w.now fp filed items _
        (elim (Bool-cases (publish_filters_active f)) [
          | inl t ↦ rw t (carry_forward-InStep version w.now f false fp (start r db) filed first)
          | inr n ↦ rw n first
        ])

  -- The row events and the removal events that a run adds to those of its batch.
  abbrev pub IsAccounted : Run → Run → Type 0
  IsAccounted batch run =
      let gone = select (λ (e : Entry). not (has_row version.id e.0 run.db.occurrences)) fp in
      InStep version.id run
      × (run.db.events
          ≡ (batch.db.events ++ batch.pending)
            ++ map (λ (e : Entry). removal_event version e.1) gone)
      × (run.result.change_events ≡ batch.result.change_events + length batch.pending + length gone)

  removals-IsAccounted :
      (batch run : Run)
      → InStep version.id run
      → run.db.events ≡ (emit_events batch).db.events
      → run.result.change_events ≡ (emit_events batch).result.change_events
      → IsAccounted batch (emit_removals version fp run)
  unfolding emit_events
  removals-IsAccounted batch run h e n =
      let gone = select (λ (o : Entry). not (has_row version.id o.0 run.db.occurrences)) fp in
      subst (IsAccounted batch) (sym (removals_accounting version fp run h)) (
        h,
        ap (λ x. x ++ map (λ (o : Entry). removal_event version o.1) gone) e,
        ap (λ x. x + length gone) n,
      )

  final_run_steps :
      (batch : Run)
      → final_run w f version fp batch ≡ emit_removals version fp (second_carry (emit_events batch))
  unfolding final_run second_carry
  final_run_steps batch = refl

  -- For a version with no row yet, and a previous version filed by key, a publication writes one
  -- removal event for each previous occurrence whose key has no row in the new version, behind the
  -- events of its batch, and no other; its final keys are the keys of the rows of the new version,
  -- and its count of events grows by the number of events that it writes.
  pub final_run_accounting :
      (items : List PublishableCandidate) (r : PublishResult) (db : Db)
      → IsUnused version db
      → let batch = batch_run w f version fp items r db in
        IsAccounted batch (final_run w f version fp batch)
  final_run_accounting items r db unused =
      let batch = batch_run w f version fp items r db in
      let step =
        second_carry_lem (emit_events batch)
          (emit_events-InStep version.id batch (batch_run-InStep items r db unused)) in
      subst (IsAccounted batch) (sym (final_run_steps batch))
        (removals-IsAccounted batch (second_carry (emit_events batch)) step.0 step.1 step.2)
