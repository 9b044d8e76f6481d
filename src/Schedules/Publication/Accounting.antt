-- ===== src/Schedules/Publication/Accounting.antt =====
-- The set of final keys in step with the rows of the new version, through every loop of
-- schedules/publication.py.
use uk_jamaat_directory.Prelude.{
  ◌≡◌, refl, sym, ap, ◌∙◌, ◌==◌, nat_eq, Bool, true, ◌&&◌, ◌||◌, Option, none, some, List, [], ◌∷◌,
  ◌++◌, any, any-append, contains, add, arith, Bool-cases, inl, inr, beq_refl, beq_sym, All, Eq,
}
use uk_jamaat_directory.Prelude.Dict.{Dict, lookup}
use uk_jamaat_directory.Models.Calendar.{Instant, Time}
use uk_jamaat_directory.Models.Rows.{Uuid, DatasetVersion, ScheduleOccurrence}
use uk_jamaat_directory.Schedules.Queries.{Filters}
use uk_jamaat_directory.Schedules.Keys.{
  OccurrenceKey, occurrence_key, occurrence_key_from_row, occurrence_key_eq,
}
use uk_jamaat_directory.Schedules.Freshness.{in_version}
use uk_jamaat_directory.Schedules.Publication.Select.{PublishableCandidate}
use uk_jamaat_directory.Schedules.Publication.Loops.{
  Run, passed_over, carry_one, carry_forward, occurrence_changed, batch_occurrence, publish_item,
  publish_batch, emit_events,
}

-- Some row of the version has the key.
abbrev pub has_row : Uuid → OccurrenceKey → List ScheduleOccurrence → Bool
has_row version_id k occurrences =
    any (λ o. in_version (some version_id) o && occurrence_key_from_row o == k) occurrences

-- The final keys are the keys of the rows of the version.
abbrev pub InStep : Uuid → Run → Type 0
InStep version_id run =
    (k : OccurrenceKey) → contains k run.final_keys ≡ has_row version_id k run.db.occurrences

-- The dict of previous rows files each row under its own key.
abbrev pub IsFiled : Dict OccurrenceKey ScheduleOccurrence → Type 0
IsFiled d = All (λ (e : OccurrenceKey × ScheduleOccurrence). occurrence_key_from_row e.1 ≡ e.0) d

pub contains-add {ℓ} :
    {A : Type ℓ} ⦃e : Eq A⦄ (k key : A) (ks : List A)
    → contains k (add key ks) ≡ (k == key || contains k ks)
contains-add ⦃e⦄ k key ks = elim (Bool-cases (contains key ks)) [
  | inr n ↦ rw n
  | inl t ↦ rw t (elim (Bool-cases (k == key)) [
    | inr n ↦ rw n
    | inl q ↦ rw ((e.beq_iff k key).0 q, beq_refl key) (rw t)
  ])
]

-- One more row of the version, with its key added, keeps the two in step.
InStep-row :
    (version_id : Uuid) (key : OccurrenceKey) (keys : List OccurrenceKey) (o : ScheduleOccurrence)
    (occurrences : List ScheduleOccurrence)
    → in_version (some version_id) o ≡ true
    → occurrence_key_from_row o ≡ key
    → ((k : OccurrenceKey) → contains k keys ≡ has_row version_id k occurrences)
    → (k : OccurrenceKey) → contains k (add key keys) ≡ has_row version_id k (occurrences ++ o ∷ [])
InStep-row version_id key keys o occurrences v q h k =
    rw (contains-add k key keys) (rw any-append (rw (v, q) (ground (arith, h k, beq_sym k key))))

module _ (version : DatasetVersion) (now : Instant) (f : Filters) (scope : Bool) where
  pub carry_one-InStep :
      (key : OccurrenceKey) (previous : ScheduleOccurrence) (run : Run)
      → occurrence_key_from_row previous ≡ key
      → InStep version.id run
      → InStep version.id (carry_one f version now scope key previous run)
  unfolding carry_one
  carry_one-InStep key previous run q h =
      elim (Bool-cases (passed_over f version now scope key previous run)) [
        | inl p ↦ rw p h
        | inr p ↦ rw p (
            InStep-row version.id key run.final_keys _ run.db.occurrences (beq_refl version.id) q h)
      ]

  pub carry_forward-InStep :
      (d : Dict OccurrenceKey ScheduleOccurrence) (run : Run)
      → IsFiled d
      → InStep version.id run
      → InStep version.id (carry_forward f version now scope d run)
  unfolding carry_forward
  carry_forward-InStep [] run filed h = h
  carry_forward-InStep ((key, previous) ∷ d) run filed h =
      carry_forward-InStep d _ filed.1 (carry_one-InStep key previous run filed.0 h)

pub lookup-IsFiled :
    (key : OccurrenceKey) (d : Dict OccurrenceKey ScheduleOccurrence) {o : ScheduleOccurrence}
    → IsFiled d
    → lookup key d ≡ some o
    → occurrence_key_from_row o ≡ key
lookup-IsFiled key [] filed h = cc
lookup-IsFiled key ((j, p) ∷ d) {o} filed h = elim (Bool-cases (j == key)) [
  | inl t ↦
      let q : some p ≡ some o = rw t at h in
      let r : p ≡ o = cc in
      ap occurrence_key_from_row (sym r) ∙ (filed.0 ∙ (occurrence_key_eq.beq_iff j key).0 t)
  | inr n ↦ lookup-IsFiled key d filed.1 (rw n at h)
]

module _ (version : DatasetVersion) (now : Instant)
    (full_previous : Dict OccurrenceKey ScheduleOccurrence) (filed : IsFiled full_previous) where
  pub batch_occurrence_lem :
      (previous : Option ScheduleOccurrence) (item : PublishableCandidate) (mosque_id : Uuid)
      (t : Time) (id : Uuid)
      → let key =
          occurrence_key mosque_id item.candidate.date item.candidate.prayer
            item.candidate.session_number in
        ((o : ScheduleOccurrence) → previous ≡ some o → occurrence_key_from_row o ≡ key)
        → let o = batch_occurrence version now full_previous previous item mosque_id t id in
          (in_version (some version.id) o ≡ true) × (occurrence_key_from_row o ≡ key)
  unfolding batch_occurrence
  batch_occurrence_lem none item mosque_id t id h = (beq_refl version.id, refl)
  batch_occurrence_lem (some previous) item mosque_id t id h =
      elim (Bool-cases (occurrence_changed (some previous) item.candidate t item.source.id)) [
        | inl c ↦ rw c (beq_refl version.id, refl)
        | inr c ↦ rw c (beq_refl version.id, h previous refl)
      ]

  pub publish_item-InStep :
      (item : PublishableCandidate) (jamaat_time : Option Time) (mosque_id : Option Uuid)
      (run : Run)
      → InStep version.id run
      → InStep version.id (publish_item version now full_previous item jamaat_time mosque_id run)
  unfolding publish_item
  publish_item-InStep item none mosque_id run h = h
  publish_item-InStep item (some t) none run h = h
  publish_item-InStep item (some t) (some mosque_id) run h =
      let key =
        occurrence_key mosque_id item.candidate.date item.candidate.prayer
          item.candidate.session_number in
      let row =
        batch_occurrence_lem (lookup key full_previous) item mosque_id t run.db.next_id
          (λ o q. lookup-IsFiled key full_previous filed q) in
      InStep-row version.id key run.final_keys _ run.db.occurrences row.0 row.1 h

  pub publish_batch-InStep :
      (items : List PublishableCandidate) (run : Run)
      → InStep version.id run
      → InStep version.id (publish_batch version now full_previous items run)
  unfolding publish_batch
  publish_batch-InStep [] run h = h
  publish_batch-InStep (item ∷ items) run h =
      publish_batch-InStep items _
        (publish_item-InStep item item.candidate.jamaat_time item.candidate.mosque_id run h)

pub emit_events-InStep :
    (version_id : Uuid) (run : Run) → InStep version_id run → InStep version_id (emit_events run)
unfolding emit_events
emit_events-InStep version_id run h = h
