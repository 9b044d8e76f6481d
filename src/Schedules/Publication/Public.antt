-- ===== src/Schedules/Publication/Public.antt =====
-- Every row of a new version comes from a source that allows public redistribution, through the
-- loops of schedules/publication.py.
use uk_jamaat_directory.Prelude.{
  ◌≡◌, refl, sym, ap, ◌∙◌, ◌==◌, nat_eq, Bool, true, false, ◌&&◌, Option, none, some, List, [], ◌∷◌,
  Bool-cases, inl, inr, All, All-append, All-map, select, select-All, first-eq-some, &&-eq-true,
  option_eq,
}
use uk_jamaat_directory.Prelude.Dict.{Dict, insert, from_rows, lookup}
use uk_jamaat_directory.Domain.{extraction_kind_eq}
use uk_jamaat_directory.Models.Calendar.{Time, World}
use uk_jamaat_directory.Models.Rows.{Uuid, MosqueSource, DatasetVersion, ScheduleOccurrence}
use uk_jamaat_directory.Models.Session.{Db, get_source}
use uk_jamaat_directory.Schedules.Types.{Settings, PublishResult}
use uk_jamaat_directory.Schedules.Gates.{can_publish_candidate, is_public}
use uk_jamaat_directory.Schedules.Queries.{Filters, publish_filters_active}
use uk_jamaat_directory.Schedules.Keys.{
  OccurrenceKey, occurrence_key, occurrence_key_from_row, occurrence_key_eq,
}
use uk_jamaat_directory.Schedules.Freshness.{in_version, has_public_source}
use uk_jamaat_directory.Schedules.Publication.Select.{PublishableCandidate}
use uk_jamaat_directory.Schedules.Publication.Gates.{IsPublishable}
use uk_jamaat_directory.Schedules.Publication.Loops.{
  Run, start, passed_over, carry_one, carry_forward, occurrence_changed, batch_occurrence,
  publish_item, publish_batch, emit_events,
}
use uk_jamaat_directory.Schedules.Publication.{batch_run, final_run, load_all_previous_occurrences}
use uk_jamaat_directory.Schedules.Publication.Scope.{Entry, emit_removals_lem}

module _ (db : Db) where
  -- A row of the version has a public source.
  abbrev pub IsPublicRow : Uuid → ScheduleOccurrence → Type 0
  IsPublicRow v o = in_version (some v) o ≡ true → has_public_source db o ≡ true

  abbrev pub IsPublicItem : PublishableCandidate → Type 0
  IsPublicItem item =
      (get_source item.source.id db ≡ some item.source) × (is_public item.source ≡ true)

  abbrev pub ArePublic : Dict OccurrenceKey ScheduleOccurrence → Type 0
  ArePublic d = All (λ (e : Entry). has_public_source db e.1 ≡ true) d

  insert-ArePublic :
      (key : OccurrenceKey) (o : ScheduleOccurrence) (d : Dict OccurrenceKey ScheduleOccurrence)
      → has_public_source db o ≡ true
      → ArePublic d
      → ArePublic (insert key o d)
  insert-ArePublic key o [] q h = (q, tt)
  insert-ArePublic key o ((j, p) ∷ d) q h = elim (Bool-cases (j == key)) [
    | inl t ↦ rw t (q, h.1)
    | inr n ↦ rw n (h.0, insert-ArePublic key o d q h.1)
  ]

  from_rows-ArePublic :
      (rows : List ScheduleOccurrence) (d : Dict OccurrenceKey ScheduleOccurrence)
      → All (λ o. has_public_source db o ≡ true) rows
      → ArePublic d
      → ArePublic (from_rows occurrence_key_from_row (λ o. o) rows d)
  from_rows-ArePublic [] d a h = h
  from_rows-ArePublic (o ∷ rows) d a h =
      from_rows-ArePublic rows _ a.1 (insert-ArePublic (occurrence_key_from_row o) o d a.0 h)

  pub load_all_previous_occurrences-ArePublic :
      (previous : Option DatasetVersion) → ArePublic (load_all_previous_occurrences previous db)
  unfolding load_all_previous_occurrences
  load_all_previous_occurrences-ArePublic none = tt
  load_all_previous_occurrences-ArePublic (some version) =
      let p =
        λ (o : ScheduleOccurrence). in_version (some version.id) o && has_public_source db o in
      from_rows-ArePublic (select p db.occurrences) []
        (All-map (λ o. p o ≡ true) (λ o. has_public_source db o ≡ true) (select p db.occurrences)
          (λ o t. (&&-eq-true (in_version (some version.id) o) (has_public_source db o) t).1)
          (select-All p db.occurrences))
        tt

  lookup-ArePublic :
      (key : OccurrenceKey) (d : Dict OccurrenceKey ScheduleOccurrence)
      → ArePublic d
      → (o : ScheduleOccurrence) → lookup key d ≡ some o
      → has_public_source db o ≡ true
  lookup-ArePublic key [] h o q = cc
  lookup-ArePublic key ((j, p) ∷ d) h o q = elim (Bool-cases (j == key)) [
    | inl t ↦
        let r : some p ≡ some o = rw t at q in
        let s : p ≡ o = cc in ap (has_public_source db) (sym s) ∙ h.0
    | inr n ↦ lookup-ArePublic key d h.1 o (rw n at q)
  ]

  some_public :
      (found : Option MosqueSource) (s : MosqueSource)
      → found ≡ some s
      → is_public s ≡ true
      → elim found [ none ↦ false | some s ↦ is_public s ] ≡ true
  some_public none s q h = cc
  some_public (some s') s q h = let r : s' ≡ s = cc in ap (λ (x : MosqueSource). is_public x) r ∙ h

  item_public :
      (item : PublishableCandidate)
      → IsPublicItem item
      → elim (get_source item.source.id db) [ none ↦ false | some s ↦ is_public s ] ≡ true
  item_public item h = some_public (get_source item.source.id db) item.source h.0 h.1

-- What a publishable candidate says of its source.
pub IsPublishable-IsPublicItem :
    (cfg : Settings) (w : World) (db : Db) (item : PublishableCandidate)
    → IsPublishable cfg w db item
    → IsPublicItem db item
unfolding can_publish_candidate
IsPublishable-IsPublicItem cfg w db item p =
    let same : item.source.id ≡ item.candidate.source_id =
      (nat_eq.beq_iff item.source.id item.candidate.source_id).0 (
        first-eq-some (λ (s : MosqueSource). s.id == item.candidate.source_id) db.sources
          p.source_found) in
    let allowed = p.allowed in
    (
      ap (λ (id : Uuid). get_source id db) same ∙ p.source_found,
      elim (Bool-cases (is_public item.source)) [
        | inl t ↦ t
        | inr n ↦ let bad = rw n at allowed in cc bad
      ],
    )

module _ (db : Db) (w : World) (f : Filters) (version : DatasetVersion)
    (fp : Dict OccurrenceKey ScheduleOccurrence) (previous_public : ArePublic db fp) where
  abbrev pub Holds : Run → Type 0
  Holds run = (run.db.sources ≡ db.sources) × All (IsPublicRow db version.id) run.db.occurrences

  carry_one-Holds :
      (scope : Bool) (key : OccurrenceKey) (previous : ScheduleOccurrence) (run : Run)
      → has_public_source db previous ≡ true
      → Holds run
      → Holds (carry_one f version w.now scope key previous run)
  unfolding carry_one
  carry_one-Holds scope key previous run q h =
      elim (Bool-cases (passed_over f version w.now scope key previous run)) [
        | inl p ↦ rw p h
        | inr p ↦
            rw p
              (h.0, All-append (IsPublicRow db version.id) run.db.occurrences _ h.1 ((λ _. q), tt))
      ]

  carry_forward-Holds :
      (scope : Bool) (d : Dict OccurrenceKey ScheduleOccurrence) (run : Run)
      → ArePublic db d
      → Holds run
      → Holds (carry_forward f version w.now scope d run)
  unfolding carry_forward
  carry_forward-Holds scope [] run a h = h
  carry_forward-Holds scope ((key, previous) ∷ d) run a h =
      carry_forward-Holds scope d _ a.1 (carry_one-Holds scope key previous run a.0 h)

  batch_occurrence-public :
      (previous : Option ScheduleOccurrence) (item : PublishableCandidate) (m : Uuid) (t : Time)
      (id : Uuid)
      → IsPublicItem db item
      → ((o : ScheduleOccurrence) → previous ≡ some o → has_public_source db o ≡ true)
      → has_public_source db (batch_occurrence version w.now fp previous item m t id) ≡ true
  unfolding batch_occurrence
  batch_occurrence-public none item m t id i h = item_public db item i
  batch_occurrence-public (some previous) item m t id i h =
      elim (Bool-cases (occurrence_changed (some previous) item.candidate t item.source.id)) [
        | inl c ↦ rw c (item_public db item i)
        | inr c ↦ rw c (h previous refl)
      ]

  publish_item-Holds :
      (item : PublishableCandidate) (t : Option Time) (m : Option Uuid) (run : Run)
      → IsPublicItem db item
      → Holds run
      → Holds (publish_item version w.now fp item t m run)
  unfolding publish_item
  publish_item-Holds item none m run i h = h
  publish_item-Holds item (some t) none run i h = h
  publish_item-Holds item (some t) (some m) run i h =
      let key =
        occurrence_key m item.candidate.date item.candidate.prayer item.candidate.session_number in
      let row =
        batch_occurrence-public (lookup key fp) item m t run.db.next_id i
          (lookup-ArePublic db key fp previous_public) in
      (h.0, All-append (IsPublicRow db version.id) run.db.occurrences _ h.1 ((λ _. row), tt))

  publish_batch-Holds :
      (items : List PublishableCandidate) (run : Run)
      → All (IsPublicItem db) items
      → Holds run
      → Holds (publish_batch version w.now fp items run)
  unfolding publish_batch
  publish_batch-Holds [] run a h = h
  publish_batch-Holds (item ∷ items) run a h =
      publish_batch-Holds items _ a.1
        (publish_item-Holds item item.candidate.jamaat_time item.candidate.mosque_id run a.0 h)

  pub batch_run-Holds :
      (items : List PublishableCandidate) (r : PublishResult) (db' : Db)
      → All (IsPublicItem db) items
      → (db'.sources ≡ db.sources) × All (IsPublicRow db version.id) db'.occurrences
      → Holds (batch_run w f version fp items r db')
  unfolding batch_run
  batch_run-Holds items r db' a h =
      publish_batch-Holds items _ a (elim (Bool-cases (publish_filters_active f)) [
        | inl t ↦ rw t (carry_forward-Holds false fp (start r db') previous_public h)
        | inr n ↦ rw n h
      ])

  pub final_run-Holds : (run : Run) → Holds run → Holds (final_run w f version fp run)
  unfolding final_run emit_events
  final_run-Holds run h = elim (Bool-cases (publish_filters_active f)) [
    | inl t ↦ rw t (
        rw (emit_removals_lem version fp (carry_forward f version w.now true fp (emit_events run)))
          (carry_forward-Holds true fp (emit_events run) previous_public h))
    | inr n ↦ rw n (rw (emit_removals_lem version fp (emit_events run)) h)
  ]
