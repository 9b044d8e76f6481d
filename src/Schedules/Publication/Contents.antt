-- ===== src/Schedules/Publication/Contents.antt =====
-- Which keys the new version has: the loops of schedules/publication.py against the union of the
-- batch and of what is kept of the previous version.
use uk_jamaat_directory.Prelude.{
  ◌≡◌, refl, sym, ap, ◌∙◌, ◌==◌, nat_eq, Bool, true, false, not, ◌&&◌, ◌||◌, Option, none, some,
  List, [], ◌∷◌, any, contains, arith, Bool-cases, inl, inr, if◌then◌else◌,
}
use uk_jamaat_directory.Prelude.Dict.{Dict}
use uk_jamaat_directory.Models.Calendar.{Instant, Time, World}
use uk_jamaat_directory.Models.Rows.{Uuid, DatasetVersion, ScheduleOccurrence}
use uk_jamaat_directory.Models.Session.{Db}
use uk_jamaat_directory.Schedules.Types.{PublishResult}
use uk_jamaat_directory.Schedules.Queries.{
  Filters, occurrence_in_replace_scope, publish_filters_active,
}
use uk_jamaat_directory.Schedules.Keys.{OccurrenceKey, occurrence_key, occurrence_key_eq}
use uk_jamaat_directory.Schedules.Publication.Select.{PublishableCandidate}
use uk_jamaat_directory.Schedules.Publication.Loops.{
  Run, start, carry_one, carry_forward, publish_item, publish_batch, emit_events, emit_removals,
}
use uk_jamaat_directory.Schedules.Publication.{batch_run, final_run}
use uk_jamaat_directory.Schedules.Publication.Accounting.{has_row, IsFiled, contains-add}
use uk_jamaat_directory.Schedules.Publication.Scope.{Entry, emit_removals_lem}
use uk_jamaat_directory.Schedules.Publication.Events.{IsUnused, final_run_accounting}

-- The item writes a row with the key.
abbrev pub writes_key : OccurrenceKey → PublishableCandidate → Option Time → Option Uuid → Bool
writes_key k item none mosque_id = false
writes_key k item (some t) none = false
writes_key k item (some t) (some m) =
    k == occurrence_key m item.candidate.date item.candidate.prayer item.candidate.session_number

abbrev pub has_item : OccurrenceKey → List PublishableCandidate → Bool
has_item k items =
    any (λ (i : PublishableCandidate). writes_key k i i.candidate.jamaat_time i.candidate.mosque_id)
      items

-- The previous version has the key.
abbrev pub has_previous : OccurrenceKey → Dict OccurrenceKey ScheduleOccurrence → Bool
has_previous k fp = any (λ (e : Entry). k == e.0) fp

module _ (version : DatasetVersion) (now : Instant) (f : Filters) (scope : Bool) where
  -- The row lies in the scope that the loop carries.
  abbrev pub carried : OccurrenceKey → Entry → Bool
  carried k e = k == e.0 && (if occurrence_in_replace_scope f e.1 then scope else not scope)

  carry_one_keys :
      (k key : OccurrenceKey) (previous : ScheduleOccurrence) (run : Run)
      → contains k (carry_one f version now scope key previous run).final_keys
        ≡ (contains k run.final_keys || carried k (key, previous))
  unfolding carry_one
  carry_one_keys k key previous run = elim (Bool-cases (contains key run.final_keys)) [
    | inl t ↦ rw t (elim (Bool-cases (k == key)) [
      | inl q ↦ let r : k ≡ key = (occurrence_key_eq.beq_iff k key).0 q in rw r (rw t)
      | inr n ↦ rw n (ground arith)
    ])
    | inr n ↦ ground (arith, n, contains-add k key run.final_keys)
  ]

  pub carry_forward_keys :
      (k : OccurrenceKey) (d : Dict OccurrenceKey ScheduleOccurrence) (run : Run)
      → contains k (carry_forward f version now scope d run).final_keys
        ≡ (contains k run.final_keys || any (carried k) d)
  unfolding carry_forward
  carry_forward_keys k [] run = ground arith
  carry_forward_keys k ((key, previous) ∷ d) run =
      carry_forward_keys k d (carry_one f version now scope key previous run)
      ∙ ground (arith, carry_one_keys k key previous run)

publish_item_keys :
    (version : DatasetVersion) (now : Instant) (fp : Dict OccurrenceKey ScheduleOccurrence)
    (k : OccurrenceKey) (item : PublishableCandidate) (t : Option Time) (m : Option Uuid)
    (run : Run)
    → contains k (publish_item version now fp item t m run).final_keys
      ≡ (contains k run.final_keys || writes_key k item t m)
unfolding publish_item
publish_item_keys version now fp k item none m run = ground arith
publish_item_keys version now fp k item (some t) none run = ground arith
publish_item_keys version now fp k item (some t) (some m) run =
    contains-add k _ run.final_keys ∙ ground arith

publish_batch_keys :
    (version : DatasetVersion) (now : Instant) (fp : Dict OccurrenceKey ScheduleOccurrence)
    (k : OccurrenceKey) (items : List PublishableCandidate) (run : Run)
    → contains k (publish_batch version now fp items run).final_keys
      ≡ (contains k run.final_keys || has_item k items)
unfolding publish_batch
publish_batch_keys version now fp k [] run = ground arith
publish_batch_keys version now fp k (i ∷ items) run =
    publish_batch_keys version now fp k items _
    ∙ ground (
      arith,
      publish_item_keys version now fp k i i.candidate.jamaat_time i.candidate.mosque_id run,
    )

-- Out of scope before the batch and in scope after it: together every previous row.
both_scopes :
    (version : DatasetVersion) (now : Instant) (f : Filters) (k : OccurrenceKey)
    (fp : Dict OccurrenceKey ScheduleOccurrence)
    → (any (carried version now f false k) fp || any (carried version now f true k) fp)
      ≡ has_previous k fp
both_scopes version now f k [] = refl
both_scopes version now f k (e ∷ fp) = ground (arith, both_scopes version now f k fp)

three_parts : (a b c : Bool) → ((a || b) || c) ≡ (b || (a || c))
three_parts a b c = ground arith

module _ (w : World) (f : Filters) (version : DatasetVersion)
    (fp : Dict OccurrenceKey ScheduleOccurrence) where
  removals_keys :
      (k : OccurrenceKey) (run : Run)
      → contains k (emit_removals version fp run).final_keys ≡ contains k run.final_keys
  removals_keys k run = ap (λ (x : Run). contains k x.final_keys) (emit_removals_lem version fp run)

  final_keys_lem :
      (k : OccurrenceKey) (items : List PublishableCandidate) (r : PublishResult) (db : Db)
      → contains k (final_run w f version fp (batch_run w f version fp items r db)).final_keys
        ≡ (has_item k items || (publish_filters_active f && has_previous k fp))
  unfolding final_run batch_run emit_events
  final_keys_lem k items r db = elim (Bool-cases (publish_filters_active f)) [
    | inr n ↦ rw n (
        removals_keys k (emit_events (publish_batch version w.now fp items (start r db)))
        ∙ publish_batch_keys version w.now fp k items (start r db)
        ∙ ground arith)
    | inl t ↦
        let kept = carry_forward f version w.now false fp (start r db) in
        let batch = publish_batch version w.now fp items kept in
        let before : contains k kept.final_keys ≡ any (carried version w.now f false k) fp =
          carry_forward_keys version w.now f false k fp (start r db) in
        let written : contains k batch.final_keys
            ≡ (contains k kept.final_keys || has_item k items) =
          publish_batch_keys version w.now fp k items kept in
        rw t (
          removals_keys k (carry_forward f version w.now true fp (emit_events batch))
          ∙ carry_forward_keys version w.now f true k fp (emit_events batch)
          ∙ ap (λ b. b || any (carried version w.now f true k) fp)
              (written ∙ ap (λ b. b || has_item k items) before)
          ∙ three_parts (any (carried version w.now f false k) fp) (has_item k items)
              (any (carried version w.now f true k) fp)
          ∙ ap (λ b. has_item k items || b) (both_scopes version w.now f k fp))
  ]

  -- For a version with no row yet, and a previous version filed by key, the keys of the new version
  -- are those of the batch, and, if any filter is given, those of the previous version too: an
  -- unfiltered publication replaces the previous version. A filtered one keeps every key of the
  -- previous version, those within the filters that the batch does not write as well; README.md says
  -- that rows in scope are replaced or removed, but the code removes none.
  pub final_run_contents :
      IsFiled fp
      → (items : List PublishableCandidate) (r : PublishResult) (db : Db) → IsUnused version db
      → (k : OccurrenceKey)
      → has_row version.id k
          (final_run w f version fp (batch_run w f version fp items r db)).db.occurrences
        ≡ (has_item k items || (publish_filters_active f && has_previous k fp))
  final_run_contents filed items r db unused k =
      sym ((final_run_accounting w f version fp filed items r db unused).0 k)
      ∙ final_keys_lem k items r db
