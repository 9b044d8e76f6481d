-- ===== src/Schedules/Publication/Scope.antt =====
-- What becomes of the rows of the previous version, by the loops of schedules/publication.py.
use uk_jamaat_directory.Prelude.{
  ℕ, ◌+◌, ◌≡◌, refl, sym, ◌∙◌, nat_eq, Bool, true, false, not, List, [], ◌∷◌, ◌++◌, map, select,
  length, contains, if◌then◌else◌, arith, Bool-cases, inl, inr, beq_refl, append_assoc, append-nil,
  All,
}
use uk_jamaat_directory.Prelude.Dict.{Dict}
use uk_jamaat_directory.Models.Calendar.{Instant}
use uk_jamaat_directory.Models.Rows.{DatasetVersion, ScheduleOccurrence, ChangeEvent}
use uk_jamaat_directory.Schedules.Queries.{Filters, occurrence_in_replace_scope}
use uk_jamaat_directory.Schedules.Keys.{OccurrenceKey, occurrence_key_eq}
use uk_jamaat_directory.Schedules.Publication.Loops.{
  Run, passed_over, carry_one, carry_forward, removed, removal_event, emit_removals,
}
use uk_jamaat_directory.Schedules.Publication.Accounting.{InStep, contains-add}

abbrev pub Entry : Type 0
Entry = OccurrenceKey × ScheduleOccurrence

-- The rows whose keys the new version has not.
abbrev pub missing :
    List OccurrenceKey
    → Dict OccurrenceKey ScheduleOccurrence
    → Dict OccurrenceKey ScheduleOccurrence
missing keys d = select (λ (e : Entry). not (contains e.0 keys)) d

-- The run with other events and other counts of removals and events.
abbrev pub after_removals : Run → List ChangeEvent → ℕ → ℕ → Run
after_removals run events removals changes = record run {
  db = record (run.db) { events = events };
  result = record (run.result) { removed_occurrences = removals; change_events = changes };
}

-- The run with a removal event for each missing row.
abbrev pub with_removals : DatasetVersion → Dict OccurrenceKey ScheduleOccurrence → Run → Run
with_removals version d run =
    after_removals run (run.db.events ++ map (λ (e : Entry). removal_event version e.1) d)
      (run.result.removed_occurrences + length d) (run.result.change_events + length d)

pub after_removals_eq :
    (run : Run) {es es' : List ChangeEvent} {n n' m m' : ℕ}
    → es ≡ es'
    → n ≡ n'
    → m ≡ m'
    → after_removals run es n m ≡ after_removals run es' n' m'
after_removals_eq run p q r = rw (p, q, r)

pub emit_removals_lem :
    (version : DatasetVersion) (d : Dict OccurrenceKey ScheduleOccurrence) (run : Run)
    → emit_removals version d run ≡ with_removals version (missing run.final_keys d) run
unfolding emit_removals
emit_removals_lem version [] run =
    after_removals_eq run (sym (append-nil run.db.events)) (omega arith) (omega arith)
emit_removals_lem version ((key, previous) ∷ d) run =
    elim (Bool-cases (contains key run.final_keys)) [
      | inl t ↦ rw t (emit_removals_lem version d run)
      | inr n ↦ rw n (
          emit_removals_lem version d (removed version previous run)
          ∙ after_removals_eq run
              (append_assoc run.db.events (removal_event version previous ∷ []) _) (omega arith)
              (omega arith))
    ]

-- Removals leave the rows and the final keys alone, so what is removed is what has no row.
pub emit_removals-InStep :
    (version : DatasetVersion) (d : Dict OccurrenceKey ScheduleOccurrence) (run : Run)
    → InStep version.id run
    → InStep version.id (emit_removals version d run)
emit_removals-InStep version d run h = rw (emit_removals_lem version d run) h

if_not_self : (b : Bool) → (if b then not b else b) ≡ false
if_not_self true = refl
if_not_self false = refl

module _ (version : DatasetVersion) (now : Instant) (f : Filters) where
  -- A key that is taken stays taken.
  carry_one_keeps :
      (scope : Bool) (key k : OccurrenceKey) (previous : ScheduleOccurrence) (run : Run)
      → contains k run.final_keys ≡ true
      → contains k (carry_one f version now scope key previous run).final_keys ≡ true
  unfolding carry_one
  carry_one_keeps scope key k previous run h =
      elim (Bool-cases (passed_over f version now scope key previous run)) [
        | inl p ↦ rw p h
        | inr p ↦ rw p (rw (contains-add k key run.final_keys) (ground (arith, h)))
      ]

  pub carry_forward_keeps :
      (scope : Bool) (d : Dict OccurrenceKey ScheduleOccurrence) (k : OccurrenceKey) (run : Run)
      → contains k run.final_keys ≡ true
      → contains k (carry_forward f version now scope d run).final_keys ≡ true
  unfolding carry_forward
  carry_forward_keeps scope [] k run h = h
  carry_forward_keeps scope ((key, previous) ∷ d) k run h =
      carry_forward_keeps scope d k _ (carry_one_keeps scope key k previous run h)

  -- A row in the scope that is carried has its key taken afterwards.
  carry_one_takes :
      (scope : Bool) (key : OccurrenceKey) (previous : ScheduleOccurrence) (run : Run)
      → occurrence_in_replace_scope f previous ≡ scope
      → contains key (carry_one f version now scope key previous run).final_keys ≡ true
  unfolding carry_one
  carry_one_takes scope key previous run s = elim (Bool-cases (contains key run.final_keys)) [
    | inl t ↦ rw t t
    | inr n ↦
        let free : passed_over f version now scope key previous run ≡ false =
          rw (n, s) (if_not_self scope) in
        rw free (rw (contains-add key key run.final_keys) (rw (beq_refl key)))
  ]

  pub carry_forward_takes :
      (scope : Bool) (d : Dict OccurrenceKey ScheduleOccurrence) (run : Run)
      → All
          (λ (e : Entry).
            occurrence_in_replace_scope f e.1 ≡ scope
            → contains e.0 (carry_forward f version now scope d run).final_keys ≡ true)
          d
  unfolding carry_forward
  carry_forward_takes scope [] run = tt
  carry_forward_takes scope ((key, previous) ∷ d) run = (
    (λ s. carry_forward_keeps scope d key _ (carry_one_takes scope key previous run s)),
    carry_forward_takes scope d (carry_one f version now scope key previous run),
  )
