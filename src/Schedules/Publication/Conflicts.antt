-- ===== src/Schedules/Publication/Conflicts.antt =====
-- When the unique constraint stops a publication: `_publish_batch_rows` of schedules/publication.py
-- writes its rows without a look at the keys that are taken.
use uk_jamaat_directory.Prelude.{
  ◌≡◌, refl, sym, ap, ◌∙◌, ◌==◌, nat_eq, Bool, true, false, not, ◌&&◌, ◌||◌, Option, none, some,
  List, [], ◌∷◌, ◌++◌, any, any-append, any-false-and, contains, add, arith, Bool-cases, inl, inr,
  beq_sym, if◌then◌else◌,
}
use uk_jamaat_directory.Prelude.Dict.{Dict, lookup}
use uk_jamaat_directory.Models.Calendar.{Instant, Time, World}
use uk_jamaat_directory.Models.Rows.{Uuid, DatasetVersion, ScheduleOccurrence}
use uk_jamaat_directory.Models.Session.{Db}
use uk_jamaat_directory.Schedules.Types.{PublishResult}
use uk_jamaat_directory.Schedules.Queries.{
  Filters, occurrence_in_replace_scope, publish_filters_active,
}
use uk_jamaat_directory.Schedules.Keys.{
  OccurrenceKey, occurrence_key, occurrence_key_from_row, occurrence_key_eq,
}
use uk_jamaat_directory.Schedules.Freshness.{in_version}
use uk_jamaat_directory.Schedules.Publication.Select.{PublishableCandidate}
use uk_jamaat_directory.Schedules.Publication.Loops.{
  Run, start, passed_over, carry_one, carry_forward, batch_occurrence, publish_item, publish_batch,
  clashes, occurrences_unique,
}
use uk_jamaat_directory.Schedules.Publication.{batch_run}
use uk_jamaat_directory.Schedules.Publication.Accounting.{
  has_row, InStep, IsFiled, contains-add, carry_forward-InStep, carry_one-InStep,
  publish_item-InStep, batch_occurrence_lem, lookup-IsFiled,
}
use uk_jamaat_directory.Schedules.Publication.Scope.{Entry}
use uk_jamaat_directory.Schedules.Publication.Contents.{carried, carry_forward_keys}
use uk_jamaat_directory.Schedules.Publication.Events.{IsUnused}

-- The key that an item writes, if it writes a row.
abbrev pub key_of : PublishableCandidate → Option Time → Option Uuid → List OccurrenceKey
key_of item none mosque_id = []
key_of item (some t) none = []
key_of item (some t) (some m) =
    occurrence_key m item.candidate.date item.candidate.prayer item.candidate.session_number ∷ []

abbrev pub keys_of : List PublishableCandidate → List OccurrenceKey
keys_of [] = []
keys_of (i ∷ items) = key_of i i.candidate.jamaat_time i.candidate.mosque_id ++ keys_of items

abbrev pub repeats : List OccurrenceKey → Bool
repeats [] = false
repeats (k ∷ ks) = contains k ks || repeats ks

-- One more row is unique among the others if no row of its version has its key.
clash-has_row :
    (v : Uuid) (k : OccurrenceKey) (o : ScheduleOccurrence) (os : List ScheduleOccurrence)
    → o.dataset_version_id ≡ some v
    → occurrence_key_from_row o ≡ k
    → any (λ a. clashes a o) os ≡ has_row v k os
clash-has_row v k o [] p q = refl
clash-has_row v k o (a ∷ os) p q =
    rw (clash-has_row v k o os p q) (ap (λ b. b || has_row v k os) (one a.dataset_version_id refl))
  where
    one :
        (d : Option Uuid)
        → a.dataset_version_id ≡ d
        → clashes a o ≡ (in_version (some v) a && occurrence_key_from_row a == k)
    one none h = rw h refl
    one (some u) h = rw (h, p, q) refl

unique_append :
    (o : ScheduleOccurrence) (os : List ScheduleOccurrence)
    → occurrences_unique (os ++ o ∷ []) ≡ (occurrences_unique os && not (any (λ a. clashes a o) os))
unfolding occurrences_unique
unique_append o [] = refl
unique_append o (a ∷ os) =
    rw (unique_append o os, any-append (clashes a) os (o ∷ [])) (ground arith)

unique_row :
    (v : Uuid) (k : OccurrenceKey) (o : ScheduleOccurrence) (run : Run)
    → o.dataset_version_id ≡ some v
    → occurrence_key_from_row o ≡ k
    → InStep v run
    → occurrences_unique (run.db.occurrences ++ o ∷ [])
      ≡ (occurrences_unique run.db.occurrences && not (contains k run.final_keys))
unique_row v k o run p q h =
    unique_append o run.db.occurrences
    ∙ ap (λ b. occurrences_unique run.db.occurrences && not b)
        (clash-has_row v k o run.db.occurrences p q ∙ sym (h k))

-- Rows that are carried never break the constraint.
module _ (version : DatasetVersion) (now : Instant) (f : Filters) (scope : Bool) where
  carry_one_unique :
      (key : OccurrenceKey) (previous : ScheduleOccurrence) (run : Run)
      → occurrence_key_from_row previous ≡ key
      → InStep version.id run
      → occurrences_unique (carry_one f version now scope key previous run).db.occurrences
        ≡ occurrences_unique run.db.occurrences
  unfolding carry_one
  carry_one_unique key previous run q h =
      elim (Bool-cases (passed_over f version now scope key previous run)) [
        | inl p ↦ rw p refl
        | inr p ↦
            let free : contains key run.final_keys ≡ false = ground arith in
            rw p (unique_row version.id key _ run refl q h ∙ rw free (ground arith))
      ]

  pub carry_forward_unique :
      (d : Dict OccurrenceKey ScheduleOccurrence) (run : Run)
      → IsFiled d
      → InStep version.id run
      → occurrences_unique (carry_forward f version now scope d run).db.occurrences
        ≡ occurrences_unique run.db.occurrences
  unfolding carry_forward
  carry_forward_unique [] run filed h = refl
  carry_forward_unique ((key, previous) ∷ d) run filed h =
      carry_forward_unique d _ filed.1
        (carry_one-InStep version now f scope key previous run filed.0 h)
      ∙ carry_one_unique key previous run filed.0 h

taken : List OccurrenceKey → List OccurrenceKey → Bool
taken keys ks = any (λ k. contains k keys) ks

taken-add :
    (key : OccurrenceKey) (keys ks : List OccurrenceKey)
    → taken (add key keys) ks ≡ (contains key ks || taken keys ks)
unfolding taken
taken-add key keys [] = refl
taken-add key keys (k ∷ ks) =
    ground (arith, contains-add k key keys, beq_sym k key, taken-add key keys ks)

version_column :
    (v : Uuid) (o : ScheduleOccurrence) (d : Option Uuid)
    → o.dataset_version_id ≡ d
    → in_version (some v) o ≡ true
    → o.dataset_version_id ≡ some v
version_column v o none q h = cc (rw q at h)
version_column v o (some u) q h = q ∙ ap some ((nat_eq.beq_iff u v).0 (rw q at h))

rearranged :
    (u c d r t : Bool) → ((u && not c) && not (r || (d || t))) ≡ (u && not ((d || r) || (c || t)))
rearranged u c d r t = ground arith

module _ (version : DatasetVersion) (now : Instant) (fp : Dict OccurrenceKey ScheduleOccurrence)
    (filed : IsFiled fp) where
  publish_item_unique :
      (item : PublishableCandidate) (t : Option Time) (m : Option Uuid) (ks : List OccurrenceKey)
      (run : Run)
      → InStep version.id run
      → let after = publish_item version now fp item t m run in
        (occurrences_unique after.db.occurrences && not (repeats ks || taken after.final_keys ks))
        ≡ (occurrences_unique run.db.occurrences
            && not
                (repeats (key_of item t m ++ ks) || taken run.final_keys (key_of item t m ++ ks)))
  unfolding publish_item taken
  publish_item_unique item none m ks run h = refl
  publish_item_unique item (some t) none ks run h = refl
  publish_item_unique item (some t) (some m) ks run h =
      let key =
        occurrence_key m item.candidate.date item.candidate.prayer item.candidate.session_number in
      let row =
        batch_occurrence_lem version now fp filed (lookup key fp) item m t run.db.next_id
          (λ o q. lookup-IsFiled key fp filed q) in
      let o = batch_occurrence version now fp (lookup key fp) item m t run.db.next_id in
      let unique =
        unique_row version.id key o run
          (version_column version.id o o.dataset_version_id refl row.0) row.1 h in
      rw (unique, taken-add key run.final_keys ks)
        (rearranged (occurrences_unique run.db.occurrences) (contains key run.final_keys)
          (contains key ks) (repeats ks) (taken run.final_keys ks))

  publish_batch_unique :
      (items : List PublishableCandidate) (run : Run)
      → InStep version.id run
      → occurrences_unique (publish_batch version now fp items run).db.occurrences ≡ (
          occurrences_unique run.db.occurrences
          && not (repeats (keys_of items) || taken run.final_keys (keys_of items)))
  unfolding publish_batch taken
  publish_batch_unique [] run h = ground arith
  publish_batch_unique (i ∷ items) run h =
      let t = i.candidate.jamaat_time in
      let m = i.candidate.mosque_id in
      publish_batch_unique items (publish_item version now fp i t m run)
        (publish_item-InStep version now fp filed i t m run h)
      ∙ publish_item_unique i t m (keys_of items) run h

-- A previous row that lies out of the scope has the key.
abbrev pub kept_out_of_scope :
    Filters → Dict OccurrenceKey ScheduleOccurrence → OccurrenceKey → Bool
kept_out_of_scope f fp k =
    any (λ (e : Entry). k == e.0 && not (occurrence_in_replace_scope f e.1)) fp

-- Two items of the batch write one key, or a filtered batch writes a key that a previous row out of
-- its scope holds.
abbrev pub conflicts :
    Filters → Dict OccurrenceKey ScheduleOccurrence → List PublishableCandidate → Bool
conflicts f fp items =
    repeats (keys_of items)
    || (publish_filters_active f && any (kept_out_of_scope f fp) (keys_of items))

any_eq {ℓ} :
    {A : Type ℓ} (p q : A → Bool) (xs : List A) → ((x : A) → p x ≡ q x) → any p xs ≡ any q xs
any_eq p q [] h = refl
any_eq p q (x ∷ xs) h = rw (h x, any_eq p q xs h)

any_none {ℓ} : {A : Type ℓ} (xs : List A) → any (λ _. false) xs ≡ false
any_none [] = refl
any_none (x ∷ xs) = any_none xs

no_keys_taken :
    {u t : Bool} → u ≡ true → (r : Bool) → t ≡ false → (u && not (r || t)) ≡ not (r || (false && t))
no_keys_taken q r h = ground arith

some_keys_taken :
    {u t t' : Bool} → u ≡ true → (r : Bool) → t ≡ t' → (u && not (r || t)) ≡ not (r || (true && t'))
some_keys_taken q r h = ground arith

out_of_scope_if : (b : Bool) → (if b then false else not false) ≡ not b
out_of_scope_if true = refl
out_of_scope_if false = refl

module _ (w : World) (f : Filters) (version : DatasetVersion)
    (fp : Dict OccurrenceKey ScheduleOccurrence) (filed : IsFiled fp) where
  kept_keys :
      (r : PublishResult) (db : Db) (k : OccurrenceKey)
      → contains k (carry_forward f version w.now false fp (start r db)).final_keys
        ≡ kept_out_of_scope f fp k
  kept_keys r db k =
      carry_forward_keys version w.now f false k fp (start r db)
      ∙ any_eq (carried version w.now f false k)
          (λ (e : Entry). k == e.0 && not (occurrence_in_replace_scope f e.1)) fp
          (λ e. ap (λ b. k == e.0 && b) (out_of_scope_if (occurrence_in_replace_scope f e.1)))

  pub batch_run_unique :
      (items : List PublishableCandidate) (r : PublishResult) (db : Db)
      → IsUnused version db
      → occurrences_unique db.occurrences ≡ true
      → occurrences_unique (batch_run w f version fp items r db).db.occurrences
        ≡ not (conflicts f fp items)
  unfolding batch_run taken
  batch_run_unique items r db unused u =
      let first : InStep version.id (start r db) =
        λ k. sym (any-false-and (in_version (some version.id)) _ db.occurrences unused) in
      elim (Bool-cases (publish_filters_active f)) [
        | inr n ↦ rw n (
            publish_batch_unique version w.now fp filed items (start r db) first
            ∙ no_keys_taken u (repeats (keys_of items)) (any_none (keys_of items)))
        | inl t ↦
            let kept = carry_forward f version w.now false fp (start r db) in
            rw t (
              publish_batch_unique version w.now fp filed items kept
                (carry_forward-InStep version w.now f false fp (start r db) filed first)
              ∙ some_keys_taken
                  (carry_forward_unique version w.now f false fp (start r db) filed first ∙ u)
                  (repeats (keys_of items)) (any_eq _ _ (keys_of items) (kept_keys r db)))
      ]
