-- ===== src/Schedules/Prefetch/Duplicates.antt =====
-- The map of duplicates: grouping the active rows by natural key finds, for each candidate of the
-- batch, the other active rows of the whole table with its key.
use uk_jamaat_directory.Prelude.{
  ◌≡◌, refl, sym, ap, ◌∙◌, ◌==◌, nat_eq, option_eq, Bool, true, not, Option, none, some, List, [],
  ◌∷◌, ◌++◌, map, select, select-select_eq, contains, if◌then◌else◌, Member, arith, Bool-cases,
  Option-cases, inl, inr, append-nil, append_assoc,
}
use uk_jamaat_directory.Prelude.Dict.{
  Dict, lookup, lookup-insert, Distinct, find-Member, lookup-from_rows,
}
use uk_jamaat_directory.Models.Rows.{Uuid, ScheduleCandidate}
use uk_jamaat_directory.Models.Session.{Db}
use uk_jamaat_directory.Schedules.Prefetch.{
  NaturalKey, natural_key, natural_key_eq, is_active, mosque_ids, or_empty, group_row, group_rows,
  ids_of, other_ids, is_active_in, duplicate_map, build_duplicate_map,
  build_validation_batch_context,
}
use uk_jamaat_directory.Schedules.Prefetch.Lookup.{contains-somes}

abbrev has_key : NaturalKey → ScheduleCandidate → Bool
has_key k row = natural_key row == some k

abbrev ids_with : Option NaturalKey → List ScheduleCandidate → List Uuid
ids_with none rows = []
ids_with (some k) rows = map (λ (r : ScheduleCandidate). r.id) (select (has_key k) rows)

-- The ids of the other active candidates that share a candidate's natural key.
abbrev pub rivals : ScheduleCandidate → Db → List Uuid
rivals c db =
    select (λ i. not (i == c.id)) (ids_with (natural_key c) (select is_active db.candidates))

lookup-group_row :
    (k : NaturalKey) (row : ScheduleCandidate) (key : Option NaturalKey)
    (by_key : Dict NaturalKey (List Uuid))
    → or_empty (lookup k (group_row row key by_key))
      ≡ or_empty (lookup k by_key) ++ (if key == some k then row.id ∷ [] else [])
unfolding group_row
lookup-group_row k row none by_key = sym (append-nil (or_empty (lookup k by_key)))
lookup-group_row k row (some j) by_key =
    rw (lookup-insert j k (or_empty (lookup j by_key) ++ row.id ∷ []) by_key)
      (elim (Bool-cases (j == k)) [
        | inl t ↦ rw (t, (natural_key_eq.beq_iff j k).0 t)
        | inr f ↦ rw f (sym (append-nil (or_empty (lookup k by_key))))
      ])

lookup-group_rows :
    (k : NaturalKey) (rows : List ScheduleCandidate) (by_key : Dict NaturalKey (List Uuid))
    → or_empty (lookup k (group_rows rows by_key))
      ≡ or_empty (lookup k by_key) ++ ids_with (some k) rows
unfolding group_rows
lookup-group_rows k [] by_key = sym (append-nil (or_empty (lookup k by_key)))
lookup-group_rows k (row ∷ rows) by_key =
    rw (lookup-group_rows k rows (group_row row (natural_key row) by_key)) (
      rw (lookup-group_row k row (natural_key row) by_key)
        (elim (Bool-cases (natural_key row == some k)) [
          | inl t ↦ rw t (append_assoc (or_empty (lookup k by_key)) (row.id ∷ []) _)
          | inr f ↦ rw f (rw append-nil)
        ]))

key_mosque :
    (row : ScheduleCandidate) (k : NaturalKey)
    → natural_key row ≡ some k
    → row.mosque_id ≡ some k.mosque_id
key_mosque row k h = elim (Option-cases row.mosque_id) [
  | inl n ↦ ground arith
  | inr (m, e) ↦ ground arith
]

has_key-active :
    (k : NaturalKey) (ids : List Uuid) (row : ScheduleCandidate)
    → contains k.mosque_id ids ≡ true
    → has_key k row ≡ true
    → is_active_in ids row ≡ is_active row
has_key-active k ids row h t =
    let e : row.mosque_id ≡ some k.mosque_id =
      key_mosque row k ((option_eq.beq_iff (natural_key row) (some k)).0 t) in
    rw e (rw h (ground arith))

-- The query's restriction to the mosques of the batch loses no row with the key of a candidate.
has_key-in_batch :
    (k : NaturalKey) (ids : List Uuid) (rows : List ScheduleCandidate)
    → contains k.mosque_id ids ≡ true
    → select (has_key k) (select (is_active_in ids) rows)
      ≡ select (has_key k) (select is_active rows)
has_key-in_batch k ids rows h =
    select-select_eq (has_key k) (is_active_in ids) is_active rows
      (λ row t. has_key-active k ids row h t)

module _ (db : Db) (ids : List Uuid) where
  ids_of-group_rows :
      (key : Option NaturalKey)
      → ((k : NaturalKey) → key ≡ some k → contains k.mosque_id ids ≡ true)
      → ids_of key (group_rows (select (is_active_in ids) db.candidates) [])
        ≡ ids_with key (select is_active db.candidates)
  ids_of-group_rows none h = refl
  ids_of-group_rows (some k) h =
      lookup-group_rows k (select (is_active_in ids) db.candidates) []
      ∙ ap (map (λ (r : ScheduleCandidate). r.id)) (has_key-in_batch k ids db.candidates (h k refl))

  other_ids-eq-rivals :
      (c : ScheduleCandidate)
      → ((k : NaturalKey) → natural_key c ≡ some k → contains k.mosque_id ids ≡ true)
      → other_ids c (group_rows (select (is_active_in ids) db.candidates) []) ≡ rivals c db
  other_ids-eq-rivals c h = ap (select (λ i. not (i == c.id))) (ids_of-group_rows (natural_key c) h)

ids_with_no_key :
    (id : Uuid) (key : Option NaturalKey) (rows : List ScheduleCandidate)
    → ((k : NaturalKey) → key ≡ some k → ⊥)
    → select (λ i. not (i == id)) (ids_with key rows) ≡ []
ids_with_no_key id none rows h = refl
ids_with_no_key id (some k) rows h = absurd (h k refl)

module _ (db : Db) (c : ScheduleCandidate) (cs : List ScheduleCandidate) where
  lookup-duplicate_map :
      (ids : List Uuid)
      → Distinct (λ (x : ScheduleCandidate). x.id) cs
      → Member c cs
      → ((k : NaturalKey) → natural_key c ≡ some k → contains k.mosque_id ids ≡ true)
      → lookup c.id (duplicate_map ids cs db) ≡ some (rivals c db)
  unfolding duplicate_map
  lookup-duplicate_map [] d m h =
      rw (lookup-from_rows (λ (x : ScheduleCandidate). x.id) _ c.id cs [] d) (
        rw (find-Member (λ (x : ScheduleCandidate). x.id) d m)
          (ap some (sym (ids_with_no_key c.id (natural_key c) _ (λ k e. cc (h k e))))))
  lookup-duplicate_map (i ∷ ids) d m h =
      rw (lookup-from_rows (λ (x : ScheduleCandidate). x.id) _ c.id cs [] d) (
        rw (find-Member (λ (x : ScheduleCandidate). x.id) d m)
          (ap some (other_ids-eq-rivals db (i ∷ ids) c h)))

  pub lookup-build_duplicate_map :
      Distinct (λ (x : ScheduleCandidate). x.id) cs
      → Member c cs
      → lookup c.id (build_duplicate_map cs db) ≡ some (rivals c db)
  unfolding build_duplicate_map
  lookup-build_duplicate_map d m =
      lookup-duplicate_map (mosque_ids cs) d m
        λ k e. contains-somes (λ (x : ScheduleCandidate). x.mosque_id) m (key_mosque c k e)

pub context_duplicates :
    (db : Db) (c : ScheduleCandidate) (cs : List ScheduleCandidate)
    → Distinct (λ (x : ScheduleCandidate). x.id) cs
    → Member c cs
    → lookup c.id (build_validation_batch_context cs db).duplicate_ids ≡ some (rivals c db)
unfolding build_validation_batch_context
context_duplicates db c [] d m = elim m [ ]
context_duplicates db c (x ∷ xs) d m = lookup-build_duplicate_map db c (x ∷ xs) d m
