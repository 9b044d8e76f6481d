-- ===== src/Schedules/Prefetch/Lookup.antt =====
-- What the batch's dicts hold: for a candidate of the batch, what the tables themselves hold.
use uk_jamaat_directory.Prelude.{
  ◌≡◌, refl, ap, Eq, nat_eq, option_eq, Bool, true, Option, none, some, List, [], ◌∷◌, map, select,
  contains, Member, here, there, contains-map, contains-eq, beq_refl, arith, Option-cases, inl, inr,
}
use uk_jamaat_directory.Prelude.Dict.{
  lookup, from_rows, Distinct, find-select, Distinct-select, lookup-from_rows, lookup-query,
  find-Member, value_of, or_else-none,
}
use uk_jamaat_directory.Domain.{ExtractionKind}
use uk_jamaat_directory.Models.Rows.{Uuid, Mosque, MosqueSource, ExtractionRun, ScheduleCandidate}
use uk_jamaat_directory.Models.Session.{Db, get_source, get_mosque, get_run}
use uk_jamaat_directory.Schedules.Prefetch.{
  natural_key_eq, somes, source_ids, mosque_ids, run_ids, run_kind, build_validation_batch_context,
}

-- The keys of the tables that the batch reads.
pub record IsKeyed (db : Db) : Type 0 where
  pub sources : Distinct (λ (s : MosqueSource). s.id) db.sources
  pub mosques : Distinct (λ (m : Mosque). m.id) db.mosques
  pub runs : Distinct (λ (r : ExtractionRun). r.id) db.runs

pub contains-somes {ℓ} :
    {A B : Type ℓ} ⦃e : Eq B⦄ (f : A → Option B) {a : A} {b : B} {xs : List A}
    → Member a xs
    → f a ≡ some b
    → contains b (somes (map f xs)) ≡ true
contains-somes f {b = b} (here q) h = rw (q, h, beq_refl b)
contains-somes f {b = b} (there {x = x} m) h = elim (Option-cases (f x)) [
  | inl n ↦ rw n (contains-somes f m h)
  | inr (y, s) ↦ rw s (ground (arith, contains-somes f m h))
]

abbrev in_runs : List ScheduleCandidate → ExtractionRun → Bool
in_runs cs r = contains r.id (run_ids cs)

-- The kind of the run that produced a candidate, read from the tables.
abbrev pub kind_of_run : Db → Option Uuid → Option ExtractionKind
kind_of_run db none = none
kind_of_run db (some run_id) = value_of (λ (r : ExtractionRun). r.kind) (get_run run_id db)

-- The rows that a candidate of the batch refers to are in the dicts of the batch.
module _ (db : Db) (keyed : IsKeyed db) (c : ScheduleCandidate) where
  pub context_source :
      (cs : List ScheduleCandidate)
      → Member c cs
      → lookup c.source_id (build_validation_batch_context cs db).sources
        ≡ get_source c.source_id db
  unfolding build_validation_batch_context
  context_source [] m = elim m [ ]
  context_source (d ∷ ds) m =
      lookup-query (λ (s : MosqueSource). s.id) _ c.source_id db.sources keyed.sources
        λ s q.
          contains-eq (source_ids (d ∷ ds)) q
            (contains-map (λ (x : ScheduleCandidate). x.source_id) m)

  pub context_mosque :
      (cs : List ScheduleCandidate) {mosque_id : Uuid}
      → Member c cs
      → c.mosque_id ≡ some mosque_id
      → lookup mosque_id (build_validation_batch_context cs db).mosques ≡ get_mosque mosque_id db
  unfolding build_validation_batch_context
  context_mosque [] m h = elim m [ ]
  context_mosque (d ∷ ds) {mosque_id} m h =
      lookup-query (λ (s : Mosque). s.id) _ mosque_id db.mosques keyed.mosques
        λ s q.
          contains-eq (mosque_ids (d ∷ ds)) q
            (contains-somes (λ (x : ScheduleCandidate). x.mosque_id) m h)

  run_kind-query :
      (cs : List ScheduleCandidate) (run_id : Option Uuid)
      → c.extraction_run_id ≡ run_id
      → Member c cs
      → run_kind
          (from_rows (λ (r : ExtractionRun). r.id) (λ r. r.kind) (select (in_runs cs) db.runs) [])
          run_id
        ≡ kind_of_run db run_id
  run_kind-query cs none h m = refl
  run_kind-query cs (some run_id) h m =
      rw
        (lookup-from_rows (λ (r : ExtractionRun). r.id) (λ r. r.kind) run_id _ []
          (Distinct-select (λ (r : ExtractionRun). r.id) (in_runs cs) db.runs keyed.runs))
        (rw
          (find-select (λ (r : ExtractionRun). r.id) run_id (in_runs cs) db.runs
            (λ r q.
              contains-eq (run_ids cs) q
                (contains-somes (λ (x : ScheduleCandidate). x.extraction_run_id) m h)))
          (or_else-none _))

  pub context_kind :
      (cs : List ScheduleCandidate)
      → Distinct (λ (x : ScheduleCandidate). x.id) cs
      → Member c cs
      → lookup c.id (build_validation_batch_context cs db).extraction_kinds
        ≡ some (kind_of_run db c.extraction_run_id)
  unfolding build_validation_batch_context
  context_kind [] d m = elim m [ ]
  context_kind (x ∷ xs) d m =
      rw (lookup-from_rows (λ (x : ScheduleCandidate). x.id) _ c.id (x ∷ xs) [] d) (
        rw (find-Member (λ (x : ScheduleCandidate). x.id) d m)
          (ap some (run_kind-query (x ∷ xs) c.extraction_run_id refl m)))
