-- ===== src/Schedules/Prefetch.antt =====
-- schedules/prefetch.py: one query for each table gathers what the checks of a batch of candidates
-- look up. Each dict is built by the comprehension that the code writes.
pub mod Lookup
pub mod Duplicates
use native.Mathlib.Decide.{ℕ_discrete}
use uk_jamaat_directory.Prelude.{
  Eq, discrete_eq, ◌==◌, nat_eq, option_eq, Bool, true, false, not, ◌&&◌, ◌||◌, Option, none, some,
  List, [], ◌∷◌, ◌++◌, map, select, contains, if◌then◌else◌,
}
use uk_jamaat_directory.Prelude.Int.{ℤ, ℤ-discrete}
use uk_jamaat_directory.Prelude.Dict.{Dict, lookup, insert, from_rows}
use uk_jamaat_directory.Domain.{
  ExtractionKind, Prayer, Prayer-discrete, CandidateStatus, candidate_status_eq,
}
use uk_jamaat_directory.Models.Calendar.{Date}
use uk_jamaat_directory.Models.Rows.{Uuid, Mosque, MosqueSource, ExtractionRun, ScheduleCandidate}
use uk_jamaat_directory.Models.Session.{Db}

pub record ValidationBatchContext : Type 0 where
  pub sources : Dict Uuid MosqueSource
  pub mosques : Dict Uuid Mosque
  pub extraction_kinds : Dict Uuid (Option ExtractionKind)
  pub duplicate_ids : Dict Uuid (List Uuid)

-- The tuple of `_natural_key`.
pub record NaturalKey : Type 0 where
  pub mosque_id : Uuid
  pub source_id : Uuid
  pub date : Date
  pub prayer : Prayer
  pub session_number : ℤ

unfoldable pub NaturalKey-discrete : Discrete NaturalKey
unfolding ℕ_discrete ℤ-discrete Prayer-discrete
NaturalKey-discrete = hlevel (ℕ_discrete, ℤ-discrete, Prayer-discrete)

instance abbrev pub natural_key_eq : Eq NaturalKey
natural_key_eq = discrete_eq NaturalKey-discrete

abbrev pub natural_key : ScheduleCandidate → Option NaturalKey
natural_key c = elim c.mosque_id [
  | none ↦ none
  | some mosque_id ↦ some (record {
    mosque_id = mosque_id;
    source_id = c.source_id;
    date = c.date;
    prayer = c.prayer;
    session_number = c.session_number;
  })
]

-- `ACTIVE_CANDIDATE_STATUSES`
abbrev pub is_active : ScheduleCandidate → Bool
is_active c = c.status == CandidateStatus.pending || c.status == CandidateStatus.approved

-- `{candidate.mosque_id for candidate in candidates if candidate.mosque_id is not None}`
abbrev somes {ℓ} : {A : Type ℓ} → List (Option A) → List A
somes [] = []
somes (none ∷ os) = somes os
somes (some a ∷ os) = a ∷ somes os

abbrev source_ids : List ScheduleCandidate → List Uuid
source_ids cs = map (λ (c : ScheduleCandidate). c.source_id) cs

abbrev mosque_ids : List ScheduleCandidate → List Uuid
mosque_ids cs = somes (map (λ (c : ScheduleCandidate). c.mosque_id) cs)

abbrev run_ids : List ScheduleCandidate → List Uuid
run_ids cs = somes (map (λ (c : ScheduleCandidate). c.extraction_run_id) cs)

abbrev or_empty {ℓ} : {A : Type ℓ} → Option (List A) → List A
or_empty none = []
or_empty (some xs) = xs

-- `by_key[key].append(row.id)` on a defaultdict of lists, for each row that has a key.
unfoldable pub group_row :
    ScheduleCandidate
    → Option NaturalKey
    → Dict NaturalKey (List Uuid)
    → Dict NaturalKey (List Uuid)
group_row row none by_key = by_key
group_row row (some key) by_key = insert key (or_empty (lookup key by_key) ++ row.id ∷ []) by_key

unfoldable pub group_rows :
    List ScheduleCandidate → Dict NaturalKey (List Uuid) → Dict NaturalKey (List Uuid)
group_rows [] by_key = by_key
group_rows (row ∷ rows) by_key = group_rows rows (group_row row (natural_key row) by_key)

-- `by_key.get(key or (), [])`: the empty tuple is no key of the dict.
abbrev ids_of : Option NaturalKey → Dict NaturalKey (List Uuid) → List Uuid
ids_of none by_key = []
ids_of (some key) by_key = or_empty (lookup key by_key)

-- `set(by_key.get(key or (), [])) - {candidate.id}`
abbrev other_ids : ScheduleCandidate → Dict NaturalKey (List Uuid) → List Uuid
other_ids c by_key = select (λ i. not (i == c.id)) (ids_of (natural_key c) by_key)

-- The WHERE clauses of the query for active candidates of the batch's mosques.
abbrev is_active_in : List Uuid → ScheduleCandidate → Bool
is_active_in ids c = is_active c && elim c.mosque_id [ none ↦ false | some m ↦ contains m ids ]

-- The two returns of `_build_duplicate_map`, by the mosques of the batch.
unfoldable pub duplicate_map : List Uuid → List ScheduleCandidate → Db → Dict Uuid (List Uuid)
duplicate_map [] candidates db = from_rows (λ (c : ScheduleCandidate). c.id) (λ c. []) candidates []
duplicate_map ids candidates db =
    let by_key = group_rows (select (is_active_in ids) db.candidates) [] in
    from_rows (λ (c : ScheduleCandidate). c.id) (λ c. other_ids c by_key) candidates []

unfoldable pub build_duplicate_map : List ScheduleCandidate → Db → Dict Uuid (List Uuid)
build_duplicate_map candidates db = duplicate_map (mosque_ids candidates) candidates db

-- The kind of a candidate's run, among the runs of the batch.
abbrev run_kind : Dict Uuid ExtractionKind → Option Uuid → Option ExtractionKind
run_kind run_kinds none = none
run_kind run_kinds (some run_id) = lookup run_id run_kinds

unfoldable pub build_validation_batch_context : List ScheduleCandidate → Db → ValidationBatchContext
build_validation_batch_context [] db = record {
  sources = [];
  mosques = [];
  extraction_kinds = [];
  duplicate_ids = [];
}
build_validation_batch_context candidates db =
    let run_kinds =
      from_rows (λ (r : ExtractionRun). r.id) (λ r. r.kind)
        (select (λ r. contains r.id (run_ids candidates)) db.runs) [] in
    record {
      sources =
          from_rows (λ (s : MosqueSource). s.id) (λ s. s)
            (select (λ s. contains s.id (source_ids candidates)) db.sources) [];
      mosques =
          from_rows (λ (m : Mosque). m.id) (λ m. m)
            (select (λ m. contains m.id (mosque_ids candidates)) db.mosques) [];
      extraction_kinds =
          from_rows (λ (c : ScheduleCandidate). c.id) (λ c. run_kind run_kinds c.extraction_run_id)
            candidates [];
      duplicate_ids = build_duplicate_map candidates db;
    }
