-- ===== src/Models/Session.antt =====
-- The database session: the rows of each table, and operations that read and write them and may
-- raise. A raise leaves the transaction to be rolled back, so an error carries no tables.
use uk_jamaat_directory.Prelude.{◌+◌, String, Bool, true, false, Option, List, first, ◌==◌, nat_eq}
use uk_jamaat_directory.Models.Rows.{
  Uuid, Mosque, MosqueSource, ExtractionRun, ScheduleCandidate, DatasetVersion, ScheduleOccurrence,
  SourceHealth, ChangeEvent, ModerationAction, Correction, MosqueClaim, MosqueAlias,
  MosqueAttribute, IdentityMatchReview, SourceArtifact, SourceExtractorAssignment,
}

pub record Db : Type 0 where
  pub mosques : List Mosque
  pub sources : List MosqueSource
  pub runs : List ExtractionRun
  pub candidates : List ScheduleCandidate
  pub versions : List DatasetVersion
  pub occurrences : List ScheduleOccurrence
  pub healths : List SourceHealth
  pub events : List ChangeEvent
  pub actions : List ModerationAction
  pub corrections : List Correction
  pub claims : List MosqueClaim
  pub aliases : List MosqueAlias
  pub attributes : List MosqueAttribute
  pub reviews : List IdentityMatchReview
  pub artifacts : List SourceArtifact
  pub assignments : List SourceExtractorAssignment
  -- The supply of `uuid.uuid4()`: no row has this id or a later one.
  pub next_id : Uuid

-- What is raised: by the program, by a constraint, by a value that its column cannot hold (DataError),
-- by the object storage, or by the network.
pub data Error : Type 0 where
  value_error : String → Error
  integrity_error data_error storage_error network_error : Error
  mosque_not_found : Uuid → Error

pub data Result {ℓ} (A : Type ℓ) : Type ℓ where
  ok : A → Result A
  err : Error → Result A

abbrev pub Session : Type 0 → Type 0
Session A = Db → Result (A × Db)

infixl 5 ◌>>=◌ ◌>>◌
abbrev pub ◌>>=◌ : {A B : Type 0} → Session A → (A → Session B) → Session B
◌>>=◌ m f db = elim (m db) [ ok (a, db') ↦ f a db' | err e ↦ err e ]

abbrev pub ◌>>◌ : {A B : Type 0} → Session A → Session B → Session B
m >> k = m >>= λ _. k

abbrev pub pure : {A : Type 0} → A → Session A
pure a db = ok (a, db)

abbrev pub raise : {A : Type 0} → Error → Session A
raise e db = err e

abbrev pub gets : {A : Type 0} → (Db → A) → Session A
gets f db = ok (f db, db)

abbrev pub modify : (Db → Db) → Session (Unit {0})
modify f db = ok (tt, f db)

abbrev pub raise_if : Bool → Error → Session (Unit {0})
raise_if true e db = err e
raise_if false e db = ok (tt, db)

-- `uuid.uuid4()`.
abbrev pub uuid4 : Session Uuid
uuid4 db = ok (db.next_id, record db { next_id = db.next_id + 1 })

-- `session.get(Table, id)`.
abbrev pub get_source : Uuid → Db → Option MosqueSource
get_source id db = first (λ s. s.id == id) db.sources

abbrev pub get_mosque : Uuid → Db → Option Mosque
get_mosque id db = first (λ m. m.id == id) db.mosques

abbrev pub get_run : Uuid → Db → Option ExtractionRun
get_run id db = first (λ r. r.id == id) db.runs

abbrev pub get_candidate : Uuid → Db → Option ScheduleCandidate
get_candidate id db = first (λ c. c.id == id) db.candidates

abbrev pub get_health : Uuid → Db → Option SourceHealth
get_health id db = first (λ h. h.source_id == id) db.healths

abbrev pub get_attribute : Uuid → Db → Option MosqueAttribute
get_attribute id db = first (λ a. a.mosque_id == id) db.attributes

abbrev pub get_review : Uuid → Db → Option IdentityMatchReview
get_review id db = first (λ r. r.id == id) db.reviews

abbrev pub get_assignment : Uuid → Db → Option SourceExtractorAssignment
get_assignment id db = first (λ a. a.source_id == id) db.assignments
