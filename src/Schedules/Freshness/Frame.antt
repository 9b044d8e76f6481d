-- ===== src/Schedules/Freshness/Frame.antt =====
-- What the health updates of schedules/freshness.py leave alone.
use uk_jamaat_directory.Prelude.{
  ◌≡◌, refl, Bool, Option, none, some, List, All, All-update_where, update_where, first, ℕ, nat_eq,
  ◌==◌,
}
use uk_jamaat_directory.Domain.{FreshnessStatus}
use uk_jamaat_directory.Models.Calendar.{World}
use uk_jamaat_directory.Models.Rows.{
  Uuid, MosqueSource, ScheduleOccurrence, SourceHealth, DatasetVersion,
}
use uk_jamaat_directory.Models.Session.{Db, ok, ◌>>=◌, get_source, get_health}
use uk_jamaat_directory.Models.Triples.{Ensures}
use uk_jamaat_directory.Schedules.Types.{Settings}
use uk_jamaat_directory.Schedules.Dataset.{get_latest_published_version}
use uk_jamaat_directory.Schedules.Freshness.{
  linked_mosque, health_or_new, update_health, recompute_linked, recompute_source_health,
  classify_occurrence_freshness, refresh_with, refresh_occurrence_freshness_for_source,
}

-- The sources and the occurrences are as they were.
abbrev pub SameRows : Db → Db → Type 0
SameRows db db' = (db'.sources ≡ db.sources) × (db'.occurrences ≡ db.occurrences)

module _ (cfg : Settings) (w : World) (source_id : Uuid) where
  update_health_rows :
      (mosque_id : Uuid) (found : Option SourceHealth) (db : Db)
      → Ensures
          (λ _ db'. SameRows db db')
          ((health_or_new source_id found >>= update_health cfg w source_id mosque_id) db)
  unfolding Ensures health_or_new update_health
  update_health_rows mosque_id none db = (refl, refl)
  update_health_rows mosque_id (some health) db = (refl, refl)

  recompute_linked_rows :
      (mosque : Option Uuid) (db : Db)
      → Ensures (λ _ db'. SameRows db db') (recompute_linked cfg w source_id mosque db)
  unfolding Ensures recompute_linked
  recompute_linked_rows none db = tt
  recompute_linked_rows (some mosque_id) db =
      update_health_rows mosque_id (get_health source_id db) db

  pub recompute_source_health_rows :
      (db : Db) → Ensures (λ _ db'. SameRows db db') (recompute_source_health cfg w source_id db)
  unfolding recompute_source_health
  recompute_source_health_rows db =
      recompute_linked_rows (linked_mosque (get_source source_id db)) db

-- A property of occurrences that no freshness status changes.
abbrev pub IsStable : (ScheduleOccurrence → Type 0) → Type 0
IsStable P =
    (o : ScheduleOccurrence) (s : FreshnessStatus) → P o → P (record o { freshness_status = s })

module _ (P : ScheduleOccurrence → Type 0) (stable : IsStable P) (source_id : Uuid) where
  refresh_with_rows :
      (health : Option SourceHealth) (version : Option DatasetVersion) (db : Db)
      → All P db.occurrences
      → Ensures
          (λ _ db'. (db'.sources ≡ db.sources) × All P db'.occurrences)
          (refresh_with source_id health version db)
  unfolding Ensures refresh_with
  refresh_with_rows none version db h = (refl, h)
  refresh_with_rows (some health) none db h = (refl, h)
  refresh_with_rows (some health) (some version) db h = (
    refl,
    All-update_where P _ _ db.occurrences
        (λ o a. stable o (classify_occurrence_freshness health.freshness_status) a) h,
  )

  pub refresh_occurrence_freshness_rows :
      (db : Db)
      → All P db.occurrences
      → Ensures
          (λ _ db'. (db'.sources ≡ db.sources) × All P db'.occurrences)
          (refresh_occurrence_freshness_for_source source_id db)
  unfolding refresh_occurrence_freshness_for_source
  refresh_occurrence_freshness_rows db h =
      refresh_with_rows (get_health source_id db) (get_latest_published_version db) db h

-- The source is stored and linked to a mosque.
abbrev pub IsLinked : List MosqueSource → Uuid → Type 0
IsLinked sources id =
    (mosque_id : Uuid) × (linked_mosque (first (λ s. s.id == id) sources) ≡ some mosque_id)

module _ (cfg : Settings) (w : World) (source_id : Uuid) where
  updated_health :
      (mosque_id : Uuid) (found : Option SourceHealth) (db : Db)
      → (health : SourceHealth) × (db' : Db) × ((health_or_new source_id found
              >>= update_health cfg w source_id mosque_id)
            db
          ≡ ok (health, db'))
        × SameRows db db'
  unfolding health_or_new update_health
  updated_health mosque_id none db = (_, _, refl, (refl, refl))
  updated_health mosque_id (some health) db = (_, _, refl, (refl, refl))

  pub recompute_source_health_returns :
      (db : Db)
      → IsLinked db.sources source_id
      → (health : SourceHealth) × (db' : Db) × (recompute_source_health cfg w source_id db
          ≡ ok (health, db'))
        × SameRows db db'
  unfolding recompute_source_health recompute_linked
  recompute_source_health_returns db linked =
      rw linked.1 (updated_health linked.0 (get_health source_id db) db)

-- A refresh returns and gives one status to some of the occurrences.
abbrev pub with_status : FreshnessStatus → ScheduleOccurrence → ScheduleOccurrence
with_status s o = record o { freshness_status = s }

module _ (P : List ScheduleOccurrence → Type 0) (source_id : Uuid) (db : Db) (h : P db.occurrences)
    (keep : (p : ScheduleOccurrence → Bool) (s : FreshnessStatus)
      → P (update_where p (with_status s) db.occurrences)) where
  refresh_with_returns :
      (health : Option SourceHealth) (version : Option DatasetVersion)
      → (n : ℕ) × (db' : Db) × (refresh_with source_id health version db ≡ ok (n, db'))
        × (db'.sources ≡ db.sources)
        × P db'.occurrences
  unfolding refresh_with
  refresh_with_returns none version = (_, _, refl, refl, h)
  refresh_with_returns (some health) none = (_, _, refl, refl, h)
  refresh_with_returns (some health) (some version) = (_, _, refl, refl, keep _ _)

  pub refresh_returns :
      (n : ℕ) × (db' : Db) × (refresh_occurrence_freshness_for_source source_id db ≡ ok (n, db'))
      × (db'.sources ≡ db.sources)
      × P db'.occurrences
  unfolding refresh_occurrence_freshness_for_source
  refresh_returns = refresh_with_returns (get_health source_id db) (get_latest_published_version db)
