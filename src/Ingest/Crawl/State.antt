-- ===== src/Ingest/Crawl/State.antt =====
-- What a crawl reads and writes of its source (ingest/crawl/pipeline.py): its health and its next
-- fetch, in its metadata as the ISO text of an instant.
use uk_jamaat_directory.Prelude.{
  ℕ, zero, suc, ◌+◌, ◌*◌, ◌==◌, nat_eq, String, string_eq, Bool, true, false, not, ◌&&◌, Option,
  none, some, leb, update_where, if◌then◌else◌,
}
use uk_jamaat_directory.Domain.{SourceType, source_type_eq, source_failed}
use uk_jamaat_directory.Models.Calendar.{Instant}
use uk_jamaat_directory.Models.Json.{Json, iso_instant, bool, get, put}
use uk_jamaat_directory.Models.Rows.{Uuid, MosqueSource, SourceHealth, SourceArtifact}
use uk_jamaat_directory.Models.Session.{Db, Session, ◌>>=◌, ◌>>◌, pure, gets, modify, get_health}
use uk_jamaat_directory.Schedules.Freshness.{health_or_new, save_health}

pub record CrawlSettings : Type 0 where
  pub crawl_enabled : Bool
  pub crawl_interval_hours : ℕ

pub record FetchResult : Type 0 where
  pub content_hash : String
  pub has_body : Bool
  pub content_type : Option String
  pub etag : Option String
  pub last_modified : Option String
  pub unchanged : Bool
  pub error : Option String

-- `fetch_url` catches the errors of its HTTP client; others, as of a malformed address or of the
-- resolution of a host, go through.
pub data Fetched : Type 0 where
  fetches : FetchResult → Fetched
  fetch_raises : Fetched

pub record RepoExtractionOutcome : Type 0 where
  pub is_succeeded : Bool
  pub rows : ℕ
  pub error : Option String

-- The network, the names of stored objects and the runs of extractor scripts.
pub record Crawler : Type 0 where
  pub settings : CrawlSettings
  pub now : Instant
  pub fetch_url : String → Option SourceArtifact → Fetched
  pub artifact_object_key : Uuid → String
  -- Whether the storage takes the body of an artifact, and gives one back.
  pub puts_bytes : String → Bool
  pub gets_bytes : String → Bool
  pub run_extractor : MosqueSource → Session RepoExtractionOutcome

-- The result of one crawl, without its warnings and the names of the extractor.
pub record ProcessSourceResult : Type 0 where
  pub fetched : Bool
  pub unchanged : Bool
  pub artifact_created : Bool
  pub extracted : Bool
  pub candidates_created : ℕ
  pub skipped_reason : Option String
  pub error : Option String

abbrev pub no_result : ProcessSourceResult
no_result = record {
  fetched = false;
  unchanged = false;
  artifact_created = false;
  extracted = false;
  candidates_created = 0;
  skipped_reason = none;
  error = none;
}

-- A text that Python takes for true.
abbrev pub given_text : Option String → Option String
given_text none = none
given_text (some s) = if s == "" then none else some s

abbrev pub is_false : Option Json → Bool
is_false (some (bool b)) = not b
is_false _ = false

-- `_crawl_enabled_for_source`
unfoldable pub crawl_enabled_for_source : CrawlSettings → MosqueSource → Bool
crawl_enabled_for_source cfg source =
    cfg.crawl_enabled
    && (source.source_type == SourceType.mosque_website
        && not (is_false (get "crawl_enabled" source.metadata)))

abbrev pub is_due_at : Instant → Option Json → Bool
is_due_at now (some (iso_instant t)) = leb t now
is_due_at now _ = true

-- `_is_due`
unfoldable pub is_due : Instant → MosqueSource → Bool
is_due now source = is_due_at now (get "next_fetch_at" source.metadata)

abbrev pub hours : ℕ → ℕ
hours n = n * 3600

abbrev smaller : ℕ → ℕ → ℕ
smaller a b = if leb a b then a else b

abbrev power : ℕ → ℕ
power zero = 1
power (suc n) = 2 * power n

-- The hours until the next fetch.
unfoldable pub fetch_delay : CrawlSettings → Bool → ℕ → ℕ
fetch_delay cfg true failures = cfg.crawl_interval_hours
fetch_delay cfg false failures = smaller 24 (power (smaller failures 4))

abbrev pub save_source : Uuid → (MosqueSource → MosqueSource) → Db → Db
save_source id change db = record db { sources = update_where (λ s. s.id == id) change db.sources }

abbrev pub with_next_fetch : Instant → MosqueSource → MosqueSource
with_next_fetch t s = record s { metadata = put "next_fetch_at" (iso_instant t) s.metadata }

abbrev pub seen_at : Instant → MosqueSource → MosqueSource
seen_at now s = record s { last_seen_at = some now }

abbrev pub marked_failed : SourceHealth → SourceHealth
marked_failed h =
    if leb 3 h.consecutive_failures then record h { freshness_status = source_failed } else h

unfoldable pub touched : Instant → Bool → String → SourceHealth → SourceHealth
touched now true message h = record h {
  last_success_at = some now;
  consecutive_failures = 0;
  message = some message;
}
touched now false message h = marked_failed (record h {
  last_failure_at = some now;
  consecutive_failures = suc h.consecutive_failures;
  message = some message;
})

-- `_touch_source_health`
unfoldable pub touch_source_health : Instant → Uuid → Bool → String → Session SourceHealth
touch_source_health now source_id success message = do
  found ← gets (get_health source_id)
  health ← health_or_new source_id found
  modify (save_health (touched now success message health))
  pure (touched now success message health)

-- `_schedule_next_fetch`
unfoldable pub schedule_next_fetch : CrawlSettings → Instant → Bool → ℕ → Uuid → Db → Db
schedule_next_fetch cfg now success failures id db =
    save_source id (with_next_fetch (now + hours (fetch_delay cfg success failures))) db
