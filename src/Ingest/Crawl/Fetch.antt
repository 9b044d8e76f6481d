-- ===== src/Ingest/Crawl/Fetch.antt =====
-- One fetch of a source (ingest/crawl/pipeline.py), with its artifact (ingest/artifacts.py) and
-- run_extraction of ingest/extract/runner.py, whose routing knows no extractor.
use uk_jamaat_directory.Prelude.{
  ◌==◌, nat_eq, String, string_eq, Bool, true, false, ◌&&◌, ◌||◌, Option, none, some, List, [], ◌∷◌,
  ◌++◌, first, any, leb, not, if◌then◌else◌,
}
use uk_jamaat_directory.Domain.{source_type_eq, ExtractionKind}
use uk_jamaat_directory.Models.Rows.{Uuid, Mosque, MosqueSource, ExtractionRun, SourceArtifact}
use uk_jamaat_directory.Models.Session.{
  Db, Session, ◌>>=◌, ◌>>◌, pure, raise, gets, modify, uuid4, get_mosque, data_error, storage_error,
  network_error,
}
use uk_jamaat_directory.Models.Columns.{fits_text, fits_optional}
use uk_jamaat_directory.Schedules.Queries.{column_is}
use uk_jamaat_directory.Ingest.Crawl.State.{
  FetchResult, Fetched, fetches, fetch_raises, Crawler, ProcessSourceResult, no_result, given_text,
  save_source, seen_at, touch_source_health, schedule_next_fetch,
}

module _ (c : Crawler) (source : MosqueSource) where
  -- The end of a crawl that failed, and of one that did not.
  unfoldable pub book_failure : String → ProcessSourceResult → Session ProcessSourceResult
  book_failure message result = do
    health ← touch_source_health c.now source.id false message
    modify (schedule_next_fetch c.settings c.now false health.consecutive_failures source.id)
    pure (record result { error = some message })

  unfoldable pub book_success : String → ProcessSourceResult → Session ProcessSourceResult
  book_success message result = do
    touch_source_health c.now source.id true message
    modify (schedule_next_fetch c.settings c.now true 0 source.id)
    pure result

  -- What `run_extraction` returns: an error, as its routing yields no rows.
  abbrev pub failed_run : Uuid → Uuid → ExtractionRun
  failed_run id artifact_id = record {
    id = id;
    artifact_id = some artifact_id;
    source_id = source.id;
    kind = ExtractionKind.deterministic;
    extractor_version = "unknown";
    status = "failed";
  }

  unfoldable pub run_rows : SourceArtifact → Session String
  run_rows artifact = do
    id ← uuid4
    modify (λ db. record db { runs = db.runs ++ failed_run id artifact.id ∷ [] })
    pure "extractor produced no schedule rows"

  -- The storage may refuse to give the body.
  abbrev pub run_on_body : SourceArtifact → Bool → Session String
  run_on_body artifact false = raise storage_error
  run_on_body artifact true = run_rows artifact

  abbrev pub run_with_key : SourceArtifact → Option String → Session String
  run_with_key artifact none = pure "artifact has no object_key and no inline body"
  run_with_key artifact (some key) = run_on_body artifact (c.gets_bytes key)

  abbrev pub run_for_mosque : SourceArtifact → Bool → Option Mosque → Session String
  run_for_mosque artifact has_body none = pure "source is not linked to a mosque"
  run_for_mosque artifact true (some mosque) = run_rows artifact
  run_for_mosque artifact false (some mosque) =
      run_with_key artifact (given_text artifact.object_key)

  abbrev pub mosque_of : Option Uuid → Db → Option Mosque
  mosque_of none db = none
  mosque_of (some id) db = get_mosque id db

  unfoldable pub run_extraction : SourceArtifact → Bool → Session String
  run_extraction artifact has_body = do
    mosque ← gets (mosque_of source.mosque_id)
    run_for_mosque artifact has_body mosque

  -- `run_extraction` with `_apply_extraction_result`
  unfoldable pub extract_artifact :
      SourceArtifact → Bool → ProcessSourceResult → Session ProcessSourceResult
  extract_artifact artifact has_body result = do
    error ← run_extraction artifact has_body
    book_failure error result

  -- `_latest_successful_extraction_for_artifact`, as a test.
  abbrev pub is_extracted : Uuid → Db → Bool
  is_extracted artifact_id db =
      any (λ (r : ExtractionRun). column_is r.artifact_id artifact_id && r.status == "succeeded")
        db.runs

  -- The content was extracted before, or is extracted now.
  abbrev pub settle :
      String → SourceArtifact → Bool → ProcessSourceResult → Bool → Session ProcessSourceResult
  settle message artifact has_body result true = book_success message result
  settle message artifact has_body result false = extract_artifact artifact has_body result

  unfoldable pub after_unchanged : Option SourceArtifact → Session ProcessSourceResult
  after_unchanged none =
      book_failure "unchanged response without prior artifact"
        (record no_result { fetched = true; unchanged = true })
  after_unchanged (some artifact) = do
    extracted ← gets (is_extracted artifact.id)
    settle "content unchanged (304 or prior hash)" artifact false
        (record no_result { fetched = true; unchanged = true }) extracted

  -- `record_fetched_artifact` of ingest/artifacts.py
  abbrev pub new_artifact : String → FetchResult → Uuid → SourceArtifact
  new_artifact url fetch id = record {
    id = id;
    source_id = source.id;
    fetched_url = url;
    object_key = if fetch.has_body then some (c.artifact_object_key id) else none;
    content_hash = fetch.content_hash;
    fetched_at = c.now;
  }

  abbrev pub or_octets : Option String → String
  or_octets none = "application/octet-stream"
  or_octets (some t) = t

  -- The headers fit their columns, which they reach as the server sent them.
  unfoldable pub headers_fit : FetchResult → Bool
  headers_fit fetch =
      fits_text 120 (or_octets (given_text fetch.content_type))
      && (fits_optional 255 fetch.etag && fits_optional 255 fetch.last_modified)

  -- The storage takes the body, if there is one.
  unfoldable pub is_stored : FetchResult → Uuid → Bool
  is_stored fetch id = not fetch.has_body || c.puts_bytes (c.artifact_object_key id)

  abbrev pub create_if : String → FetchResult → Uuid → Bool → Bool → Session SourceArtifact
  create_if url fetch id false fits = raise storage_error
  create_if url fetch id true false = raise data_error
  create_if url fetch id true true = do
    modify (λ db. record db { artifacts = db.artifacts ++ new_artifact url fetch id ∷ [] })
    pure (new_artifact url fetch id)

  abbrev pub create_artifact : String → FetchResult → Uuid → Session SourceArtifact
  create_artifact url fetch id = create_if url fetch id (is_stored fetch id) (headers_fit fetch)

  abbrev pub found_or_created :
      String → FetchResult → Option SourceArtifact → Session (SourceArtifact × Bool)
  found_or_created url fetch (some artifact) = pure (artifact, false)
  found_or_created url fetch none = do
    id ← uuid4
    artifact ← create_artifact url fetch id
    pure (artifact, true)

  unfoldable pub record_fetched_artifact : String → FetchResult → Session (SourceArtifact × Bool)
  record_fetched_artifact url fetch = do
    existing ← gets (λ db.
        first (λ a. a.source_id == source.id && a.content_hash == fetch.content_hash) db.artifacts)
    found_or_created url fetch existing

  unfoldable pub after_content : String → FetchResult → Session ProcessSourceResult
  after_content url fetch = do
    recorded ← record_fetched_artifact url fetch
    modify (save_source source.id (seen_at c.now))
    extracted ← gets (is_extracted (recorded.0).id)
    settle "fetch and extraction completed" recorded.0 true
        (record no_result { fetched = true; artifact_created = recorded.1 }) extracted

  abbrev pub after_fetch :
      String
      → Option SourceArtifact
      → FetchResult
      → Option String
      → Bool
      → Session ProcessSourceResult
  after_fetch url prior fetch (some error) unchanged = book_failure error no_result
  after_fetch url prior fetch none true =
      modify (save_source source.id (seen_at c.now)) >> after_unchanged prior
  after_fetch url prior fetch none false = after_content url fetch

  -- `latest_artifact_for_source`
  abbrev later : SourceArtifact → Option SourceArtifact → SourceArtifact
  later a none = a
  later a (some b) = if leb b.fetched_at a.fetched_at then a else b

  unfoldable pub latest_artifact : List SourceArtifact → Option SourceArtifact
  latest_artifact [] = none
  latest_artifact (a ∷ rest) =
      let latest = latest_artifact rest in
      if a.source_id == source.id then some (later a latest) else latest

  abbrev pub after_fetched : String → Option SourceArtifact → Fetched → Session ProcessSourceResult
  after_fetched url prior fetch_raises = raise network_error
  after_fetched url prior (fetches fetch) =
      after_fetch url prior fetch (given_text fetch.error) fetch.unchanged

  abbrev pub fetched_from : Option String → Option SourceArtifact → Session ProcessSourceResult
  fetched_from none prior = book_failure "source has no source_url" no_result
  fetched_from (some url) prior = after_fetched url prior (c.fetch_url url prior)

  unfoldable pub crawl : Session ProcessSourceResult
  crawl = do
    prior ← gets (λ db. latest_artifact db.artifacts)
    fetched_from (given_text source.source_url) prior
