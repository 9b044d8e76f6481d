-- ===== src/Ingest/Crawl/Goes.antt =====
-- How one fetch of a source goes (ingest/crawl/pipeline.py): its end is booked, or it stops.
use uk_jamaat_directory.Prelude.{
  ℕ, ◌+◌, ◌≡◌, refl, ◌==◌, nat_eq, Bool, true, false, ◌⊎◌, String, Option, none, some, List, [],
  ◌∷◌, ◌++◌, first, arith, inl, inr, string_eq,
}
use uk_jamaat_directory.Models.Rows.{
  Mosque, MosqueSource, SourceHealth, ScheduleCandidate, SourceArtifact,
}
use uk_jamaat_directory.Models.Session.{
  Db, Session, Error, Result, ok, err, data_error, storage_error, network_error, ◌>>=◌, ◌>>◌,
  modify, gets, pure,
}
use uk_jamaat_directory.Models.Triples.{bind-ok}
use uk_jamaat_directory.Ingest.Crawl.State.{
  Crawler, FetchResult, Fetched, fetches, fetch_raises, ProcessSourceResult, no_result, fetch_delay,
  save_source, seen_at, touch_source_health, schedule_next_fetch,
}
use uk_jamaat_directory.Ingest.Crawl.Fetch.{
  book_failure, book_success, run_rows, run_on_body, run_with_key, run_for_mosque, mosque_of,
  run_extraction, extract_artifact, is_extracted, settle, after_unchanged, new_artifact, failed_run,
  headers_fit, is_stored, create_if, found_or_created, record_fetched_artifact, after_content,
  after_fetch, after_fetched, fetched_from, crawl,
}
use uk_jamaat_directory.Ingest.Crawl.Booked.{failures_of, IsTouched, touch_source_health-Touches}
use uk_jamaat_directory.Ingest.Crawl.Delay.{
  IsBooked, with_next_fetch-All, delay_interval, delay_backoff,
}

module _ (c : Crawler) (source : MosqueSource) where
  abbrev pub is_success : Option String → Bool
  is_success none = true
  is_success (some error) = false

  -- A crawl that returns, not skipped, with its end booked.
  abbrev pub Ends :
      List SourceHealth → List ScheduleCandidate → Result (ProcessSourceResult × Db) → Type 0
  Ends healths candidates o =
      (r : ProcessSourceResult) × (db' : Db) × (o ≡ ok (r, db'))
      × (r.skipped_reason ≡ none)
      × IsBooked c source.id (is_success r.error) healths candidates db'

  -- What stops a crawl: the storage takes the body not, or gives a stored one not back, a header is
  -- longer than its column, or the fetch itself raises.
  pub data Fault : Error → Type 0 where
    unstored : (key : String) → c.puts_bytes key ≡ false → Fault storage_error
    unread : (key : String) → c.gets_bytes key ≡ false → Fault storage_error
    unfit :
        (url : String) (prior : Option SourceArtifact) (f : FetchResult)
        → c.fetch_url url prior ≡ fetches f
        → headers_fit c source f ≡ false
        → Fault data_error
    unfetched :
        (url : String) (prior : Option SourceArtifact)
        → c.fetch_url url prior ≡ fetch_raises
        → Fault network_error

  abbrev pub Goes :
      List SourceHealth → List ScheduleCandidate → Result (ProcessSourceResult × Db) → Type 0
  Goes healths candidates o = Ends healths candidates o ⊎ ((e : Error) × (o ≡ err e) × Fault e)

  booked :
      (success : Bool) (health : SourceHealth) (db db₁ : Db)
      → IsTouched source.id success health db db₁
      → IsBooked c source.id success db.healths db.candidates
          (schedule_next_fetch c.settings c.now success health.consecutive_failures source.id db₁)
  unfolding schedule_next_fetch
  booked success health db db₁ t = record {
    health = health;
    found = t.found;
    failures = t.failures;
    failed = t.failed;
    others = t.others;
    candidates = t.candidates;
    delay = fetch_delay c.settings success health.consecutive_failures;
    next =
        with_next_fetch-All c source.id (fetch_delay c.settings success health.consecutive_failures)
          db₁.sources;
    interval = λ q. delay_interval c.settings success health.consecutive_failures q;
    backoff = λ q.
        delay_backoff c.settings success health.consecutive_failures
          (failures_of (first (λ h. h.source_id == source.id) db.healths)) q t.failures;
  }

  book_failure-Ends :
      (message : String) (r : ProcessSourceResult) (db : Db)
      → r.skipped_reason ≡ none
      → Ends db.healths db.candidates (book_failure c source message r db)
  unfolding book_failure
  book_failure-Ends message r db s =
      let (health, db₁, e, t) = touch_source_health-Touches c.now source.id false message db in
      (
        record r { error = some message },
        schedule_next_fetch c.settings c.now false health.consecutive_failures source.id db₁,
        bind-ok (touch_source_health c.now source.id false message) _ db e refl,
        s,
        booked false health db db₁ t,
      )

  book_success-Ends :
      (message : String) (r : ProcessSourceResult) (db : Db)
      → r.skipped_reason ≡ none
      → r.error ≡ none
      → Ends db.healths db.candidates (book_success c source message r db)
  unfolding book_success schedule_next_fetch fetch_delay
  book_success-Ends message r db s n =
      let (health, db₁, e, t) = touch_source_health-Touches c.now source.id true message db in
      (
        r,
        schedule_next_fetch c.settings c.now true 0 source.id db₁,
        bind-ok (touch_source_health c.now source.id true message) _ db e refl,
        s,
        rw n (booked true health db db₁ t),
      )

  run_rows-Ends :
      (artifact : SourceArtifact) (r : ProcessSourceResult) (db : Db)
      → r.skipped_reason ≡ none
      → Ends db.healths db.candidates
          ((run_rows c source artifact >>= λ error. book_failure c source error r) db)
  unfolding run_rows
  run_rows-Ends artifact r db s =
      book_failure-Ends "extractor produced no schedule rows" r
        (record db {
          next_id = db.next_id + 1;
          runs = db.runs ++ failed_run c source db.next_id artifact.id ∷ [];
        })
        s

  run_on_body-Goes :
      (artifact : SourceArtifact) (key : String) (b : Bool) (r : ProcessSourceResult) (db : Db)
      → c.gets_bytes key ≡ b
      → r.skipped_reason ≡ none
      → Goes db.healths db.candidates
          ((run_on_body c source artifact b >>= λ error. book_failure c source error r) db)
  run_on_body-Goes artifact key true r db e s = inl (run_rows-Ends artifact r db s)
  run_on_body-Goes artifact key false r db e s = inr (storage_error, refl, Fault.unread key e)

  run_with_key-Goes :
      (artifact : SourceArtifact) (key : Option String) (r : ProcessSourceResult) (db : Db)
      → r.skipped_reason ≡ none
      → Goes db.healths db.candidates
          ((run_with_key c source artifact key >>= λ error. book_failure c source error r) db)
  run_with_key-Goes artifact none r db s = inl (book_failure-Ends _ r db s)
  run_with_key-Goes artifact (some key) r db s =
      run_on_body-Goes artifact key (c.gets_bytes key) r db refl s

  run_for_mosque-Goes :
      (artifact : SourceArtifact) (has_body : Bool) (r : ProcessSourceResult)
      (mosque : Option Mosque) (db : Db)
      → r.skipped_reason ≡ none
      → Goes db.healths db.candidates (
          (run_for_mosque c source artifact has_body mosque >>= λ error.
          book_failure c source error r)
            db)
  run_for_mosque-Goes artifact has_body r none db s = inl (book_failure-Ends _ r db s)
  run_for_mosque-Goes artifact true r (some mosque) db s = inl (run_rows-Ends artifact r db s)
  run_for_mosque-Goes artifact false r (some mosque) db s = run_with_key-Goes artifact _ r db s

  settle-Goes :
      (message : String) (artifact : SourceArtifact) (has_body : Bool) (r : ProcessSourceResult)
      (extracted : Bool) (db : Db)
      → r.skipped_reason ≡ none
      → r.error ≡ none
      → Goes db.healths db.candidates (settle c source message artifact has_body r extracted db)
  unfolding extract_artifact run_extraction
  settle-Goes message artifact has_body r true db s n = inl (book_success-Ends message r db s n)
  settle-Goes message artifact has_body r false db s n =
      run_for_mosque-Goes artifact has_body r (mosque_of c source source.mosque_id db) db s

  after_unchanged-Goes :
      (prior : Option SourceArtifact) (db : Db)
      → Goes db.healths db.candidates (after_unchanged c source prior db)
  unfolding after_unchanged
  after_unchanged-Goes none db = inl (book_failure-Ends _ _ db refl)
  after_unchanged-Goes (some artifact) db =
      settle-Goes _ artifact false _ (is_extracted c source artifact.id db) db refl refl

  -- What follows the fetched artifact.
  abbrev with_recorded : SourceArtifact × Bool → Session ProcessSourceResult
  with_recorded recorded =
      modify (save_source source.id (seen_at c.now))
      >> (gets (is_extracted c source (recorded.0).id) >>= λ extracted.
          settle c source "fetch and extraction completed" recorded.0 true
            (record no_result { fetched = true; artifact_created = recorded.1 }) extracted)

  with_recorded-Goes :
      (recorded : SourceArtifact × Bool) (db : Db)
      → Goes db.healths db.candidates (with_recorded recorded db)
  with_recorded-Goes recorded db =
      settle-Goes _ recorded.0 true _ _ (save_source source.id (seen_at c.now) db) refl refl

  unstored_of :
      (fetch : FetchResult) (id : ℕ) → is_stored c source fetch id ≡ false → Fault storage_error
  unfolding is_stored
  unstored_of fetch id e = Fault.unstored (c.artifact_object_key id) (ground (arith, e))

  create_if-Goes :
      (url : String) (prior : Option SourceArtifact) (fetch : FetchResult) (stored : Bool)
      (fits : Bool) (db : Db)
      → c.fetch_url url prior ≡ fetches fetch
      → is_stored c source fetch db.next_id ≡ stored
      → headers_fit c source fetch ≡ fits
      → Goes db.healths db.candidates (
          ((create_if c source url fetch db.next_id stored fits >>= λ a. pure (a, true))
              >>= with_recorded)
            (record db { next_id = db.next_id + 1 }))
  create_if-Goes url prior fetch false fits db f s h =
      inr (storage_error, refl, unstored_of fetch db.next_id s)
  create_if-Goes url prior fetch true false db f s h =
      inr (data_error, refl, Fault.unfit url prior fetch f h)
  create_if-Goes url prior fetch true true db f s h =
      with_recorded-Goes (new_artifact c source url fetch db.next_id, true)
        (record db {
          next_id = db.next_id + 1;
          artifacts = db.artifacts ++ new_artifact c source url fetch db.next_id ∷ [];
        })

  found_or_created-Goes :
      (url : String) (prior : Option SourceArtifact) (fetch : FetchResult)
      (existing : Option SourceArtifact) (db : Db)
      → c.fetch_url url prior ≡ fetches fetch
      → Goes db.healths db.candidates
          ((found_or_created c source url fetch existing >>= with_recorded) db)
  found_or_created-Goes url prior fetch none db f =
      create_if-Goes url prior fetch _ _ db f refl refl
  found_or_created-Goes url prior fetch (some artifact) db f =
      with_recorded-Goes (artifact, false) db

  after_fetch-Goes :
      (url : String) (prior : Option SourceArtifact) (fetch : FetchResult) (error : Option String)
      (unchanged : Bool) (db : Db)
      → c.fetch_url url prior ≡ fetches fetch
      → Goes db.healths db.candidates (after_fetch c source url prior fetch error unchanged db)
  unfolding after_content record_fetched_artifact
  after_fetch-Goes url prior fetch (some error) unchanged db f =
      inl (book_failure-Ends error no_result db refl)
  after_fetch-Goes url prior fetch none true db f =
      after_unchanged-Goes prior (save_source source.id (seen_at c.now) db)
  after_fetch-Goes url prior fetch none false db f = found_or_created-Goes url prior fetch _ db f

  after_fetched-Goes :
      (url : String) (prior : Option SourceArtifact) (fetched : Fetched) (db : Db)
      → c.fetch_url url prior ≡ fetched
      → Goes db.healths db.candidates (after_fetched c source url prior fetched db)
  after_fetched-Goes url prior fetch_raises db f =
      inr (network_error, refl, Fault.unfetched url prior f)
  after_fetched-Goes url prior (fetches fetch) db f = after_fetch-Goes url prior fetch _ _ db f

  fetched_from-Goes :
      (url : Option String) (prior : Option SourceArtifact) (db : Db)
      → Goes db.healths db.candidates (fetched_from c source url prior db)
  fetched_from-Goes none prior db = inl (book_failure-Ends _ no_result db refl)
  fetched_from-Goes (some url) prior db = after_fetched-Goes url prior _ db refl

  pub crawl-Goes : (db : Db) → Goes db.healths db.candidates (crawl c source db)
  unfolding crawl
  crawl-Goes db = fetched_from-Goes _ _ db
