-- ===== src/Tests/Crawl.antt =====
-- The theorem about crawls, on a website that does not answer for the third time.
use uk_jamaat_directory.Prelude.{◌≡◌, ◌+◌, refl, true, false, none, some, [], ◌∷◌}
use uk_jamaat_directory.Domain.{SourceType, SourceType-discrete, source_failed}
use uk_jamaat_directory.Models.Json.{get, put}
use uk_jamaat_directory.Models.Rows.{MosqueSource, SourceHealth}
use uk_jamaat_directory.Models.Session.{Db, ok}
use uk_jamaat_directory.Schedules.Freshness.{health_or_new, new_health}
use uk_jamaat_directory.Ingest.Crawl.State.{
  Crawler, fetches, crawl_enabled_for_source, is_due, touch_source_health, touched,
  schedule_next_fetch, fetch_delay, no_result, with_next_fetch, hours,
}
use uk_jamaat_directory.Ingest.Crawl.Fetch.{crawl, latest_artifact, book_failure}
use uk_jamaat_directory.Ingest.Crawl.{process_source, process_found}
use uk_jamaat_directory.Ingest.Crawl.Outcome.{Crawls, process_source-Crawls}
use uk_jamaat_directory.Tests.Samples.{public_source, tables}

abbrev website : MosqueSource
website = record public_source {
  source_type = SourceType.mosque_website;
  source_url = some "https://example.org";
}

abbrev silent : Crawler
silent = record {
  settings = record { crawl_enabled = true; crawl_interval_hours = 24 };
  now = 1000;
  fetch_url = λ url prior. fetches (record {
    content_hash = "";
    has_body = false;
    content_type = none;
    etag = none;
    last_modified = none;
    unchanged = false;
    error = some "timeout";
  });
  puts_bytes = λ key. true;
  gets_bytes = λ key. true;
  artifact_object_key = λ id. "key";
  run_extractor = λ source db. ok (record { is_succeeded = false; rows = 0; error = none }, db);
}

abbrev failed_twice : SourceHealth
failed_twice = record (new_health website.id) { consecutive_failures = 2 }

abbrev stored : Db
stored = record tables { sources = website ∷ []; healths = failed_twice ∷ [] }

process_source-Crawls_example :
    Crawls silent website false stored (process_source silent website.id false stored)
process_source-Crawls_example = process_source-Crawls silent website false stored refl refl

-- The third failure marks the source, and the next fetch is eight hours later.
third_failure :
    process_source silent website.id false stored
    ≡ ok (
      record no_result { error = some "timeout" },
      record stored {
        healths =
            record failed_twice {
              consecutive_failures = 3;
              last_failure_at = some 1000;
              message = some "timeout";
              freshness_status = source_failed;
            }
            ∷ [];
        sources = with_next_fetch (1000 + hours 8) website ∷ [];
      },
    )
unfolding process_source process_found crawl_enabled_for_source is_due crawl latest_artifact
    book_failure touch_source_health touched schedule_next_fetch fetch_delay health_or_new get put
    SourceType-discrete
third_failure = refl
