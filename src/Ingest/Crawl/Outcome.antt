-- ===== src/Ingest/Crawl/Outcome.antt =====
-- How a crawl of a source without a repository assignment ends (ingest/crawl/pipeline.py), and what
-- stops it.
use uk_jamaat_directory.Prelude.{
  ◌≡◌, ◌≢◌, refl, ap, nat_eq, Bool, true, false, not, ◌&&◌, ◌||◌, ◌⊎◌, none, some, arith, inl, inr,
  if◌then◌else◌, string_eq,
}
use uk_jamaat_directory.Models.Rows.{MosqueSource}
use uk_jamaat_directory.Models.Session.{Db, Result, ok, pure, get_source, get_assignment}
use uk_jamaat_directory.Ingest.Crawl.State.{
  Crawler, ProcessSourceResult, no_result, crawl_enabled_for_source, is_due,
}
use uk_jamaat_directory.Ingest.Crawl.Fetch.{crawl}
use uk_jamaat_directory.Ingest.Crawl.{
  is_active, process_checked, process_found, process_row, process_source,
}
use uk_jamaat_directory.Ingest.Crawl.Goes.{Goes, crawl-Goes}

module _ (c : Crawler) (source : MosqueSource) (force : Bool) where
  -- Crawling is off, or the source waits for its next fetch.
  abbrev pub is_passed_over : Bool
  is_passed_over =
      not (crawl_enabled_for_source c.settings source) || (not force && not (is_due c.now source))

  -- The ways a crawl goes, with what `process_source` returns or raises.
  abbrev pub Crawls : Db → Result (ProcessSourceResult × Db) → Type 0
  Crawls db o =
      ((is_passed_over ≡ true)
        × (r : ProcessSourceResult) × (o ≡ ok (r, db))
        × (r.skipped_reason ≢ none))
      ⊎ ((is_passed_over ≡ false) × Goes c source db.healths db.candidates o)

  either_due :
      (b : Bool) (db : Db)
      → (b ≡ true → is_passed_over ≡ true)
      → (b ≡ false → is_passed_over ≡ false)
      → Crawls db (
          (if b
              then pure (record no_result { skipped_reason = some "not due for fetch" })
              else crawl c source)
            db)
  either_due true db f g =
      inl (f refl, record no_result { skipped_reason = some "not due for fetch" }, refl, λ q. cc)
  either_due false db f g = inr (g refl, crawl-Goes c source db)

  checked-Crawls :
      (b : Bool) (db : Db)
      → crawl_enabled_for_source c.settings source ≡ b
      → Crawls db (process_checked c source force false b db)
  checked-Crawls false db e = inl (
    ground (arith, e),
    record no_result { skipped_reason = some "crawl disabled" },
    refl,
    λ q. cc,
  )
  checked-Crawls true db e =
      either_due (not force && not (is_due c.now source)) db (λ t. ground (arith, e, t))
        (λ f. ground (arith, e, f))

  -- A crawl of a stored source that no repository extractor is assigned to goes one of three ways.
  -- If crawling is off for the source, or it is not due and not forced, it returns and the tables
  -- stay as they are. Otherwise it returns with its end booked: no candidate is added, the health of
  -- the source and of no other is written, with no failures after a success and with one more after
  -- an error, a third failure in a row marks the source as failed, and the next fetch is set: after
  -- a success by the interval of the settings, after an error 2 to 16 hours later. Or it raises, and
  -- for one of four reasons only: the storage refuses to take a body or to give one, a header of the
  -- answer does not fit its column, or the fetch itself raises.
  pub process_source-Crawls :
      (db : Db)
      → get_source source.id db ≡ some source
      → is_active c source (get_assignment source.id db) ≡ false
      → Crawls db (process_source c source.id force db)
  unfolding process_source process_found
  process_source-Crawls db found free = rw (ap (λ o. process_row c force o db) found) (
      rw
        (ap (λ b. process_checked c source force b (crawl_enabled_for_source c.settings source) db)
          free)
        (checked-Crawls (crawl_enabled_for_source c.settings source) db refl))
