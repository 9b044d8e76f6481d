-- ===== src/Schedules/Freshness.antt =====
-- schedules/freshness.py: how fresh a source's published schedule is, and the statuses that its
-- health record and its occurrences carry.
pub mod Coverage
pub mod Frame
use uk_jamaat_directory.Prelude.{
  ℕ, zero, suc, ◌+◌, ◌-◌, ◌*◌, ◌==◌, nat_eq, String, Bool, true, false, not, ◌&&◌, ◌||◌, Option,
  none, some, List, [], ◌∷◌, ◌++◌, map, select, all, any, contains, first, length, update_where,
  leb, ltb, if◌then◌else◌,
}
use uk_jamaat_directory.Domain.{
  FreshnessStatus, fresh, stale, missing_today, missing_next_7_days, source_failed, needs_review,
  freshness_status_eq, Prayer, prayer_eq,
}
use uk_jamaat_directory.Models.Calendar.{Date, Instant, days, World}
use uk_jamaat_directory.Models.Rows.{
  Uuid, MosqueSource, ScheduleOccurrence, SourceHealth, DatasetVersion,
}
use uk_jamaat_directory.Models.Session.{
  Db, Session, Error, value_error, ◌>>=◌, ◌>>◌, pure, raise, gets, modify, raise_if, get_source,
  get_health,
}
use uk_jamaat_directory.Schedules.Types.{Settings}
use uk_jamaat_directory.Schedules.Keys.{expected_prayers_for_date}
use uk_jamaat_directory.Schedules.Gates.{is_public}
use uk_jamaat_directory.Schedules.Dataset.{get_latest_published_version}

-- The set of (date, prayer) pairs that have an occurrence.
abbrev pub DayPrayers : Type 0
DayPrayers = List (Date × Prayer)

-- The join with the source of a row, under `public_source_filter`.
abbrev pub has_public_source : Db → ScheduleOccurrence → Bool
has_public_source db o = elim (get_source o.source_id db) [ none ↦ false | some s ↦ is_public s ]

abbrev pub in_version : Option Uuid → ScheduleOccurrence → Bool
in_version none o = true
in_version (some id) o = elim o.dataset_version_id [ none ↦ false | some v ↦ v == id ]

unfoldable pub published_occurrence_keys : Uuid → Uuid → Date → Date → Option Uuid → Db → DayPrayers
published_occurrence_keys mosque_id source_id date_from date_to version_id db =
    map (λ (o : ScheduleOccurrence). (o.date, o.prayer))
      (select
        (λ o.
          o.mosque_id == mosque_id
          && (o.source_id == source_id
              && (leb date_from o.date
                  && (leb o.date date_to && (has_public_source db o && in_version version_id o)))))
        db.occurrences)

-- `(day, prayer) in keys`, as `prayer in {prayer for day, prayer in keys if day == current}`
abbrev pub has_prayer : DayPrayers → Date → Prayer → Bool
has_prayer keys day prayer = any (λ (k : Date × Prayer). k.0 == day && k.1 == prayer) keys

-- `expected.issubset(present)`
unfoldable pub day_complete : DayPrayers → Date → Bool
day_complete keys day = all (has_prayer keys day) (expected_prayers_for_date day)

-- The loop from `current`, with so many days left.
unfoldable pub coverage_from : DayPrayers → Date → ℕ → ℕ
coverage_from keys current zero = 0
coverage_from keys current (suc left) =
    (if day_complete keys current then 1 else 0) + coverage_from keys (current + 1) left

unfoldable pub coverage_days_with_all_prayers : DayPrayers → Date → Date → ℕ
coverage_days_with_all_prayers keys start end = coverage_from keys start (end + 1 - start)

abbrev is_stale : Settings → Instant → Option Instant → Bool
is_stale cfg now none = false
is_stale cfg now (some at) = ltb at (now - days cfg.freshness_stale_days)

-- The status, the days covered and the message.
unfoldable pub classify_source_freshness :
    Settings → Instant → Date → DayPrayers → Option Instant → ℕ → FreshnessStatus × ℕ × String
classify_source_freshness cfg now today keys last_success_at consecutive_failures =
    let coverage = coverage_days_with_all_prayers keys today (today + 7) in
    if leb 3 consecutive_failures
    then (source_failed, 0, "three or more consecutive source failures")
    else if is_stale cfg now last_success_at
    then (stale, coverage, "source not refreshed within stale threshold")
    else if not (day_complete keys today)
    then (missing_today, coverage, "incomplete prayer coverage for today")
    else if ltb coverage 8
    then (missing_next_7_days, coverage, "incomplete coverage for today and the next 7 days")
    else (fresh, coverage, "published schedule coverage is current")

unfoldable pub classify_occurrence_freshness : FreshnessStatus → FreshnessStatus
classify_occurrence_freshness status =
    if status == fresh
    then fresh
    else if status == missing_today || status == missing_next_7_days
    then status
    else if status == stale
    then stale
    else if status == source_failed
    then source_failed
    else needs_review

-- The columns of a new row, as the defaults of the table fill them.
abbrev pub new_health : Uuid → SourceHealth
new_health source_id = record {
  source_id = source_id;
  freshness_status = needs_review;
  last_success_at = none;
  last_failure_at = none;
  consecutive_failures = 0;
  next_7_days_coverage = 0;
  message = none;
}

-- The row of a source, added to the table if it is missing.
unfoldable pub health_or_new : Uuid → Option SourceHealth → Session SourceHealth
health_or_new source_id none = do
  modify (λ db. record db { healths = db.healths ++ new_health source_id ∷ [] })
  pure (new_health source_id)
health_or_new source_id (some health) = pure health

abbrev pub save_health : SourceHealth → Db → Db
save_health health db = record db {
  healths = update_where (λ h. h.source_id == health.source_id) (λ _. health) db.healths;
}

abbrev pub version_id_of : Option DatasetVersion → Option Uuid
version_id_of none = none
version_id_of (some v) = some v.id

-- The health record as a classification leaves it.
abbrev pub classified : FreshnessStatus × ℕ × String → SourceHealth → SourceHealth
classified (status, coverage, message) health = record health {
  freshness_status = status;
  next_7_days_coverage = coverage;
  message = some message;
}

unfoldable pub update_health : Settings → World → Uuid → Uuid → SourceHealth → Session SourceHealth
update_health cfg w source_id mosque_id health = do
  let today = w.today_in "Europe/London"
  version ← gets get_latest_published_version
  keys ← gets (
      published_occurrence_keys mosque_id source_id (today - 1) (today + 7) (version_id_of version))
  let health' =
      classified
        (classify_source_freshness cfg w.now today keys health.last_success_at
          health.consecutive_failures)
        health
  modify (save_health health')
  pure health'

abbrev pub linked_mosque : Option MosqueSource → Option Uuid
linked_mosque none = none
linked_mosque (some source) = source.mosque_id

unfoldable pub recompute_linked : Settings → World → Uuid → Option Uuid → Session SourceHealth
recompute_linked cfg w source_id none = raise (value_error "source not found or not linked")
recompute_linked cfg w source_id (some mosque_id) = do
  found ← gets (get_health source_id)
  health ← health_or_new source_id found
  update_health cfg w source_id mosque_id health

unfoldable pub recompute_source_health : Settings → World → Uuid → Session SourceHealth
recompute_source_health cfg w source_id = do
  mosque ← gets (λ db. linked_mosque (get_source source_id db))
  recompute_linked cfg w source_id mosque

abbrev pub is_linked_public : MosqueSource → Bool
is_linked_public s = elim s.mosque_id [ none ↦ false | some m ↦ is_public s ]

unfoldable pub recompute_each : Settings → World → List MosqueSource → ℕ → Session ℕ
recompute_each cfg w [] count = pure count
recompute_each cfg w (s ∷ sources) count = do
  recompute_source_health cfg w s.id
  recompute_each cfg w sources (count + 1)

unfoldable pub recompute_all_source_health : Settings → World → Session ℕ
recompute_all_source_health cfg w = do
  sources ← gets (λ db. select is_linked_public db.sources)
  recompute_each cfg w sources 0

-- Which occurrences the refresh visits, and which of those it changes.
abbrev pub is_current : Uuid → Uuid → ScheduleOccurrence → Bool
is_current source_id version_id o = o.source_id == source_id && in_version (some version_id) o

abbrev pub is_outdated : Uuid → Uuid → FreshnessStatus → ScheduleOccurrence → Bool
is_outdated source_id version_id status o =
    is_current source_id version_id o && not (o.freshness_status == status)

unfoldable pub refresh_with : Uuid → Option SourceHealth → Option DatasetVersion → Session ℕ
refresh_with source_id none version = pure 0
refresh_with source_id (some health) none = pure 0
refresh_with source_id (some health) (some version) = do
  let status = classify_occurrence_freshness health.freshness_status
  let outdated = is_outdated source_id version.id status
  updated ← gets (λ db. length (select outdated db.occurrences))
  modify (λ db. record db {
    occurrences =
        update_where outdated (λ o. record o { freshness_status = status }) db.occurrences;
  })
  pure updated

unfoldable pub refresh_occurrence_freshness_for_source : Uuid → Session ℕ
refresh_occurrence_freshness_for_source source_id = do
  health ← gets (get_health source_id)
  version ← gets get_latest_published_version
  refresh_with source_id health version
