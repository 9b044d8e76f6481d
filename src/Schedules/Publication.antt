-- ===== src/Schedules/Publication.antt =====
-- schedules/publication.py: approved candidates become the occurrences of a new dataset version.
-- The loops run over a record of the rows and sets that the code's variables hold.
pub mod Select
pub mod Loops
pub mod Gates
pub mod Accounting
pub mod Scope
pub mod Events
pub mod Contents
pub mod Public
pub mod Whole
pub mod Conflicts
pub mod Touched
pub mod Returns
use uk_jamaat_directory.Prelude.{
  ◌+◌, ◌==◌, nat_eq, String, Bool, true, false, not, ◌&&◌, ◌||◌, Option, none, some, List, [], ◌∷◌,
  ◌++◌, select, any, length, contains, update_where, if◌then◌else◌,
}
use uk_jamaat_directory.Prelude.Dict.{Dict, from_rows}
use uk_jamaat_directory.Prelude.Int.{pos}
use uk_jamaat_directory.Domain.{CandidateStatus, candidate_status_eq}
use uk_jamaat_directory.Models.Json.{Object, num, update}
use uk_jamaat_directory.Models.Calendar.{Date, World}
use uk_jamaat_directory.Models.Rows.{
  Uuid, ScheduleCandidate, DatasetVersion, ScheduleOccurrence, ChangeEvent,
}
use uk_jamaat_directory.Models.Session.{
  Db, Session, Error, Result, ok, err, integrity_error, ◌>>=◌, ◌>>◌, pure, gets, modify, raise_if,
}
use uk_jamaat_directory.Schedules.Types.{Settings, PublishResult}
use uk_jamaat_directory.Schedules.Queries.{Filters, candidate_filters, publish_filters_active}
use uk_jamaat_directory.Schedules.Keys.{OccurrenceKey, occurrence_key_from_row, occurrence_key_eq}
use uk_jamaat_directory.Schedules.Dataset.{
  get_latest_published_version, create_published_dataset_version,
}
use uk_jamaat_directory.Schedules.Freshness.{
  has_public_source, in_version, recompute_source_health, refresh_occurrence_freshness_for_source,
}
use uk_jamaat_directory.Schedules.Publication.Select.{
  PublishableCandidate, no_result, add_error, select_publishable_candidates,
}
use uk_jamaat_directory.Schedules.Publication.Loops.{
  Run, start, carry_forward, publish_batch, emit_events, emit_removals, occurrences_unique,
}

-- The occurrences of the previous version, from public sources, by key.
unfoldable pub load_all_previous_occurrences :
    Option DatasetVersion → Db → Dict OccurrenceKey ScheduleOccurrence
load_all_previous_occurrences none db = []
load_all_previous_occurrences (some version) db =
    from_rows occurrence_key_from_row (λ o. o)
      (select (λ o. in_version (some version.id) o && has_public_source db o) db.occurrences) []

abbrev pub is_approved : ScheduleCandidate → Bool
is_approved c = c.status == CandidateStatus.approved

module _ (w : World) (f : Filters) (version : DatasetVersion)
    (full_previous : Dict OccurrenceKey ScheduleOccurrence) where
  -- Before a filtered batch the rows out of its scope are carried forward.
  unfoldable pub batch_run : List PublishableCandidate → PublishResult → Db → Run
  batch_run publishable result db =
      let run = start result db in
      publish_batch version w.now full_previous publishable (
        if publish_filters_active f
        then carry_forward f version w.now false full_previous run
        else run)

  -- After its flush the rows in scope that it did not write are carried forward, and what is left
  -- of the previous version is removed.
  unfoldable pub final_run : Run → Run
  final_run run = emit_removals version full_previous (
      if publish_filters_active f
      then carry_forward f version w.now true full_previous (emit_events run)
      else emit_events run)

  -- `session.flush()` after the batch, where the unique constraint may fail.
  unfoldable pub publish_rows : List PublishableCandidate → PublishResult → Session Run
  publish_rows publishable result = do
    run ← gets (batch_run publishable result)
    raise_if (not (occurrences_unique run.db.occurrences)) integrity_error
    pure (final_run run)

-- `manifest.update(...)` on the row of the version.
abbrev pub manifest_counts : Run → Object
manifest_counts run =
    ("occurrences_published", num (pos run.result.published))
    ∷ ("occurrences_carried_forward", num (pos run.result.carried_forward))
    ∷ ("occurrences_removed", num (pos run.result.removed_occurrences))
    ∷ ("sources_touched", num (pos (length run.touched)))
    ∷ []

unfoldable pub update_manifest : DatasetVersion → Run → Db → Db
update_manifest version run db = record db {
  versions =
      update_where (λ v. v.id == version.id)
        (λ v. record v { manifest = update version.manifest (manifest_counts run) }) db.versions;
}

unfoldable pub refresh_sources : Settings → World → List Uuid → Session (Unit {0})
refresh_sources cfg w [] = pure tt
refresh_sources cfg w (id ∷ ids) = do
  recompute_source_health cfg w id
  refresh_occurrence_freshness_for_source id
  refresh_sources cfg w ids

-- A given version is used as it is; else a new one is created.
unfoldable pub version_or_new : Option DatasetVersion → Date → World → Session DatasetVersion
version_or_new none day w = create_published_dataset_version day w.now
version_or_new (some version) day w = pure version

-- The manifest, the health of the touched sources and the last flush.
unfoldable pub finish_publish : Settings → World → DatasetVersion → Run → Session PublishResult
finish_publish cfg w version run = do
  modify (λ _. update_manifest version run run.db)
  refresh_sources cfg w run.touched
  occurrences ← gets (λ db. db.occurrences)
  raise_if (not (occurrences_unique occurrences)) integrity_error
  pure run.result

-- What follows once the version is there.
unfoldable pub publish_into :
    Settings
    → World
    → Filters
    → Dict OccurrenceKey ScheduleOccurrence
    → List PublishableCandidate
    → PublishResult
    → DatasetVersion
    → Session PublishResult
publish_into cfg w f full_previous publishable result version = do
  run ←
      publish_rows w f version full_previous publishable
        (record result { dataset_version = some version.version })
  finish_publish cfg w version run

unfoldable pub publish_selected :
    Settings
    → World
    → Date
    → Filters
    → Option DatasetVersion
    → List PublishableCandidate × PublishResult
    → Session PublishResult
publish_selected cfg w day f given ([], result) =
    pure (add_error "no approved candidates matched filters or passed publication gates" result)
publish_selected cfg w day f given (p ∷ publishable, result) = do
  previous_version ← gets get_latest_published_version
  full_previous ← gets (load_all_previous_occurrences previous_version)
  version ← version_or_new given day w
  publish_into cfg w f full_previous (p ∷ publishable) result version

-- `day` is the UTC date of the clock's instant.
unfoldable pub publish_candidates :
    Settings → World → Date → Filters → Option DatasetVersion → Session PublishResult
publish_candidates cfg w day f given = do
  db ← gets (λ db. db)
  let candidates = select (λ c. is_approved c && candidate_filters f c) db.candidates
  publish_selected cfg w day f given (select_publishable_candidates cfg w candidates db)
