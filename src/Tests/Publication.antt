-- ===== src/Tests/Publication.antt =====
-- The theorems about publication, versions and freshness, on the sample tables.
use uk_jamaat_directory.Prelude.{
  ℕ, ◌≡◌, ◌↔◌, ◌+◌, ◌≤◌, ◌<◌, refl, true, false, ◌&&◌, none, some, List, [], ◌∷◌, select, All,
  arith, nat_eq,
}
use uk_jamaat_directory.Prelude.Dict.{Dict}
use uk_jamaat_directory.Prelude.Int.{pos}
use uk_jamaat_directory.Domain.{
  Prayer, Prayer-discrete, CandidateStatus-discrete, ExtractionKind-discrete,
  SourcePublicationPolicy-discrete, SourceType-discrete, fresh,
}
use uk_jamaat_directory.Models.Calendar.{Date}
use uk_jamaat_directory.Models.Rows.{dated, DatasetVersion, ScheduleOccurrence}
use uk_jamaat_directory.Models.Session.{Db, ok, err, integrity_error}
use uk_jamaat_directory.Models.Triples.{Ensures}
use uk_jamaat_directory.Schedules.Types.{PublishResult}
use uk_jamaat_directory.Schedules.Queries.{candidate_filters, publish_filters_active}
use uk_jamaat_directory.Schedules.Keys.{
  OccurrenceKey, OccurrenceKey-discrete, occurrence_key, occurrence_key_eq,
}
use uk_jamaat_directory.Models.Json.{truthy, get}
use uk_jamaat_directory.Schedules.Validation.{
  validate_candidate, checks, identity_issues, zone_issues, date_issues, order_issues, dst_warnings,
  duplicate_issues, evidence_warnings, status_after_validation, requires_manual_approval,
}
use uk_jamaat_directory.Schedules.Gates.{can_publish_candidate}
use uk_jamaat_directory.Schedules.Prefetch.{
  NaturalKey-discrete, build_validation_batch_context, build_duplicate_map, duplicate_map,
  group_rows, group_row,
}
use uk_jamaat_directory.Schedules.Evaluation.{evaluate_candidate_in_context, evaluate_with}
use uk_jamaat_directory.Schedules.Dataset.{
  digits, digits_from, patch_of, value_from, greatest, next_patch, latest, comes_before,
  get_latest_published_version, patches_of_day, new_version, create_published_dataset_version,
  name_taken,
}
use uk_jamaat_directory.Schedules.Dataset.Naming.{issued, create_published_dataset_version_of_day}
use uk_jamaat_directory.Schedules.Freshness.{classify_source_freshness}
use uk_jamaat_directory.Schedules.Freshness.Coverage.{
  IsComplete, IsCurrent, classify_source_freshness-fresh, classify_source_freshness-coverage,
}
use uk_jamaat_directory.Schedules.Publication.Select.{
  PublishableCandidate, no_result, select_with, select_linked, select_loop,
  select_publishable_candidates,
}
use uk_jamaat_directory.Schedules.Publication.Gates.{
  IsPublishable, select_publishable_candidates-IsPublishable,
}
use uk_jamaat_directory.Schedules.Publication.{
  is_approved, batch_run, final_run, publish_rows, load_all_previous_occurrences,
  publish_candidates,
}
use uk_jamaat_directory.Schedules.Publication.Loops.{occurrences_unique}
use uk_jamaat_directory.Schedules.Publication.Accounting.{has_row, IsFiled}
use uk_jamaat_directory.Schedules.Publication.Events.{IsAccounted, final_run_accounting}
use uk_jamaat_directory.Schedules.Publication.Contents.{final_run_contents}
use uk_jamaat_directory.Schedules.Publication.Whole.{IsPublished, publish_candidates-IsPublished}
use uk_jamaat_directory.Schedules.Publication.Conflicts.{conflicts}
use uk_jamaat_directory.Schedules.Publication.Returns.{
  CanPublish, publish_rows_outcome, publish_candidates_returns,
}
use uk_jamaat_directory.Tests.Samples.{
  settings, world, today, mosque, public_source, approved_isha, private_asr, occurrence_of, tables,
  no_filters,
}
use uk_jamaat_directory.Tests.Validation.{tables-IsKeyed}

-- A new version with no row, the previous rows by key, and a batch of one item.
abbrev second_version : DatasetVersion
second_version = new_version 100 738000 (1 ∷ []) 1700000000

abbrev key : Prayer → OccurrenceKey
key prayer = occurrence_key 1 today prayer (pos 1)

abbrev previous : Dict OccurrenceKey ScheduleOccurrence
previous =
    (key Prayer.dhuhr, occurrence_of 30 Prayer.dhuhr)
    ∷ (key Prayer.isha, occurrence_of 31 Prayer.isha)
    ∷ []

abbrev items : List PublishableCandidate
items = record { candidate = approved_isha; source = public_source; mosque = mosque } ∷ []

previous-IsFiled : IsFiled previous
previous-IsFiled = (refl, (refl, tt))

tables-CanPublish :
    CanPublish settings world today no_filters none tables
      (select_publishable_candidates settings world
        (select (λ c. is_approved c && candidate_filters no_filters c) tables.candidates)
        tables).0
unfolding occurrences_unique OccurrenceKey-discrete Prayer-discrete name_taken next_patch
    patches_of_day greatest digits digits_from patch_of value_from select_publishable_candidates
    select_loop select_linked select_with evaluate_candidate_in_context evaluate_with
    build_validation_batch_context build_duplicate_map duplicate_map group_rows group_row
    validate_candidate checks identity_issues zone_issues date_issues order_issues dst_warnings
    duplicate_issues evidence_warnings truthy get can_publish_candidate status_after_validation
    requires_manual_approval candidate_filters load_all_previous_occurrences
    get_latest_published_version latest comes_before publish_filters_active NaturalKey-discrete
    CandidateStatus-discrete ExtractionKind-discrete SourcePublicationPolicy-discrete
    SourceType-discrete
tables-CanPublish = record {
  available = refl;
  unused = refl;
  unique = refl;
  no_conflict = refl;
  items_linked = ((1, refl), tt);
  rows_linked = ((1, refl), ((1, refl), tt));
}

publish_candidates-IsPublished_example :
    Ensures
      (λ _ db'. IsPublished 100 tables db')
      (publish_candidates settings world today no_filters none tables)
publish_candidates-IsPublished_example =
    publish_candidates-IsPublished settings world today no_filters none tables tables-IsKeyed
      (refl, (refl, (refl, (refl, tt)))) refl

publish_candidates_returns_example :
    (result : PublishResult) × (db' : Db) × (publish_candidates settings world today no_filters none
        tables
      ≡ ok (result, db'))
publish_candidates_returns_example =
    publish_candidates_returns settings world today no_filters none tables tables-CanPublish

final_run_contents_example :
    has_row 100
      (key Prayer.dhuhr)
      (final_run world no_filters second_version previous
        (batch_run world no_filters second_version previous items no_result tables)).db.occurrences
    ≡ false
unfolding publish_filters_active OccurrenceKey-discrete Prayer-discrete
final_run_contents_example =
    final_run_contents world no_filters second_version previous previous-IsFiled items no_result
      tables refl (key Prayer.dhuhr)

publish_rows_outcome_example :
    (conflicts no_filters previous items ≡ false
      → publish_rows world no_filters second_version previous items no_result tables
        ≡ ok (
          final_run world no_filters second_version previous
              (batch_run world no_filters second_version previous items no_result tables),
          tables,
        ))
    × (conflicts no_filters previous items ≡ true
        → publish_rows world no_filters second_version previous items no_result tables
          ≡ err integrity_error)
unfolding occurrences_unique OccurrenceKey-discrete Prayer-discrete
publish_rows_outcome_example =
    publish_rows_outcome world no_filters second_version previous previous-IsFiled items no_result
      tables refl refl

final_run_accounting_example :
    let batch = batch_run world no_filters second_version previous items no_result tables in
    IsAccounted world no_filters second_version previous previous-IsFiled batch
      (final_run world no_filters second_version previous batch)
final_run_accounting_example =
    final_run_accounting world no_filters second_version previous previous-IsFiled items no_result
      tables refl

select_publishable_candidates-IsPublishable_example :
    All
      (IsPublishable settings world tables)
      (select_publishable_candidates settings world (approved_isha ∷ private_asr ∷ []) tables).0
select_publishable_candidates-IsPublishable_example =
    select_publishable_candidates-IsPublishable settings world tables tables-IsKeyed
      (approved_isha ∷ private_asr ∷ []) (refl, (refl, tt))

abbrev one : ℕ
one = 1

create_published_dataset_version_of_day_example :
    (one < 10
      → (version : DatasetVersion) × (db' : Db) × (create_published_dataset_version 737999
            1700000000 tables
          ≡ ok (version, db'))
        × (version.version ≡ dated 737999 (digits 2))
        × (patches_of_day 737999 db'.versions ≡ issued 2))
    × (one ≡ 10 → create_published_dataset_version 737999 1700000000 tables ≡ err integrity_error)
unfolding patches_of_day digits digits_from
create_published_dataset_version_of_day_example =
    create_published_dataset_version_of_day 737999 1700000000 tables one refl

classify_source_freshness-fresh_example :
    ((classify_source_freshness settings 1700000000 today [] (some 1600000000) 1).0 ≡ fresh)
    ↔ IsCurrent settings 1700000000 today [] (some 1600000000) 1
classify_source_freshness-fresh_example =
    classify_source_freshness-fresh settings 1700000000 today [] 1 (some 1600000000)

classify_source_freshness-coverage_example :
    let coverage = (classify_source_freshness settings 1700000000 today [] none 1).1 in
    (coverage ≤ 8) × ((coverage ≡ 8) ↔ ((d : Date) → today ≤ d → d ≤ today + 7 → IsComplete [] d))
classify_source_freshness-coverage_example =
    classify_source_freshness-coverage settings 1700000000 today [] 1 none (omega arith)
