-- ===== src/Schedules/Publication/Loops.antt =====
-- The loops of schedules/publication.py that write the rows of a dataset version: rows carried
-- forward from the previous version, rows of the batch, and the change events.
use uk_jamaat_directory.Prelude.{
  ◌+◌, ◌==◌, nat_eq, string_eq, option_eq, Bool, true, false, not, ◌&&◌, ◌||◌, Option, none, some,
  List, [], ◌∷◌, ◌++◌, any, length, contains, add, if◌then◌else◌,
}
use uk_jamaat_directory.Prelude.Dict.{Dict, lookup, or_else}
use uk_jamaat_directory.Prelude.Int.{int_eq}
use uk_jamaat_directory.Domain.{
  CandidateStatus, needs_review, occurrence_published, occurrence_removed,
}
use uk_jamaat_directory.Models.Json.{Object, num, str, iso_date, text_at}
use uk_jamaat_directory.Models.Calendar.{Instant, Time, time_same, time_option_same}
use uk_jamaat_directory.Models.Rows.{
  Uuid, ScheduleCandidate, DatasetVersion, ScheduleOccurrence, ChangeEvent,
}
use uk_jamaat_directory.Models.Session.{Db}
use uk_jamaat_directory.Schedules.Types.{PublishResult}
use uk_jamaat_directory.Schedules.Queries.{Filters, occurrence_in_replace_scope}
use uk_jamaat_directory.Schedules.Keys.{
  OccurrenceKey, occurrence_key, occurrence_key_from_row, occurrence_key_eq, prayer_key,
}
use uk_jamaat_directory.Schedules.Approval.{save_candidate}
use uk_jamaat_directory.Schedules.Publication.Select.{PublishableCandidate, skip_validation}

-- What the variables of `publish_candidates` hold: the tables, the result, the two sets, and the
-- events that wait for the flush of the batch.
pub record Run : Type 0 where
  pub db : Db
  pub result : PublishResult
  pub final_keys : List OccurrenceKey
  pub touched : List Uuid
  pub pending : List ChangeEvent

abbrev pub start : PublishResult → Db → Run
start result db = record { db = db; result = result; final_keys = []; touched = []; pending = [] }

unfoldable pub occurrence_changed :
    Option ScheduleOccurrence → ScheduleCandidate → Time → Uuid → Bool
occurrence_changed none c jamaat_time source_id = true
occurrence_changed (some previous) c jamaat_time source_id =
    not (time_same previous.jamaat_time jamaat_time)
    || (not (time_option_same previous.start_time c.start_time)
        || (not (previous.session_label == c.session_label)
            || (not (previous.timezone == c.timezone) || not (previous.source_id == source_id))))

abbrev pub copy_carried_occurrence : ScheduleOccurrence → Uuid → Instant → Uuid → ScheduleOccurrence
copy_carried_occurrence previous version_id now id = record previous {
  id = id;
  dataset_version_id = some version_id;
  last_verified_at = some now;
}

abbrev pub add_occurrence : ScheduleOccurrence → Db → Db
add_occurrence o db = record db { occurrences = db.occurrences ++ o ∷ []; next_id = db.next_id + 1 }

abbrev payload : ScheduleOccurrence → Object
payload o =
    ("prayer", str (prayer_key o.prayer))
    ∷ ("date", iso_date o.date)
    ∷ ("session_number", num o.session_number)
    ∷ []

abbrev pub removal_event : DatasetVersion → ScheduleOccurrence → ChangeEvent
removal_event version o = record {
  event_type = occurrence_removed;
  mosque_id = some o.mosque_id;
  occurrence_id = some o.id;
  dataset_version_id = some version.id;
  payload = payload o ++ ("reason", str "not_in_new_publish_set") ∷ [];
}

-- `_carry_forward_previous_occurrences`
module _ (f : Filters) (version : DatasetVersion) (now : Instant) (in_replace_scope : Bool) where
  abbrev pub carry : OccurrenceKey → ScheduleOccurrence → Run → Run
  carry key previous run = record run {
    db = add_occurrence (copy_carried_occurrence previous version.id now run.db.next_id) run.db;
    final_keys = add key run.final_keys;
    result = record (run.result) { carried_forward = run.result.carried_forward + 1 };
    touched = add previous.source_id run.touched;
  }

  -- A row is passed over if its key is taken, or if it lies in the other scope.
  abbrev pub passed_over : OccurrenceKey → ScheduleOccurrence → Run → Bool
  passed_over key previous run =
      contains key run.final_keys
      || (if occurrence_in_replace_scope f previous then not in_replace_scope else in_replace_scope)

  unfoldable pub carry_one : OccurrenceKey → ScheduleOccurrence → Run → Run
  carry_one key previous run = if passed_over key previous run then run else carry key previous run

  unfoldable pub carry_forward : Dict OccurrenceKey ScheduleOccurrence → Run → Run
  carry_forward [] run = run
  carry_forward ((key, previous) ∷ rest) run = carry_forward rest (carry_one key previous run)

-- `_publish_batch_rows`
module _ (version : DatasetVersion) (now : Instant)
    (full_previous : Dict OccurrenceKey ScheduleOccurrence) where
  abbrev pub new_occurrence : PublishableCandidate → Uuid → Time → Uuid → ScheduleOccurrence
  new_occurrence item mosque_id jamaat_time id = record {
    id = id;
    mosque_id = mosque_id;
    source_id = item.source.id;
    candidate_id = some item.candidate.id;
    dataset_version_id = some version.id;
    date = item.candidate.date;
    prayer = item.candidate.prayer;
    start_time = item.candidate.start_time;
    jamaat_time = jamaat_time;
    session_number = item.candidate.session_number;
    session_label = item.candidate.session_label;
    timezone = item.candidate.timezone;
    confidence = item.candidate.confidence;
    freshness_status = needs_review;
    source_url = or_else (text_at "linkback_url" item.candidate.evidence) item.source.source_url;
    last_verified_at = some now;
  }

  -- The row of an item: a copy of the previous row where nothing changed, else a new one.
  unfoldable pub batch_occurrence :
      Option ScheduleOccurrence → PublishableCandidate → Uuid → Time → Uuid → ScheduleOccurrence
  batch_occurrence none item mosque_id jamaat_time id = new_occurrence item mosque_id jamaat_time id
  batch_occurrence (some previous) item mosque_id jamaat_time id =
      if occurrence_changed (some previous) item.candidate jamaat_time item.source.id
      then new_occurrence item mosque_id jamaat_time id
      else record (copy_carried_occurrence previous version.id now id) {
        candidate_id = some item.candidate.id;
      }

  abbrev pub published_event : PublishableCandidate → Uuid → ChangeEvent
  published_event item occurrence_id = record {
    event_type = occurrence_published;
    mosque_id = some item.mosque.id;
    occurrence_id = some occurrence_id;
    dataset_version_id = some version.id;
    payload =
        ("prayer", str (prayer_key item.candidate.prayer))
        ∷ ("date", iso_date item.candidate.date)
        ∷ ("session_number", num item.candidate.session_number)
        ∷ [];
  }

  -- One row of the batch, whose key is `key`.
  abbrev pub publish_row : OccurrenceKey → PublishableCandidate → Uuid → Time → Run → Run
  publish_row key item mosque_id jamaat_time run =
      let previous = lookup key full_previous in
      let o = batch_occurrence previous item mosque_id jamaat_time run.db.next_id in
      record run {
        db =
            save_candidate (record (item.candidate) { status = CandidateStatus.superseded })
              (add_occurrence o run.db);
        final_keys = add key run.final_keys;
        result = record (run.result) { published = run.result.published + 1 };
        touched = add item.source.id run.touched;
        pending =
            if occurrence_changed previous item.candidate jamaat_time item.source.id
            then run.pending ++ published_event item run.db.next_id ∷ []
            else run.pending;
      }

  unfoldable pub publish_item : PublishableCandidate → Option Time → Option Uuid → Run → Run
  publish_item item none mosque_id run = record run { result = skip_validation run.result }
  publish_item item (some jamaat_time) none run = record run { result = skip_validation run.result }
  publish_item item (some jamaat_time) (some mosque_id) run =
      publish_row
        (occurrence_key mosque_id item.candidate.date item.candidate.prayer
          item.candidate.session_number)
        item mosque_id jamaat_time run

  unfoldable pub publish_batch : List PublishableCandidate → Run → Run
  publish_batch [] run = run
  publish_batch (item ∷ items) run =
      publish_batch items
        (publish_item item item.candidate.jamaat_time item.candidate.mosque_id run)

-- After the flush the pending events are added.
unfoldable pub emit_events : Run → Run
emit_events run = record run {
  db = record (run.db) { events = run.db.events ++ run.pending };
  result = record (run.result) { change_events = run.result.change_events + length run.pending };
  pending = [];
}

-- The unique constraint: no two rows of one version have the same key.
abbrev pub same_version : Option Uuid → Option Uuid → Bool
same_version none v = false
same_version (some u) none = false
same_version (some u) (some v) = u == v

abbrev pub clashes : ScheduleOccurrence → ScheduleOccurrence → Bool
clashes a b =
    same_version a.dataset_version_id b.dataset_version_id
    && occurrence_key_from_row a == occurrence_key_from_row b

unfoldable pub occurrences_unique : List ScheduleOccurrence → Bool
occurrences_unique [] = true
occurrences_unique (o ∷ os) = not (any (clashes o) os) && occurrences_unique os

-- `_emit_removals`
module _ (version : DatasetVersion) where
  abbrev pub removed : ScheduleOccurrence → Run → Run
  removed previous run = record run {
    db = record (run.db) { events = run.db.events ++ removal_event version previous ∷ [] };
    result = record (run.result) {
      removed_occurrences = run.result.removed_occurrences + 1;
      change_events = run.result.change_events + 1;
    };
  }

  unfoldable pub emit_removals : Dict OccurrenceKey ScheduleOccurrence → Run → Run
  emit_removals [] run = run
  emit_removals ((key, previous) ∷ rest) run =
      emit_removals rest (if contains key run.final_keys then run else removed previous run)
