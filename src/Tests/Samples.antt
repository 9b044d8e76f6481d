-- ===== src/Tests/Samples.antt =====
-- A small directory: one mosque with a public, a community and a private source, candidates in
-- several states, and a published version.
use uk_jamaat_directory.Prelude.{ℕ, true, false, none, some, [], ◌∷◌}
use uk_jamaat_directory.Prelude.Int.{pos}
use uk_jamaat_directory.Domain.{
  Prayer, CandidateStatus, SourceType, SourcePublicationPolicy, Confidence, ExtractionKind,
  MosqueStatus, fresh,
}
use uk_jamaat_directory.Models.Calendar.{Date, Time, World}
use uk_jamaat_directory.Models.Rows.{
  Uuid, dated, Mosque, MosqueSource, ExtractionRun, ScheduleCandidate, DatasetVersion,
  ScheduleOccurrence,
}
use uk_jamaat_directory.Models.Session.{Db}
use uk_jamaat_directory.Schedules.Types.{Settings}
use uk_jamaat_directory.Schedules.Queries.{Filters}

abbrev pub settings : Settings
settings = record {
  schedule_date_past_days = 30;
  schedule_date_future_days = 400;
  freshness_stale_days = 14;
  publish_allow_ai = false;
  repo_extractor_auto_approve_candidates = true;
}

-- A Thursday.
abbrev pub today : Date
today = 738000

abbrev pub world : World
world = record {
  now = 1700000000;
  known_zone = λ _. true;
  today_in = λ _. today;
  utc_fails = λ _ _ _. false;
}

abbrev pub at : ℕ → ℕ → Time
at hour minute = record { hour = hour; minute = minute; second = 0; microsecond = 0; fold = false }

abbrev pub mosque : Mosque
mosque = record {
  id = 1;
  name = "Central Mosque";
  normalized_name = "central mosque";
  city = some "Leeds";
  postcode = none;
  website_url = none;
  status = MosqueStatus.active;
}

abbrev source_of : Uuid → SourceType → SourcePublicationPolicy → MosqueSource
source_of id source_type policy = record {
  id = id;
  mosque_id = some 1;
  source_type = source_type;
  external_id = "central";
  source_url = none;
  display_name = none;
  publication_policy = policy;
  confidence = Confidence.verified;
  license_name = none;
  attribution = none;
  last_seen_at = none;
  metadata = [];
}

abbrev pub public_source : MosqueSource
public_source = source_of 2 SourceType.manual SourcePublicationPolicy.public_redistribution_allowed

abbrev pub community_source : MosqueSource
community_source =
    source_of 3 SourceType.community SourcePublicationPolicy.public_redistribution_allowed

abbrev pub private_source : MosqueSource
private_source = source_of 4 SourceType.manual SourcePublicationPolicy.private_use_only

abbrev pub run : ExtractionRun
run = record {
  id = 5;
  artifact_id = none;
  source_id = 2;
  kind = ExtractionKind.deterministic;
  extractor_version = "1";
  status = "succeeded";
}

abbrev candidate_of : Uuid → Uuid → Prayer → CandidateStatus → ScheduleCandidate
candidate_of id source_id prayer status = record {
  id = id;
  mosque_id = some 1;
  source_id = source_id;
  extraction_run_id = some 5;
  date = today;
  prayer = prayer;
  start_time = some (at 5 10);
  jamaat_time = some (at 5 30);
  session_number = pos 1;
  session_label = none;
  timezone = "Europe/London";
  confidence = Confidence.verified;
  status = status;
  validation_errors = [];
  evidence = [];
}

abbrev pub pending_fajr : ScheduleCandidate
pending_fajr = candidate_of 10 2 Prayer.fajr CandidateStatus.pending

abbrev pub approved_isha : ScheduleCandidate
approved_isha = candidate_of 11 2 Prayer.isha CandidateStatus.approved

abbrev pub community_asr : ScheduleCandidate
community_asr = candidate_of 12 3 Prayer.asr CandidateStatus.pending

abbrev pub private_asr : ScheduleCandidate
private_asr = candidate_of 13 4 Prayer.asr CandidateStatus.approved

abbrev pub first_version : DatasetVersion
first_version = record {
  id = 20;
  version = dated 737999 (1 ∷ []);
  schema_version = "1.0";
  status = "published";
  published_at = some 1699900000;
  manifest = [];
  created_at = 1699900000;
}

abbrev pub occurrence_of : Uuid → Prayer → ScheduleOccurrence
occurrence_of id prayer = record {
  id = id;
  mosque_id = 1;
  source_id = 2;
  candidate_id = none;
  dataset_version_id = some 20;
  date = today;
  prayer = prayer;
  start_time = none;
  jamaat_time = at 13 15;
  session_number = pos 1;
  session_label = none;
  timezone = "Europe/London";
  confidence = Confidence.verified;
  freshness_status = fresh;
  source_url = none;
  last_verified_at = none;
}

-- The published version has a dhuhr and an isha.
abbrev pub tables : Db
tables = record {
  mosques = mosque ∷ [];
  sources = public_source ∷ community_source ∷ private_source ∷ [];
  runs = run ∷ [];
  candidates = pending_fajr ∷ approved_isha ∷ community_asr ∷ private_asr ∷ [];
  versions = first_version ∷ [];
  occurrences = occurrence_of 30 Prayer.dhuhr ∷ occurrence_of 31 Prayer.isha ∷ [];
  healths = [];
  events = [];
  actions = [];
  corrections = [];
  aliases = [];
  attributes = [];
  reviews = [];
  artifacts = [];
  assignments = [];
  claims = [];
  next_id = 100;
}

abbrev pub no_filters : Filters
no_filters = record { source_id = none; mosque_id = none; date_from = none; date_to = none }

abbrev pub from_today : Filters
from_today = record { source_id = none; mosque_id = none; date_from = some today; date_to = none }
