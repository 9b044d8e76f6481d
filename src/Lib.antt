-- ===== src/Lib.antt =====
-- The UK jamaat directory: its schedule pipeline, and the parts that feed it.
--
-- The program collects prayer times ("jamaat" times) of mosques from many sources. An extraction
-- yields texts that are parsed to rows (schedules/parse.py); each becomes a candidate
-- (schedules/candidates.py), a candidate is checked (schedules/validation.py, evaluated in the
-- context of a batch by schedules/prefetch.py and schedules/evaluation.py), approved by rule or by
-- a moderator (schedules/approval.py, services/schedule_moderation.py), and published as an
-- occurrence of a dataset version (schedules/publication.py, schedules/dataset.py), after which the
-- freshness of its source is computed again (schedules/freshness.py). Visitors submit schedules
-- that become candidates of a source of their own (services/contribution_intake.py). Websites are
-- read by extractor scripts, whose targets and results are checked (ingest/extract/) and which an
-- agent writes (ingest/authoring/); discovered records are matched to mosques (ingest/discovery/),
-- duplicates of which are merged (services/admin_identity.py), and their websites are crawled
-- (ingest/crawl/). All these files lie under src/uk_jamaat_directory/.
--
-- Files and what they model:
--   Domain.antt             domain.py: the enumerations.
--   Models/Rows.antt        models/core.py: a row of a table is a record of its columns.
--   Models/Json.antt        JSON columns as Python dicts of scalars.
--   Models/Calendar.antt    dates, instants, times of day and the surroundings of a request.
--   Models/Session.antt     the database session: tables, errors, and a monad of operations that
--                           read and write them and may raise. Models/Triples.antt reasons on it.
--   Models/Columns.antt     which values a bounded column holds.
--   Schedules/Types.antt    schedules/types.py, and the settings of config.py.
--   Schedules/Validation.antt  validate_candidate, status_after_validation.
--   Schedules/Gates.antt    schedules/gates.py, ingest/policy.py, services/public_policy.py.
--   Schedules/Keys.antt     schedules/keys.py, schedules/prayers.py.
--   Schedules/Prefetch.antt build_validation_batch_context.
--   Schedules/Evaluation.antt  evaluate_candidate_in_context, apply_validation_result.
--   Schedules/Approval.antt approve_candidate_status.
--   Schedules/Candidates.antt  upsert_schedule_candidate.
--   Schedules/Parse.antt    schedules/parse.py, on texts as lists of code points.
--   Schedules/Queries.antt  the filters of schedules/publication.py.
--   Schedules/Batch.antt    validate_candidates of schedules/publication.py.
--   Schedules/Dataset.antt  get_latest_published_version, create_published_dataset_version.
--   Schedules/Freshness.antt  classification, recompute_source_health and the refresh.
--   Schedules/Publication.antt  publish_candidates; its selection and its loops are in
--                           Publication/Select.antt and Publication/Loops.antt.
--   Services/Moderation.antt  services/schedule_moderation.py.
--   Services/Contributions.antt  services/contribution_intake.py and its payloads.
--   Services/Identity.antt  merge_mosques of services/admin_identity.py, with _ensure_alias of
--                           ingest/discovery/resolve.py; Identity/Reviews.antt the decisions on
--                           proposed matches.
--   Ingest/Texts.antt       tests on texts, and urlparse and the Unicode tables as parameters.
--   Ingest/DomainPolicy.antt  ingest/domain_policy.py.
--   Ingest/Normalize.antt   normalize_mosque_name of ingest/normalize.py.
--   Ingest/Crawl.antt       process_source of ingest/crawl/pipeline.py; Crawl/State.antt has its state,
--                           Crawl/Fetch.antt one fetch with ingest/artifacts.py and
--                           run_extraction of ingest/extract/runner.py.
--   Ingest/Extract/Times.antt  ingest/extract/helpers/times.py.
--   Ingest/Extract/Validator.antt  the checks of ingest/extract/repo_extractors/validator.py on
--                           targets and results.
--   Ingest/Extract/Scripts.antt  check_script_source of the same file.
--   Ingest/Discovery/Matching.antt  decide_match of ingest/discovery/matching.py.
--   Ingest/Discovery/Scoring.antt  score_mosque_candidate of the same file.
--   Ingest/Authoring/FailureTaxonomy.antt  ingest/authoring/failure_taxonomy.py.
--   Ingest/Authoring/Retry.antt  the choice of sources and the writes to tasks of
--                           ingest/authoring/orchestrator.py.
--   Ingest/Authoring/Process.antt  _process_source of the same file, with its loop of repairs.
--   Ingest/Authoring/Summary.antt  the counters of the same file under their lock.
--   Tests/                  sample tables and the theorems applied to them.
-- The child modules of a component hold its proofs.
--
-- A query is a selection from the list of rows of its table, in the table's order; a raise leaves
-- the transaction to be rolled back, so that an error carries no tables. A flush is modelled where
-- it may fail: on the name of a version, on the key of an occurrence, on the text of an alias, and
-- on what a candidate of an upsert and an artifact of a crawl put into columns of bounded width
-- (Models/Columns.antt). What raises outside the program, as in the storage, in a fetch and in the
-- parts of _process_source, is a parameter that says so.
-- The clock is read once for a request; the time zone database is a parameter of it. Python's
-- mutable sets are lists without repetition, and an object that the code mutates is written back to
-- its row at that point.
-- Two recursions are on fuel. The text of a number, `digits`, has fuel that exceeds the number. The
-- loop of repairs has fuel for the first call of the agent and one for each repair that the settings
-- allow, `suc max_repair_attempts`, with which it always ends in a result or an exception.
--
-- Scores of the matching are floating-point numbers, which are a parameter with their order.
--
-- Not modelled: message texts, columns that the pipeline neither reads nor writes, HTTP, storage,
-- agents and their files, and the scripts for single websites, whose results enter as rows. A zone
-- name for which ZoneInfo raises ValueError, which validate_candidate does not catch, counts as an
-- unknown one; an address that urlparse refuses (a malformed IPv6 host) does not occur; the name of a
-- version is a day with a number or a text without such a day, never a day with a suffix that is no
-- number; and texts that a JSON column refuses do not occur.
pub mod Prelude
pub mod Domain
pub mod Models
pub mod Schedules
pub mod Services
pub mod Ingest
pub mod Tests
