-- ===== src/Schedules/Gates.antt =====
-- schedules/gates.py, ingest/policy.py and services/public_policy.py: which sources and extraction
-- kinds may reach the public data.
use uk_jamaat_directory.Prelude.{
  ◌==◌, Bool, not, Option, none, some, String, option_eq, if◌then◌else◌,
}
use uk_jamaat_directory.Domain.{
  ExtractionKind, SourcePublicationPolicy, source_publication_policy_eq, extraction_kind_eq,
}
use uk_jamaat_directory.Models.Rows.{MosqueSource}
use uk_jamaat_directory.Schedules.Types.{Settings}

-- `is_public_source_policy`, which `can_publish_to_public_api` calls and the SQL filter
-- `public_source_filter` repeats
abbrev pub is_public_source_policy : SourcePublicationPolicy → Bool
is_public_source_policy policy = policy == SourcePublicationPolicy.public_redistribution_allowed

abbrev pub is_public : MosqueSource → Bool
is_public source = is_public_source_policy source.publication_policy

-- The reason of a refusal, or none where publishing is allowed.
unfoldable pub can_publish_candidate :
    Settings → MosqueSource → Option ExtractionKind → Option String
can_publish_candidate cfg source kind =
    if not (is_public source)
    then some "source publication policy does not allow public redistribution"
    else if kind == some ExtractionKind.ai
    then (if not cfg.publish_allow_ai
        then some "AI extraction requires explicit publish_allow_ai override"
        else none)
    else none
