-- ===== src/Domain.antt =====
-- The enumerations of src/uk_jamaat_directory/domain.py, with the equality that the code tests by
-- `==`, and the stored values of those that the code turns into text.
use uk_jamaat_directory.Prelude.{Eq, discrete_eq, String, List, [], ◌∷◌}

pub data Prayer : Type 0 where
  fajr dhuhr asr maghrib isha jumuah : Prayer

unfoldable pub Prayer-discrete : Discrete Prayer
Prayer-discrete = hlevel

instance abbrev pub prayer_eq : Eq Prayer
prayer_eq = discrete_eq Prayer-discrete

pub data CandidateStatus : Type 0 where
  pending approved rejected superseded : CandidateStatus

unfoldable pub CandidateStatus-discrete : Discrete CandidateStatus
CandidateStatus-discrete = hlevel

instance abbrev pub candidate_status_eq : Eq CandidateStatus
candidate_status_eq = discrete_eq CandidateStatus-discrete

pub data SourcePublicationPolicy : Type 0 where
  public_redistribution_allowed private_use_only unknown blocked : SourcePublicationPolicy

unfoldable pub SourcePublicationPolicy-discrete : Discrete SourcePublicationPolicy
SourcePublicationPolicy-discrete = hlevel

instance abbrev pub source_publication_policy_eq : Eq SourcePublicationPolicy
source_publication_policy_eq = discrete_eq SourcePublicationPolicy-discrete

pub data SourceType : Type 0 where
  mylocalmasjid mosque_website openstreetmap muslimsinbritain charity_register oscr_register
        community manual partner_feed :
      SourceType

unfoldable pub SourceType-discrete : Discrete SourceType
SourceType-discrete = hlevel

instance abbrev pub source_type_eq : Eq SourceType
source_type_eq = discrete_eq SourceType-discrete

pub data Confidence : Type 0 where
  verified official_import partner_import community calculated : Confidence

unfoldable pub Confidence-discrete : Discrete Confidence
Confidence-discrete = hlevel

instance abbrev pub confidence_eq : Eq Confidence
confidence_eq = discrete_eq Confidence-discrete

pub data FreshnessStatus : Type 0 where
  fresh stale missing_today missing_next_7_days source_failed needs_review : FreshnessStatus

unfoldable pub FreshnessStatus-discrete : Discrete FreshnessStatus
FreshnessStatus-discrete = hlevel

instance abbrev pub freshness_status_eq : Eq FreshnessStatus
freshness_status_eq = discrete_eq FreshnessStatus-discrete

pub data ExtractionKind : Type 0 where
  deterministic ocr ai manual : ExtractionKind

unfoldable pub ExtractionKind-discrete : Discrete ExtractionKind
ExtractionKind-discrete = hlevel

instance abbrev pub extraction_kind_eq : Eq ExtractionKind
extraction_kind_eq = discrete_eq ExtractionKind-discrete

pub data MosqueStatus : Type 0 where
  active inactive needs_review duplicate : MosqueStatus

unfoldable pub MosqueStatus-discrete : Discrete MosqueStatus
MosqueStatus-discrete = hlevel

instance abbrev pub mosque_status_eq : Eq MosqueStatus
mosque_status_eq = discrete_eq MosqueStatus-discrete

pub data ChangeEventType : Type 0 where
  mosque_created mosque_updated occurrence_published occurrence_removed source_updated :
      ChangeEventType

unfoldable pub ChangeEventType-discrete : Discrete ChangeEventType
ChangeEventType-discrete = hlevel

instance abbrev pub change_event_type_eq : Eq ChangeEventType
change_event_type_eq = discrete_eq ChangeEventType-discrete

-- `.value` of a string enumeration.
abbrev pub prayer_value : Prayer → String
prayer_value Prayer.fajr = "fajr"
prayer_value Prayer.dhuhr = "dhuhr"
prayer_value Prayer.asr = "asr"
prayer_value Prayer.maghrib = "maghrib"
prayer_value Prayer.isha = "isha"
prayer_value Prayer.jumuah = "jumuah"

abbrev pub source_type_value : SourceType → String
source_type_value SourceType.mylocalmasjid = "mylocalmasjid"
source_type_value SourceType.mosque_website = "mosque_website"
source_type_value SourceType.openstreetmap = "openstreetmap"
source_type_value SourceType.muslimsinbritain = "muslimsinbritain"
source_type_value SourceType.charity_register = "charity_register"
source_type_value SourceType.oscr_register = "oscr_register"
source_type_value SourceType.community = "community"
source_type_value SourceType.manual = "manual"
source_type_value SourceType.partner_feed = "partner_feed"

abbrev pub source_publication_policy_value : SourcePublicationPolicy → String
source_publication_policy_value SourcePublicationPolicy.public_redistribution_allowed =
    "public_redistribution_allowed"
source_publication_policy_value SourcePublicationPolicy.private_use_only = "private_use_only"
source_publication_policy_value SourcePublicationPolicy.unknown = "unknown"
source_publication_policy_value SourcePublicationPolicy.blocked = "blocked"

pub data ClaimStatus : Type 0 where
  pending verified rejected revoked : ClaimStatus

pub data CorrectionStatus : Type 0 where
  pending accepted rejected : CorrectionStatus

pub data AuthoringTaskStatus : Type 0 where
  queued discovering authoring awaiting_review deployed skipped_review failed : AuthoringTaskStatus

unfoldable pub AuthoringTaskStatus-discrete : Discrete AuthoringTaskStatus
AuthoringTaskStatus-discrete = hlevel

instance abbrev pub authoring_task_status_eq : Eq AuthoringTaskStatus
authoring_task_status_eq = discrete_eq AuthoringTaskStatus-discrete

pub data AuthoringFailureCategory : Type 0 where
  permanent_no_jamaat dead_site blocked_robots aggregator umbrella_review transient_network
        agent_error validation_failed timeout :
      AuthoringFailureCategory

unfoldable pub AuthoringFailureCategory-discrete : Discrete AuthoringFailureCategory
AuthoringFailureCategory-discrete = hlevel

instance abbrev pub authoring_failure_category_eq : Eq AuthoringFailureCategory
authoring_failure_category_eq = discrete_eq AuthoringFailureCategory-discrete

-- The categories that are never retried automatically.
abbrev pub permanent_failure_categories : List AuthoringFailureCategory
permanent_failure_categories =
    AuthoringFailureCategory.permanent_no_jamaat ∷ AuthoringFailureCategory.dead_site
    ∷ AuthoringFailureCategory.blocked_robots ∷ AuthoringFailureCategory.aggregator
    ∷ AuthoringFailureCategory.umbrella_review ∷ []
