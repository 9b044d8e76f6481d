-- ===== src/Ingest/Extract/Validator.antt =====
-- ingest/extract/repo_extractors/validator.py: what an extractor script may fetch and return.
--
-- Issues are data here, and texts in the source.
pub mod Targets
pub mod Results
use uk_jamaat_directory.Prelude.{
  ℕ, ◌==◌, nat_eq, string_eq, String, Bool, true, false, not, ◌&&◌, ◌||◌, Option, none, some, List,
  [], ◌∷◌, ◌++◌, any, contains, if◌then◌else◌,
}
use uk_jamaat_directory.Prelude.Int.{ℤ, int_eq}
use uk_jamaat_directory.Domain.{Prayer, prayer_eq}
use uk_jamaat_directory.Models.Calendar.{Date, Time}
use uk_jamaat_directory.Schedules.Parse.{Text, codes, same_text}
use uk_jamaat_directory.Ingest.Texts.{Web, or_empty}
use uk_jamaat_directory.Ingest.DomainPolicy.{
  is_within, is_aggregator_url, is_umbrella_url, is_trusted_widget_url,
}

pub data TargetIssue : Type 0 where
  url_empty unsupported_scheme missing_host aggregator_site umbrella_site no_allowed_domain
        outside_domain :
      TargetIssue

abbrev pub is_web_scheme : Text → Bool
is_web_scheme scheme = same_text scheme (codes "http") || same_text scheme (codes "https")

module _ (web : Web) where
  -- The tests after the host is known. No settings are passed on to the domain policy.
  unfoldable pub check_host : Text → Text → Option Text → Option TargetIssue
  check_host url host allowed_domain =
      if is_aggregator_url web none url
      then some TargetIssue.aggregator_site
      else if is_umbrella_url web none url
      then some TargetIssue.umbrella_site
      else if is_trusted_widget_url web none url
      then none
      else elim allowed_domain [
        | none ↦ some TargetIssue.no_allowed_domain
        | some domain ↦
            if is_within host (web.unicode.lower domain)
            then none
            else some TargetIssue.outside_domain
      ]

  unfoldable pub check_host_of : Text → Text → Option Text → Option TargetIssue
  check_host_of url [] allowed_domain = some TargetIssue.missing_host
  check_host_of url (c ∷ host) allowed_domain = check_host url (c ∷ host) allowed_domain

  unfoldable pub check_target_url : Text → Option Text → Option TargetIssue
  check_target_url [] allowed_domain = some TargetIssue.url_empty
  check_target_url (c ∷ url) allowed_domain =
      let parsed = web.urlparse (c ∷ url) in
      if not (is_web_scheme parsed.scheme)
      then some TargetIssue.unsupported_scheme
      else check_host_of (c ∷ url) (web.unicode.lower (or_empty parsed.hostname)) allowed_domain

-- contract.py, as far as the checks read it.
pub record ExtractorTarget : Type 0 where
  pub label : String
  pub url : Text
  pub kind : String
  pub requires_pdf : Bool
  pub requires_ocr : Bool
  pub requires_javascript : Bool

pub data ExtractorIssue : Type 0 where
  no_targets duplicate_label unknown_kind pdf_missing ocr_missing rendering_missing : ExtractorIssue
  target_url : TargetIssue → ExtractorIssue

abbrev pub issue_if : Bool → ExtractorIssue → List ExtractorIssue
issue_if b issue = if b then issue ∷ [] else []

abbrev pub target_kinds : List String
target_kinds = "html" ∷ "pdf" ∷ "image" ∷ "json" ∷ "rendered_html" ∷ []

-- Which optional libraries are installed.
pub record Capabilities : Type 0 where
  pub pdf_text_available : Bool
  pub ocr_available : Bool
  pub render_html_available : Bool

unfoldable pub check_capabilities : Capabilities → Bool → List ExtractorTarget → List ExtractorIssue
check_capabilities caps strict_ocr [] = []
check_capabilities caps strict_ocr (t ∷ targets) =
    issue_if (not (contains t.kind target_kinds)) ExtractorIssue.unknown_kind
    ++ (issue_if (t.requires_pdf && not caps.pdf_text_available) ExtractorIssue.pdf_missing
        ++ (issue_if (t.requires_ocr && (not caps.ocr_available && strict_ocr))
              ExtractorIssue.ocr_missing
            ++ (issue_if (t.requires_javascript && not caps.render_html_available)
                  ExtractorIssue.rendering_missing
                ++ check_capabilities caps strict_ocr targets)))

abbrev pub url_issues : Option TargetIssue → List ExtractorIssue
url_issues none = []
url_issues (some issue) = ExtractorIssue.target_url issue ∷ []

-- The loop over the targets, with the labels seen so far.
unfoldable pub check_targets :
    Web → Option Text → List String → List ExtractorTarget → List ExtractorIssue
check_targets web allowed_domain seen [] = []
check_targets web allowed_domain seen (t ∷ targets) =
    issue_if (contains t.label seen) ExtractorIssue.duplicate_label
    ++ (url_issues (check_target_url web t.url allowed_domain)
        ++ check_targets web allowed_domain (t.label ∷ seen) targets)

abbrev pub no_targets_issue : List ExtractorTarget → List ExtractorIssue
no_targets_issue [] = ExtractorIssue.no_targets ∷ []
no_targets_issue (t ∷ targets) = []

unfoldable pub check_extractor :
    Web → Capabilities → List ExtractorTarget → Option Text → List ExtractorIssue
check_extractor web caps targets allowed_domain =
    no_targets_issue targets
    ++ (check_targets web allowed_domain [] targets ++ check_capabilities caps false targets)

pub record ExtractorEvidence : Type 0 where
  pub contract : String
  pub gate_passed : Bool

pub record ExtractorRow : Type 0 where
  pub date : Date
  pub prayer : Prayer
  pub jamaat_time : Time
  pub start_time : Option Time
  pub session_number : ℤ
  pub evidence : ExtractorEvidence

pub record ExtractorResult : Type 0 where
  pub rows : List ExtractorRow
  pub no_schedule_reason : Option String

pub data ResultIssue : Type 0 where
  rows_empty duplicate_row wrong_contract gate_failed : ResultIssue

abbrev pub result_issue_if : Bool → ResultIssue → List ResultIssue
result_issue_if b issue = if b then issue ∷ [] else []

abbrev pub contract_id : String
contract_id = "repo_site_extractor/v1"

-- `(row.date, row.prayer.value, row.session_number)`, on which the tuples' equality is decided.
abbrev pub same_key : ExtractorRow → ExtractorRow → Bool
same_key a b = a.date == b.date && (a.prayer == b.prayer && a.session_number == b.session_number)

-- `key in seen`
abbrev pub seen_before : ExtractorRow → List ExtractorRow → Bool
seen_before row seen = any (same_key row) seen

-- The loop over the rows, with the rows whose keys are in `seen`.
unfoldable pub check_rows : List ExtractorRow → List ExtractorRow → List ResultIssue
check_rows seen [] = []
check_rows seen (row ∷ rows) =
    result_issue_if (seen_before row seen) ResultIssue.duplicate_row
    ++ (result_issue_if (not (row.evidence.contract == contract_id)) ResultIssue.wrong_contract
        ++ (result_issue_if (not row.evidence.gate_passed) ResultIssue.gate_failed
            ++ check_rows (row ∷ seen) rows))

-- `not result.rows and not result.no_schedule_reason`
abbrev pub lacks_reason : ExtractorResult → Bool
lacks_reason result = elim result.rows [
  | [] ↦ elim result.no_schedule_reason [ none ↦ true | some reason ↦ reason == "" ]
  | row ∷ rows ↦ false
]

unfoldable pub check_extractor_result : ExtractorResult → List ResultIssue
check_extractor_result result =
    result_issue_if (lacks_reason result) ResultIssue.rows_empty ++ check_rows [] result.rows
