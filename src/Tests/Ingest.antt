-- ===== src/Tests/Ingest.antt =====
-- The theorems about the ingestion, with the ASCII part of the Unicode tables and a small `urlparse`.
use uk_jamaat_directory.Prelude.{
  ◌≤◌, ◌≡◌, ◌≢◌, ◌↔◌, ◌⊎◌, refl, true, false, not, ◌&&◌, nat_eq, none, some, [], ◌∷◌, All, select,
  arith,
}
use uk_jamaat_directory.Prelude.Int.{pos}
use uk_jamaat_directory.Domain.{
  Prayer, AuthoringFailureCategory, permanent_failure_categories, AuthoringTaskStatus,
  AuthoringTaskStatus-discrete, AuthoringFailureCategory-discrete,
}
use uk_jamaat_directory.Schedules.Parse.{codes}
use uk_jamaat_directory.Ingest.Texts.{Web, ends_with, strip_dots_left, strip_dots_right, strip_dots}
use uk_jamaat_directory.Ingest.DomainPolicy.{
  is_aggregator_domain, is_umbrella_domain, matches_domains, host_of, is_aggregator_url,
  is_umbrella_url, is_trusted_widget_url,
}
use uk_jamaat_directory.Ingest.DomainPolicy.Subdomains.{below, domain_policy_below}
use uk_jamaat_directory.Ingest.Extract.Validator.{
  check_target_url, check_host_of, check_host, check_targets, check_capabilities, ExtractorTarget,
  Capabilities, check_extractor, ExtractorRow, ExtractorResult, contract_id, lacks_reason,
  check_extractor_result,
}
use uk_jamaat_directory.Ingest.Extract.Validator.Targets.{
  IsAllowed, check_target_url_iff, check_extractor-IsAllowed,
}
use uk_jamaat_directory.Ingest.Extract.Validator.Results.{
  AreDistinct, IsGated, check_extractor_result_iff,
}
use uk_jamaat_directory.Ingest.Extract.Times.{
  clock, window_of, infer_ampm, parse_time_loose, coerce_time,
}
use uk_jamaat_directory.Ingest.Extract.Times.Halves.{
  IsReading, ParsedTime, infer_ampm-IsReading, coerce_time-ParsedTime,
}
use uk_jamaat_directory.Ingest.Extract.Times.Printed.{
  IsLatin, twelve_hour, parse_time_loose-twelve_hour,
}
use uk_jamaat_directory.Ingest.Authoring.FailureTaxonomy.{said, classify_failure}
use uk_jamaat_directory.Ingest.Authoring.FailureTaxonomy.Permanent.{
  is_permanent, is_lost, classify_failure-permanent,
}
use uk_jamaat_directory.Ingest.Authoring.Retry.{
  RetryPolicy, AuthoringTask, SourceRow, or_zero, is_among, is_settled, task_eligible_for_retry,
  is_queried, list_candidate_sources, record_crash,
}
use uk_jamaat_directory.Ingest.Authoring.Retry.Runs.{Runs, start, next, crashed, runs_end}
use uk_jamaat_directory.Ingest.Authoring.Retry.Listing.{
  eligible_sources, limited, list_candidate_sources_limit,
}
use uk_jamaat_directory.Tests.Parse.{ascii, ascii-IsAscii}
use uk_jamaat_directory.Tests.Samples.{today, public_source}

-- An address without its scheme, as a host.
abbrev web : Web
web = record {
  unicode = ascii;
  urlparse = λ url. record { scheme = codes "https"; netloc = url; hostname = some url; path = [] };
}

domain_policy_below_example :
    (is_aggregator_domain ascii none (some (codes "salah.com")) ≡ true
      → is_aggregator_domain ascii none (some (below (codes "www") (codes "salah.com"))) ≡ true)
    × (is_umbrella_domain ascii none (some (codes "salah.com")) ≡ true
        → is_umbrella_domain ascii none (some (below (codes "www") (codes "salah.com"))) ≡ true)
unfolding strip_dots strip_dots_left strip_dots_right
domain_policy_below_example =
    domain_policy_below ascii (codes "www") (codes "salah.com") refl refl none

check_target_url_iff_example :
    (check_target_url web (codes "www.mosque.org") (some (codes "mosque.org")) ≡ none) ↔ (
      (codes "www.mosque.org" ≢ [])
      × IsAllowed web (codes "www.mosque.org") (some (codes "mosque.org")))
check_target_url_iff_example =
    check_target_url_iff web (codes "www.mosque.org") (some (codes "mosque.org"))

abbrev target : ExtractorTarget
target = record {
  label = "times";
  url = codes "www.mosque.org";
  kind = "html";
  requires_pdf = false;
  requires_ocr = false;
  requires_javascript = false;
}

abbrev no_libraries : Capabilities
no_libraries = record {
  pdf_text_available = false;
  ocr_available = false;
  render_html_available = false;
}

checked : check_extractor web no_libraries (target ∷ []) (some (codes "mosque.org")) ≡ []
unfolding check_extractor check_targets check_capabilities check_target_url check_host_of check_host
    host_of is_aggregator_url is_umbrella_url is_trusted_widget_url is_aggregator_domain
    is_umbrella_domain matches_domains strip_dots strip_dots_left strip_dots_right ends_with
checked = refl

check_extractor-IsAllowed_example :
    (target ∷ [] ≢ [])
    × All
        (λ (t : ExtractorTarget). (t.url ≢ []) × IsAllowed web t.url (some (codes "mosque.org")))
        (target ∷ [])
check_extractor-IsAllowed_example =
    check_extractor-IsAllowed web no_libraries (target ∷ []) (some (codes "mosque.org")) checked

abbrev row : Prayer → ExtractorRow
row prayer = record {
  date = today;
  prayer = prayer;
  jamaat_time = clock 13 15;
  start_time = none;
  session_number = pos 1;
  evidence = record { contract = contract_id; gate_passed = true };
}

abbrev result : ExtractorResult
result = record { rows = row Prayer.dhuhr ∷ row Prayer.asr ∷ []; no_schedule_reason = none }

check_extractor_result_iff_example :
    (check_extractor_result result ≡ [])
    ↔ ((lacks_reason result ≡ false) × AreDistinct result.rows × All IsGated result.rows)
check_extractor_result_iff_example = check_extractor_result_iff result

infer_ampm-IsReading_example :
    let late = infer_ampm ascii (clock 9 45) (some (codes "isha")) in
    IsReading (clock 9 45) (clock 17 0, clock 23 59) late
    × (infer_ampm ascii late (some (codes "isha")) ≡ late)
unfolding window_of
infer_ampm-IsReading_example =
    infer_ampm-IsReading ascii (codes "isha") (clock 9 45) (clock 17 0, clock 23 59) (omega arith)
      refl

coerce_time-ParsedTime_example :
    ParsedTime ascii (coerce_time ascii (some (codes "9.45 pm")) (some (codes "isha")))
coerce_time-ParsedTime_example =
    coerce_time-ParsedTime ascii (some (codes "9.45 pm")) (some (codes "isha"))

ascii-IsLatin : IsLatin ascii
ascii-IsLatin = record {
  ascii = ascii-IsAscii;
  letters = (refl, refl, refl);
  lower = λ hour minute h m. refl;
}

parse_time_loose-twelve_hour_example :
    parse_time_loose ascii (some (twelve_hour 21 45)) ≡ some (clock 21 45)
parse_time_loose-twelve_hour_example =
    parse_time_loose-twelve_hour ascii ascii-IsLatin 21 45 (omega arith) (omega arith)

classify_failure-permanent_example :
    is_permanent (classify_failure ascii (some (codes "http 404")) none [] false)
    ≡ (not false && is_lost ascii (said (some (codes "http 404"))) (said none))
classify_failure-permanent_example =
    classify_failure-permanent ascii (some (codes "http 404")) none [] false

abbrev policy : RetryPolicy
policy = record { retry_failed = false; retry_categories = []; max_attempts = 2 }

abbrev once : AuthoringTask
once = record {
  source_id = 7;
  status = AuthoringTaskStatus.failed;
  failure_category = some AuthoringFailureCategory.agent_error;
  attempts = some 1;
}

abbrev twice : AuthoringTask
twice = record once { attempts = some 2 }

two_crashes : Runs policy 7 2 (some twice)
unfolding record_crash is_settled task_eligible_for_retry AuthoringTaskStatus-discrete
    AuthoringFailureCategory-discrete
two_crashes = next (next start refl crashed) refl crashed

runs_end_example :
    ((2 ≤ 1) ⊎ (2 ≤ 2))
    × (or_zero twice.attempts ≡ 2)
    × ((twice.status ≡ AuthoringTaskStatus.failed)
        ⊎ ((twice.status ≡ AuthoringTaskStatus.deployed)
            ⊎ ((twice.status ≡ AuthoringTaskStatus.awaiting_review)
                ⊎ (twice.status ≡ AuthoringTaskStatus.skipped_review))))
    × (twice.status ≢ AuthoringTaskStatus.failed → is_settled policy (some twice) ≡ true)
    × (2 ≤ 2 → is_settled policy (some twice) ≡ true)
    × (is_among twice.failure_category permanent_failure_categories ≡ true
        → is_settled policy (some twice) ≡ true)
runs_end_example = runs_end policy (record { no_failed = refl; no_categories = refl }) two_crashes

abbrev website : SourceRow
website = record { source = public_source; assignment_status = none; task = none }

list_candidate_sources_limit_example :
    list_candidate_sources none (some 0) policy (website ∷ website ∷ [])
    ≡ limited policy
        (some 0)
        none
        (eligible_sources policy (select (is_queried none) (website ∷ website ∷ [])))
list_candidate_sources_limit_example =
    list_candidate_sources_limit policy (website ∷ website ∷ []) (some 0) none
