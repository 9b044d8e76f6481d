-- ===== src/Schedules/Validation.antt =====
-- schedules/validation.py: the deterministic checks on one candidate, and the status that follows.
--
-- `mosque` and `source` are arguments of `validate_candidate` that its body does not read.
pub mod Acceptable
pub mod Status
use uk_jamaat_directory.Prelude.{
  ℕ, ◌+◌, ◌-◌, ◌*◌, ◌<◌, String, Bool, true, false, not, ◌&&◌, ◌||◌, Option, none, some, List, [],
  ◌∷◌, ◌++◌, ◌==◌, nat_eq, string_eq, option_eq, ltb, if◌then◌else◌, any,
}
use uk_jamaat_directory.Prelude.Int.{below_one}
use uk_jamaat_directory.Domain.{
  ExtractionKind, Prayer, CandidateStatus, SourceType, prayer_eq, extraction_kind_eq,
  source_type_eq,
}
use uk_jamaat_directory.Models.Json.{Json, get, truthy, text_at, exceeds}
use uk_jamaat_directory.Models.Calendar.{Date, Time, World, weekday, time_lt}
use uk_jamaat_directory.Models.Rows.{Uuid, ScheduleCandidate, MosqueSource, ValidationIssue}
use uk_jamaat_directory.Schedules.Types.{
  Settings, ValidationResult, is_valid, error_issue, warning_issue,
}

abbrev pub report_if : Bool → ValidationIssue → ValidationResult
report_if b issue = if b then issue ∷ [] else []

abbrev pub is_missing {ℓ} : {A : Type ℓ} → Option A → Bool
is_missing none = true
is_missing (some a) = false

-- `candidate.timezone or "Europe/London"`
abbrev pub zone_name : ScheduleCandidate → String
zone_name c = if c.timezone == "" then "Europe/London" else c.timezone

unfoldable pub identity_issues : ScheduleCandidate → ValidationResult
identity_issues c =
    report_if (is_missing c.mosque_id) (error_issue "missing_mosque" "mosque_id")
    ++ (report_if (is_missing c.jamaat_time) (error_issue "missing_jamaat" "jamaat_time")
        ++ report_if (below_one c.session_number)
            (error_issue "invalid_session_number" "session_number"))

-- The window of dates, and Fridays for jumuah. A date is never negative, so that the subtraction
-- stops at 0 changes no comparison.
unfoldable pub date_issues : Settings → World → ScheduleCandidate → ValidationResult
date_issues cfg w c =
    let today = w.today_in (zone_name c) in
    let earliest = today - cfg.schedule_date_past_days in
    let latest = today + cfg.schedule_date_future_days in
    report_if (ltb c.date earliest || ltb latest c.date) (error_issue "date_out_of_range" "date")
    ++ report_if (c.prayer == Prayer.jumuah && not (weekday c.date == 4))
        (error_issue "jumuah_not_friday" "date")

abbrev minutes : Time → ℕ
minutes t = t.hour * 60 + t.minute

-- `jamaat_mins - start_mins > 90`, over the integers
unfoldable pub order_issues : Option Time → Option Time → ValidationResult
order_issues (some start) (some jamaat) =
    report_if (time_lt jamaat start) (error_issue "jamaat_before_start" "jamaat_time")
    ++ report_if (ltb (minutes start + 90) (minutes jamaat))
        (warning_issue "jamaat_far_from_start" "jamaat_time")
order_issues _ _ = []

-- `_append_dst_warnings`
unfoldable pub dst_warnings : World → Date → Option Time → String → String → ValidationResult
dst_warnings w date none zone field = []
dst_warnings w date (some at_time) zone field =
    if w.utc_fails date at_time zone
    then warning_issue "dst_gap_hour" field ∷ []
    else report_if at_time.fold (warning_issue "dst_ambiguous_hour" field)

-- What is checked once the zone is known.
unfoldable pub zone_issues : Settings → World → ScheduleCandidate → ValidationResult
zone_issues cfg w c =
    date_issues cfg w c
    ++ (order_issues c.start_time c.jamaat_time
        ++ (dst_warnings w c.date c.jamaat_time (zone_name c) "jamaat_time"
            ++ dst_warnings w c.date c.start_time (zone_name c) "start_time"))

-- `duplicate_ids - {candidate.id}` is not empty
unfoldable pub duplicate_issues : Uuid → List Uuid → ValidationResult
duplicate_issues id duplicate_ids =
    report_if (any (λ other. not (other == id)) duplicate_ids)
      (error_issue "duplicate_session" "session_number")

unfoldable pub evidence_warnings : ScheduleCandidate → ValidationResult
evidence_warnings c =
    report_if (truthy "ramadan_schedule" c.evidence && exceeds "ramadan_span_days" c.evidence 35)
      (warning_issue "ramadan_metadata" "evidence")

unfoldable pub checks : Settings → World → ScheduleCandidate → List Uuid → ValidationResult
checks cfg w c duplicate_ids =
    report_if (not (w.known_zone (zone_name c))) (error_issue "invalid_timezone" "timezone")
    ++ (identity_issues c
        ++ ((if w.known_zone (zone_name c) then zone_issues cfg w c else [])
            ++ (duplicate_issues c.id duplicate_ids ++ evidence_warnings c)))

unfoldable pub validate_candidate :
    Settings → World → ScheduleCandidate → List Uuid → Option ExtractionKind → ValidationResult
validate_candidate cfg w c duplicate_ids kind =
    let result = checks cfg w c duplicate_ids in
    result
    ++ report_if (kind == some ExtractionKind.ai && is_valid result)
        (warning_issue "ai_requires_review" "extraction_run")

-- The evidence of a repository-owned extractor whose gates passed.
unfoldable pub has_gate_evidence : ScheduleCandidate → Bool
has_gate_evidence c =
    text_at "contract" c.evidence == some "repo_site_extractor/v1"
    && truthy "gate_passed" c.evidence

-- `_requires_manual_approval`, at the call that has both a source and a candidate
unfoldable pub requires_manual_approval :
    Settings → MosqueSource → Option ExtractionKind → ScheduleCandidate → Bool
requires_manual_approval cfg source kind c =
    if kind == some ExtractionKind.ai
    then true
    else if source.source_type == SourceType.community
    then true
    else if source.source_type == SourceType.mosque_website
    then (if not cfg.repo_extractor_auto_approve_candidates
        then true
        else not (has_gate_evidence c))
    else false

unfoldable pub status_after_validation :
    Settings
    → ValidationResult
    → Option ExtractionKind
    → MosqueSource
    → ScheduleCandidate
    → CandidateStatus
status_after_validation cfg result kind source c =
    if not (is_valid result)
    then CandidateStatus.rejected
    else if requires_manual_approval cfg source kind c
    then CandidateStatus.pending
    else CandidateStatus.approved
