-- ===== src/Schedules/Validation/Status.antt =====
-- Which status a validation leads to (schedules/validation.py), and what needs a manual approval.
use uk_jamaat_directory.Prelude.{
  ◌≡◌, ◌≢◌, ◌↔◌, refl, not, if◌then◌else◌, Bool, true, false, Option, some, arith, nat_eq,
  option_eq,
}
use uk_jamaat_directory.Domain.{
  ExtractionKind, CandidateStatus, SourceType, source_type_eq, extraction_kind_eq,
}
use uk_jamaat_directory.Models.Rows.{ScheduleCandidate, MosqueSource}
use uk_jamaat_directory.Schedules.Types.{Settings, ValidationResult, is_valid}
use uk_jamaat_directory.Schedules.Validation.{
  has_gate_evidence, requires_manual_approval, status_after_validation,
}

-- What may be approved with nobody looking: no AI extraction, no community source, and from a
-- website only what a repository-owned extractor produced with its gates passed.
pub record IsAutomatic (cfg : Settings) (source : MosqueSource) (kind : Option ExtractionKind)
    (c : ScheduleCandidate) : Type 0 where
  pub not_ai : kind ≢ some ExtractionKind.ai
  pub not_community : source.source_type ≢ SourceType.community
  pub gated :
      source.source_type ≡ SourceType.mosque_website
      → (cfg.repo_extractor_auto_approve_candidates ≡ true) × (has_gate_evidence c ≡ true)

status_of : Bool → Bool → CandidateStatus
status_of valid manual =
    if not valid
    then CandidateStatus.rejected
    else if manual
    then CandidateStatus.pending
    else CandidateStatus.approved

status_of_iff :
    (valid manual : Bool) {P : Type 0}
    → ((manual ≡ false) ↔ P)
    → ((status_of valid manual ≡ CandidateStatus.rejected) ↔ (valid ≡ false))
      × ((status_of valid manual ≡ CandidateStatus.approved) ↔ ((valid ≡ true) × P))
      × ((status_of valid manual ≡ CandidateStatus.pending) ↔ ((valid ≡ true) × ¬ P))
unfolding status_of
status_of_iff false manual e =
    ((λ _. refl, λ _. refl), (λ h. cc, λ h. cc h.0), (λ h. cc, λ h. cc h.0))
status_of_iff true true e =
    ((λ h. cc, λ h. cc), (λ h. cc, λ h. cc (e.1 h.1)), (λ h. (refl, λ p. cc (e.1 p)), λ h. refl))
status_of_iff true false e = (
  (λ h. cc, λ h. cc),
  (λ h. (refl, e.0 refl), λ h. refl),
  (λ h. cc, λ h. absurd (h.1 (e.0 refl))),
)

module _ (cfg : Settings) (source : MosqueSource) (kind : Option ExtractionKind)
    (c : ScheduleCandidate) where
  requires_manual_approval_iff :
      (requires_manual_approval cfg source kind c ≡ false) ↔ IsAutomatic cfg source kind c
  unfolding requires_manual_approval
  requires_manual_approval_iff = ground (
    arith,
    (option_eq ⦃e = extraction_kind_eq⦄).beq_iff kind (some ExtractionKind.ai),
    source_type_eq.beq_iff source.source_type SourceType.community,
    source_type_eq.beq_iff source.source_type SourceType.mosque_website,
  )

  -- After a validation a candidate is rejected exactly if the result has an error, approved exactly
  -- if it has none and nothing asks for a manual approval, and pending otherwise.
  pub status_after_validation_iff :
      (result : ValidationResult)
      → let status = status_after_validation cfg result kind source c in
        ((status ≡ CandidateStatus.rejected) ↔ (is_valid result ≡ false))
        × ((status ≡ CandidateStatus.approved)
            ↔ ((is_valid result ≡ true) × IsAutomatic cfg source kind c))
        × ((status ≡ CandidateStatus.pending)
            ↔ ((is_valid result ≡ true) × ¬ IsAutomatic cfg source kind c))
  unfolding status_after_validation status_of
  status_after_validation_iff result =
      status_of_iff (is_valid result) (requires_manual_approval cfg source kind c)
        requires_manual_approval_iff
