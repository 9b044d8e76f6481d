-- ===== src/Schedules/Approval/Outcome.antt =====
-- Which candidates an approval accepts (schedules/approval.py).
use uk_jamaat_directory.Prelude.{
  ◌≡◌, ◌≢◌, ◌↔◌, refl, ◌==◌, nat_eq, option_eq, true, Option, none, some, [], ◌∷◌, arith,
  Bool-cases, Option-cases, inl, inr, here,
}
use uk_jamaat_directory.Domain.{
  ExtractionKind, CandidateStatus, candidate_status_eq, SourcePublicationPolicy,
  source_publication_policy_eq, extraction_kind_eq,
}
use uk_jamaat_directory.Models.Calendar.{World}
use uk_jamaat_directory.Models.Rows.{ScheduleCandidate, MosqueSource}
use uk_jamaat_directory.Models.Session.{Db, Error, ok, err, value_error, get_source}
use uk_jamaat_directory.Schedules.Types.{Settings, is_valid}
use uk_jamaat_directory.Schedules.Gates.{can_publish_candidate}
use uk_jamaat_directory.Schedules.Validation.Acceptable.{
  IsAcceptable, validate_candidate-IsAcceptable,
}
use uk_jamaat_directory.Schedules.Validation.Status.{IsAutomatic, status_after_validation_iff}
use uk_jamaat_directory.Schedules.Prefetch.Lookup.{IsKeyed, kind_of_run}
use uk_jamaat_directory.Schedules.Prefetch.Duplicates.{rivals}
use uk_jamaat_directory.Schedules.Evaluation.{
  EvaluationMode, CandidateEvaluation, evaluate_with, apply_validation_result,
}
use uk_jamaat_directory.Schedules.Evaluation.Direct.{evaluate, evaluate_candidate_in_context-build}
use uk_jamaat_directory.Schedules.Approval.{
  save_candidate, reason_text, apply_approval, approve_candidate_status,
}

pub record IsApprovable (cfg : Settings) (w : World) (c : ScheduleCandidate) (db : Db)
    : Type 0 where
  pub source : MosqueSource
  pub found : get_source c.source_id db ≡ some source
  pub public : source.publication_policy ≡ SourcePublicationPolicy.public_redistribution_allowed
  pub acceptable : IsAcceptable cfg w c (rivals c db)
  pub automatic : IsAutomatic cfg source (kind_of_run db c.extraction_run_id) c

-- The candidate as an approval leaves it.
abbrev pub approved_as : CandidateEvaluation → ScheduleCandidate → ScheduleCandidate
approved_as evaluation c = record c {
  validation_errors = evaluation.validation;
  status = CandidateStatus.approved;
}

-- The conditions under which an evaluation lets an approval pass.
abbrev Passes : CandidateEvaluation → Type 0
Passes e =
    (e.policy_reason ≡ none)
    × (is_valid e.validation ≡ true)
    × (e.status ≡ CandidateStatus.approved)

apply_approval_ok :
    (c : ScheduleCandidate) (e : CandidateEvaluation) (db : Db)
    → e.policy_reason ≡ none
    → is_valid e.validation ≡ true
    → e.status ≡ CandidateStatus.approved
    → apply_approval c e db ≡ ok (approved_as e c, save_candidate (approved_as e c) db)
unfolding apply_approval apply_validation_result
apply_approval_ok c e db r v s =
    ground (arith, candidate_status_eq.beq_iff e.status CandidateStatus.approved)

apply_approval_refused :
    (c : ScheduleCandidate) (e : CandidateEvaluation) (db : Db)
    → ¬ Passes e
    → (error : Error) × (apply_approval c e db ≡ err error)
unfolding apply_approval apply_validation_result
apply_approval_refused c e db no_way = elim (Option-cases e.policy_reason) [
  | inr (reason, r) ↦ (value_error (reason_text e.policy_reason), rw r refl)
  | inl r ↦ elim (Bool-cases (is_valid e.validation)) [
    | inr v ↦ (value_error "candidate has validation errors and cannot be approved", rw (r, v) refl)
    | inl v ↦ elim (Bool-cases (e.status == CandidateStatus.approved)) [
      | inr s ↦ (value_error "candidate requires manual review before approval", rw (r, v, s) refl)
      | inl s ↦
          absurd
            (no_way (r, v, (candidate_status_eq.beq_iff e.status CandidateStatus.approved).0 s))
    ]
  ]
]

can_publish_candidate_iff :
    (cfg : Settings) (source : MosqueSource) (kind : Option ExtractionKind)
    → kind ≢ some ExtractionKind.ai
    → (can_publish_candidate cfg source kind ≡ none)
      ↔ (source.publication_policy ≡ SourcePublicationPolicy.public_redistribution_allowed)
unfolding can_publish_candidate
can_publish_candidate_iff cfg source kind h = ground (
  arith,
  source_publication_policy_eq.beq_iff source.publication_policy
      SourcePublicationPolicy.public_redistribution_allowed,
  (option_eq ⦃e = extraction_kind_eq⦄).beq_iff kind (some ExtractionKind.ai),
)

module _ (cfg : Settings) (w : World) (c : ScheduleCandidate) (db : Db) where
  Passes-of_source :
      (found : Option MosqueSource)
      → get_source c.source_id db ≡ found
      → Passes (
          evaluate_with cfg w EvaluationMode.approve c found
            (kind_of_run db c.extraction_run_id)
            (rivals c db))
      → IsApprovable cfg w c db
  unfolding evaluate_with
  Passes-of_source none f p = cc p.0
  Passes-of_source (some source) f p =
      let automatic =
        ((status_after_validation_iff cfg source (kind_of_run db c.extraction_run_id) c _).1.0
          p.2).1 in
      record {
        source = source;
        found = f;
        public = (can_publish_candidate_iff cfg source _ automatic.not_ai).0 p.0;
        acceptable = (validate_candidate-IsAcceptable cfg w c (rivals c db) _).0 p.1;
        automatic = automatic;
      }

  IsApprovable-Passes :
      IsApprovable cfg w c db → Passes (evaluate cfg w EvaluationMode.approve c db)
  unfolding evaluate evaluate_with
  IsApprovable-Passes a =
      let kind = kind_of_run db c.extraction_run_id in
      let valid = (validate_candidate-IsAcceptable cfg w c (rivals c db) kind).1 a.acceptable in
      rw a.found (
        (can_publish_candidate_iff cfg a.source kind a.automatic.not_ai).1 a.public,
        valid,
        (status_after_validation_iff cfg a.source kind c _).1.1 (valid, a.automatic),
      )

  approve-eq-apply :
      IsKeyed db
      → approve_candidate_status cfg w c db
        ≡ apply_approval c (evaluate cfg w EvaluationMode.approve c db) db
  unfolding approve_candidate_status
  approve-eq-apply keyed = rw (
      evaluate_candidate_in_context-build cfg w EvaluationMode.approve db c (c ∷ []) keyed
        (refl, tt) (here refl))

  Passes-evaluate : Passes (evaluate cfg w EvaluationMode.approve c db) → IsApprovable cfg w c db
  unfolding evaluate
  Passes-evaluate p = Passes-of_source (get_source c.source_id db) refl p

  -- In a database with keyed tables, an approval succeeds exactly for a candidate whose source
  -- exists and allows public redistribution, which passes every check against the whole table, and
  -- which nothing keeps from automatic approval. It then stores the status, the warnings, and
  -- nothing else; in every other case it raises.
  pub approve_candidate_status_outcome :
      IsKeyed db
      → (IsApprovable cfg w c db
          → let c' = approved_as (evaluate cfg w EvaluationMode.approve c db) c in
            approve_candidate_status cfg w c db ≡ ok (c', save_candidate c' db))
        × (¬ IsApprovable cfg w c db
            → (error : Error) × (approve_candidate_status cfg w c db ≡ err error))
  approve_candidate_status_outcome keyed = (
    (λ a.
        let p : Passes (evaluate cfg w EvaluationMode.approve c db) = IsApprovable-Passes a in
        rw (approve-eq-apply keyed)
          (apply_approval_ok c (evaluate cfg w EvaluationMode.approve c db) db p.0 p.1 p.2)),
    (λ n. rw (approve-eq-apply keyed) (
        apply_approval_refused c (evaluate cfg w EvaluationMode.approve c db) db
          (λ p. n (Passes-evaluate p)))),
  )

  pending_not-IsApprovable :
      (evaluate cfg w EvaluationMode.validate c db).status ≡ CandidateStatus.pending
      → ¬ IsApprovable cfg w c db
  unfolding evaluate evaluate_with
  pending_not-IsApprovable h a =
      let kind = kind_of_run db c.extraction_run_id in
      let status : (evaluate_with cfg w EvaluationMode.validate c (some a.source) kind
            (rivals c db)).status
          ≡ CandidateStatus.pending =
        rw a.found at h in
      ((status_after_validation_iff cfg a.source kind c _).2.0 status).1 a.automatic

  -- In a database with keyed tables, whatever a validation leaves pending for a manual approval, the
  -- approval refuses.
  pub approve_candidate_status-pending :
      IsKeyed db
      → (evaluate cfg w EvaluationMode.validate c db).status ≡ CandidateStatus.pending
      → (error : Error) × (approve_candidate_status cfg w c db ≡ err error)
  approve_candidate_status-pending keyed h =
      (approve_candidate_status_outcome keyed).1 (pending_not-IsApprovable h)
