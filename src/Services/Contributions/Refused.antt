-- ===== src/Services/Contributions/Refused.antt =====
-- A submitted schedule (services/contribution_intake.py) meets the validation and the approval of
-- schedules/: neither lets it through.
use uk_jamaat_directory.Prelude.{
  ◌+◌, ◌≤◌, ◌<◌, ◌≡◌, ◌≢◌, refl, sym, ap, subst, ◌∙◌, ◌==◌, nat_eq, String, false, Option, some,
  List, [], ◌∷◌, ◌++◌, any, any-append, first, All, Member, Member-append, Member-All, arith,
  beq_refl, ◌⊎◌, inl, inr, Option-cases,
}
use uk_jamaat_directory.Prelude.Dict.{Distinct}
use uk_jamaat_directory.Domain.{SourcePublicationPolicy, SourceType, CandidateStatus}
use uk_jamaat_directory.Models.Calendar.{World}
use uk_jamaat_directory.Models.Rows.{Uuid, MosqueSource, ScheduleCandidate}
use uk_jamaat_directory.Models.Session.{Db, Error, ok, err, get_source, get_mosque}
use uk_jamaat_directory.Models.Triples.{Ensures}
use uk_jamaat_directory.Schedules.Types.{Settings}
use uk_jamaat_directory.Schedules.Parse.{Unicode}
use uk_jamaat_directory.Schedules.Validation.Status.{status_after_validation_iff}
use uk_jamaat_directory.Schedules.Prefetch.Lookup.{IsKeyed, kind_of_run}
use uk_jamaat_directory.Schedules.Prefetch.Duplicates.{rivals}
use uk_jamaat_directory.Schedules.Evaluation.{EvaluationMode, evaluate_with}
use uk_jamaat_directory.Schedules.Evaluation.Direct.{evaluate}
use uk_jamaat_directory.Schedules.Approval.{approve_candidate_status}
use uk_jamaat_directory.Schedules.Approval.Outcome.{IsApprovable, approve_candidate_status_outcome}
use uk_jamaat_directory.Services.Contributions.{MosqueScheduleSubmission, Counts, submit_schedule}
use uk_jamaat_directory.Services.Contributions.Rows.{IsPick, IsFresh, IsSubmitted, IsGrown}
use uk_jamaat_directory.Services.Contributions.Intake.{
  submitted_source, opened, unknown_mosque, submit_schedule-IsGrown,
}

module _ {A : Type 0} (id : A → Uuid) where
  no_later :
      (k : Uuid) (xs : List A)
      → All (λ x. id x < k) xs
      → (j : Uuid) → k ≤ j
      → any (λ x. id x == j) xs ≡ false
  no_later k [] a j h = refl
  no_later k (x ∷ xs) a j h = let r = no_later k xs a.1 j h in let n = a.0 in ground arith

  Distinct-add :
      (k : Uuid) (xs : List A) (x : A)
      → Distinct id xs
      → All (λ y. id y < k) xs
      → k ≤ id x
      → Distinct id (xs ++ x ∷ [])
  Distinct-add k [] x d a h = (refl, tt)
  Distinct-add k (y ∷ xs) x d a h = (
    any-append (λ z. id z == id y) xs (x ∷ []) ∙ (let e = d.0 in let n = a.0 in ground arith),
    Distinct-add k xs x d.1 a.1 h,
  )

  first-add :
      (j : Uuid) (xs : List A) (x : A)
      → any (λ y. id y == j) xs ≡ false
      → id x ≡ j
      → first (λ y. id y == j) (xs ++ x ∷ []) ≡ some x
  first-add j [] x n h = rw (h, beq_refl j) refl
  first-add j (y ∷ xs) x n h = ground (arith, first-add j xs x)

-- A community source with an unknown policy keeps its candidates from approval.
module _ (cfg : Settings) (w : World) (c : ScheduleCandidate) (db : Db) (source : MosqueSource)
    (found : get_source c.source_id db ≡ some source) where
  unknown_not-IsApprovable :
      source.publication_policy ≡ SourcePublicationPolicy.unknown → ¬ IsApprovable cfg w c db
  unknown_not-IsApprovable h a =
      let q : some a.source ≡ some source = sym a.found ∙ found in
      let r : a.source ≡ source = cc in
      let p = ap (λ (s : MosqueSource). s.publication_policy) r in let t = a.public in cc

  community_never_approved :
      source.source_type ≡ SourceType.community
      → (mode : EvaluationMode) → (evaluate cfg w mode c db).status ≢ CandidateStatus.approved
  unfolding evaluate evaluate_with
  community_never_approved h mode s =
      let kind = kind_of_run db c.extraction_run_id in
      let status : (evaluate_with cfg w mode c (some source) kind (rivals c db)).status
          ≡ CandidateStatus.approved =
        rw found at s in
      ((status_after_validation_iff cfg source kind c _).1.0 status).1.not_community h

module _ (cfg : Settings) (w : World) (newest : List ScheduleCandidate → Option ScheduleCandidate)
    (pick : IsPick newest) (u : Unicode) (uuid_text : Uuid → String) (mosque_id : Uuid)
    (payload : MosqueScheduleSubmission) (db : Db) (keyed : IsKeyed db) (fresh : IsFresh db) where
  abbrev source : MosqueSource
  source = submitted_source newest pick u uuid_text w.now mosque_id payload db

  abbrev start : Db
  start = opened newest pick u uuid_text w.now mosque_id payload db

  -- How a candidate that a submission brought fares.
  abbrev pub IsRefused : ScheduleCandidate → Db → Type 0
  IsRefused c db' =
      (c.status ≡ CandidateStatus.pending)
      × ((mode : EvaluationMode) → (evaluate cfg w mode c db').status ≢ CandidateStatus.approved)
      × (error : Error) × (approve_candidate_status cfg w c db' ≡ err error)

  start-IsKeyed : IsKeyed start
  start-IsKeyed = record {
    sources =
        Distinct-add (λ (s : MosqueSource). s.id) db.next_id db.sources source keyed.sources
          fresh.sources (omega arith);
    mosques = keyed.mosques;
    runs = keyed.runs;
  }

  grown-IsKeyed : {db' : Db} → IsGrown source start db' → IsKeyed db'
  grown-IsKeyed g =
      let k = subst IsKeyed (sym g.rest) start-IsKeyed in
      record { sources = k.sources; mosques = k.mosques; runs = k.runs }

  found_source :
      {db' : Db}
      → IsGrown source start db'
      → (c : ScheduleCandidate) → c.source_id ≡ db.next_id + 1
      → get_source c.source_id db' ≡ some source
  found_source g c q =
      ap (λ (d : Db). get_source c.source_id d) g.rest
      ∙ first-add (λ (s : MosqueSource). s.id) c.source_id db.sources source
          (no_later (λ (s : MosqueSource). s.id) db.next_id db.sources fresh.sources c.source_id
            (omega arith))
          (sym q)

  submitted-IsRefused :
      {db' : Db}
      → IsGrown source start db'
      → (c : ScheduleCandidate) → IsSubmitted start.next_id source c
      → IsRefused c db'
  submitted-IsRefused {db'} g c s =
      let found = found_source g c s.owned in
      let refused =
        (approve_candidate_status_outcome cfg w c db' (grown-IsKeyed g)).1
          (unknown_not-IsApprovable cfg w c db' source found refl) in
      (s.waiting, community_never_approved cfg w c db' source found refl, refused.0, refused.1)

  grown-IsRefused :
      {db' : Db}
      → IsGrown source start db'
      → (c : ScheduleCandidate) → Member c db'.candidates
      → Member c db.candidates ⊎ IsRefused c db'
  grown-IsRefused {db'} g c m =
      elim (Member-append db.candidates g.new (subst (λ l. Member c l) g.whole m)) [
        | inl old ↦ inl old
        | inr new ↦ inr (
            submitted-IsRefused g c (Member-All (IsSubmitted start.next_id source) new g.submitted))
      ]

  -- After a submission of a schedule that returns, in keyed tables, every candidate is one that was
  -- there before, or it is pending, no validation makes it approved, and its approval raises.
  pub submit_schedule-IsRefused :
      {result : Uuid × Counts} {db' : Db}
      → submit_schedule newest u uuid_text w.now mosque_id payload db ≡ ok (result, db')
      → (c : ScheduleCandidate) → Member c db'.candidates
      → Member c db.candidates ⊎ IsRefused c db'
  unfolding Ensures
  submit_schedule-IsRefused {result} {db'} returned c m =
      elim (Option-cases (get_mosque mosque_id db)) [
        | inl missing ↦
            let e =
              sym (unknown_mosque newest pick u uuid_text w.now mosque_id payload db missing)
              ∙ returned in
            cc
        | inr (mosque, found) ↦
            let g =
              subst (Ensures (λ (r : Uuid × Counts) (d : Db). IsGrown source start d)) returned (
                submit_schedule-IsGrown newest pick u uuid_text w.now mosque_id payload db fresh
                  mosque found) in
            grown-IsRefused g c m
      ]
