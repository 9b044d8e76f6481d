-- ===== src/Services/Moderation/Rejection.antt =====
-- A rejection is final: services/schedule_moderation.py against the selections of
-- schedules/publication.py.
use uk_jamaat_directory.Prelude.{
  ◌≡◌, refl, subst, ◌==◌, nat_eq, String, Bool, false, ◌&&◌, Option, none, some, List, [], ◌∷◌,
  ◌++◌, select, any, All, arith, update_where, first-eq-some, Bool-cases, inl, inr, option_eq,
}
use uk_jamaat_directory.Domain.{CandidateStatus, CandidateStatus-discrete, candidate_status_eq}
use uk_jamaat_directory.Models.Rows.{Uuid, ScheduleCandidate}
use uk_jamaat_directory.Models.Session.{Db, value_error, Error, ok, err, get_candidate}
use uk_jamaat_directory.Schedules.Queries.{Filters, candidate_filters}
use uk_jamaat_directory.Schedules.Batch.{is_selected}
use uk_jamaat_directory.Schedules.Publication.{is_approved}
use uk_jamaat_directory.Schedules.Approval.{save_candidate}
use uk_jamaat_directory.Services.Moderation.{
  rejected, action_row, audit, reject_found, reject_candidate,
}

-- The row with an id, if there is one, is rejected.
abbrev pub IsRejectedIn : Uuid → Db → Type 0
IsRejectedIn id db =
    All (λ (c : ScheduleCandidate). c.id ≡ id → c.status ≡ CandidateStatus.rejected) db.candidates

-- A query that no rejected row meets returns no row with that id.
rejected_gone :
    (p : ScheduleCandidate → Bool) (id : Uuid) (xs : List ScheduleCandidate)
    → ((c : ScheduleCandidate) → c.status ≡ CandidateStatus.rejected → p c ≡ false)
    → All (λ (c : ScheduleCandidate). c.id ≡ id → c.status ≡ CandidateStatus.rejected) xs
    → any (λ x. x.id == id) (select p xs) ≡ false
rejected_gone p id [] h a = refl
rejected_gone p id (x ∷ xs) h a = elim (Bool-cases (x.id == id)) [
  | inl t ↦
      let gone : p x ≡ false = h x (a.0 ((nat_eq.beq_iff x.id id).0 t)) in
      rw gone (rejected_gone p id xs h a.1)
  | inr n ↦ elim (Bool-cases (p x)) [
    | inl q ↦ rw (q, n) (rejected_gone p id xs h a.1)
    | inr q ↦ rw q (rejected_gone p id xs h a.1)
  ]
]

-- No query of the pipeline for work selects the id.
pub record IsOut (id : Uuid) (db : Db) : Type 0 where
  pub not_validated :
      (f : Filters) (source_ids : List Uuid)
      → any
          (λ (x : ScheduleCandidate). x.id == id)
          (select (is_selected f source_ids) db.candidates)
        ≡ false
  pub not_published :
      (f : Filters)
      → any
          (λ (x : ScheduleCandidate). x.id == id)
          (select (λ c. is_approved c && candidate_filters f c) db.candidates)
        ≡ false

is_selected-rejected :
    (f : Filters) (source_ids : List Uuid) (c : ScheduleCandidate)
    → c.status ≡ CandidateStatus.rejected
    → is_selected f source_ids c ≡ false
unfolding is_selected CandidateStatus-discrete
is_selected-rejected f source_ids c h = rw h refl

is_approved-rejected :
    (f : Filters) (c : ScheduleCandidate)
    → c.status ≡ CandidateStatus.rejected
    → (is_approved c && candidate_filters f c) ≡ false
unfolding CandidateStatus-discrete
is_approved-rejected f c h = rw h refl

IsRejectedIn-IsOut : (id : Uuid) (db : Db) → IsRejectedIn id db → IsOut id db
IsRejectedIn-IsOut id db a = record {
  not_validated = λ f source_ids.
      rejected_gone (is_selected f source_ids) id db.candidates (is_selected-rejected f source_ids)
        a;
  not_published = λ f.
      rejected_gone (λ x. is_approved x && candidate_filters f x) id db.candidates
        (is_approved-rejected f) a;
}

overwritten-All :
    (id : Uuid) (c : ScheduleCandidate) (xs : List ScheduleCandidate)
    → c.status ≡ CandidateStatus.rejected
    → All
        (λ (x : ScheduleCandidate). x.id ≡ id → x.status ≡ CandidateStatus.rejected)
        (update_where (λ x. x.id == id) (λ _. c) xs)
overwritten-All id c [] h = tt
overwritten-All id c (x ∷ xs) h = elim (Bool-cases (x.id == id)) [
  | inl t ↦ rw t ((λ q. h), overwritten-All id c xs h)
  | inr n ↦ rw n ((λ q. absurd (ground (arith, q, n))), overwritten-All id c xs h)
]

-- A rejection of a candidate that is stored returns it as rejected and adds one audit row with the
-- actor and the reason. In the tables it leaves, every row of that id is rejected; and in any tables
-- where that is so, no batch validation and no publication selects the candidate, whatever their
-- filters. (An approval by a moderator may change the status again.) A rejection of an unknown id
-- raises.
pub reject_candidate_final :
    (id : Uuid) (actor : String) (reason : Option String) (db : Db)
    → ((c : ScheduleCandidate)
        → get_candidate id db ≡ some c
        → (db' : Db) × (reject_candidate id actor reason db ≡ ok (rejected c, db'))
          × IsRejectedIn id db'
          × (db'.actions ≡ db.actions ++ action_row actor "reject_candidate" id reason ∷ []))
      × (get_candidate id db ≡ none
          → (error : Error) × (reject_candidate id actor reason db ≡ err error))
      × ((later : Db) → IsRejectedIn id later → IsOut id later)
unfolding reject_candidate reject_found audit
reject_candidate_final id actor reason db = (
  (λ c found.
      let after = save_candidate (rejected c) db in
      let row = action_row actor "reject_candidate" id reason in
      let same : c.id ≡ id =
        (nat_eq.beq_iff c.id id).0 (first-eq-some (λ x. x.id == id) db.candidates found) in
      let out : IsRejectedIn id after =
        subst (λ (i : Uuid). IsRejectedIn i after) same
          (overwritten-All c.id (rejected c) db.candidates refl) in
      (record after { actions = after.actions ++ row ∷ [] }, rw found refl, out, refl)),
  (λ missing. (value_error "candidate not found", rw missing refl)),
  (λ later a. IsRejectedIn-IsOut id later a),
)
