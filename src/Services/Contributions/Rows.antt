-- ===== src/Services/Contributions/Rows.antt =====
-- The rows of one submission (services/contribution_intake.py): what an upsert for a new source
-- makes of the candidates.
use uk_jamaat_directory.Prelude.{
  ◌≤◌, ◌<◌, ◌≡◌, ◌≢◌, refl, sym, ap, ◌∙◌, ◌==◌, nat_eq, option_eq, true, false, ◌&&◌, &&-eq-true,
  Option, none, some, List, [], ◌∷◌, ◌++◌, append_assoc, select, select-All, any, update_where,
  update_where_none, update_where-append, All, All-append, All-map, All-update_where, Member,
  Member-All, arith, Bool-cases, inl, inr, beq_refl,
}
use uk_jamaat_directory.Prelude.Tables.{of_select}
use uk_jamaat_directory.Domain.{CandidateStatus, CandidateStatus-discrete}
use uk_jamaat_directory.Models.Rows.{Uuid, MosqueSource, ScheduleCandidate}
use uk_jamaat_directory.Models.Session.{Db, err, data_error}
use uk_jamaat_directory.Models.Columns.{fits_text, fits_optional, fits_integer}
use uk_jamaat_directory.Models.Triples.{Ensures}
use uk_jamaat_directory.Schedules.Prefetch.{is_active}
use uk_jamaat_directory.Schedules.Approval.{save_candidate}
use uk_jamaat_directory.Schedules.Candidates.{
  Upsert, is_for, matches, is_unchanged, updated, new_candidate, add_candidate, columns_fit,
  upsert_found, upsert_schedule_candidate,
}
use uk_jamaat_directory.Schedules.Candidates.Carried.{is_unchanged-IsCarried, row_fits}

-- LIMIT 1 returns a row of the query.
abbrev pub IsPick : (List ScheduleCandidate → Option ScheduleCandidate) → Type 0
IsPick newest =
    (xs : List ScheduleCandidate) (c : ScheduleCandidate) → newest xs ≡ some c → Member c xs

-- What `uuid4` promises: no row has or names an id that is yet to come.
pub record IsFresh (db : Db) : Type 0 where
  pub sources : All (λ (s : MosqueSource). s.id < db.next_id) db.sources
  pub candidates :
      All
        (λ (c : ScheduleCandidate). (c.id < db.next_id) × (c.source_id < db.next_id))
        db.candidates

-- A candidate as a submission leaves it.
pub record IsSubmitted (first_id : Uuid) (source : MosqueSource) (c : ScheduleCandidate)
    : Type 0 where
  pub owned : c.source_id ≡ source.id
  pub waiting : c.status ≡ CandidateStatus.pending
  pub by_hand : c.extraction_run_id ≡ none
  pub later : first_id ≤ c.id
  pub fits : (fits_optional 120 c.session_label && fits_text 64 c.timezone) ≡ true

-- The tables after some rows: submitted candidates behind the old ones, and nothing else.
pub record IsGrown (source : MosqueSource) (db db' : Db) : Type 0 where
  pub new : List ScheduleCandidate
  pub whole : db'.candidates ≡ db.candidates ++ new
  pub submitted : All (IsSubmitted db.next_id source) new
  pub later : db.next_id ≤ db'.next_id
  pub rest : record db' { candidates = db.candidates; next_id = db.next_id } ≡ db

none_later :
    (first_id id : Uuid) (cs : List ScheduleCandidate)
    → first_id ≤ id
    → All (λ (c : ScheduleCandidate). c.id < first_id) cs
    → any (λ (c : ScheduleCandidate). c.id == id) cs ≡ false
none_later first_id id [] h a = refl
none_later first_id id (c ∷ cs) h a =
    let q = none_later first_id id cs h a.1 in let n = a.0 in ground arith

module _ (u : Upsert) (db0 : Db)
    (old : All
      (λ (c : ScheduleCandidate). (c.id < db0.next_id) × (c.source_id ≢ u.source.id))
      db0.candidates)
    (by_hand : u.extraction_run_id ≡ none) where
  new_candidate-IsSubmitted :
      columns_fit u ≡ true
      → (id : Uuid) → db0.next_id ≤ id
      → IsSubmitted db0.next_id u.source (new_candidate u id)
  unfolding new_candidate columns_fit
  new_candidate-IsSubmitted fit id h = record {
    owned = refl;
    waiting = refl;
    by_hand = by_hand;
    later = h;
    fits = fit;
  }

  updated-IsSubmitted :
      columns_fit u ≡ true
      → (c : ScheduleCandidate) → IsSubmitted db0.next_id u.source c
      → IsSubmitted db0.next_id u.source (updated u c)
  unfolding updated CandidateStatus-discrete columns_fit
  updated-IsSubmitted fit c s = record {
    owned = s.owned;
    waiting = rw s.waiting refl;
    by_hand = by_hand;
    later = s.later;
    fits = fit;
  }

  -- Whatever the query selects was submitted.
  matches-IsSubmitted :
      {db : Db}
      → (g : IsGrown u.source db0 db) (c : ScheduleCandidate) → Member c db.candidates
      → matches u c ≡ true
      → IsSubmitted db0.next_id u.source c
  unfolding matches is_for
  matches-IsSubmitted g c m h =
      let both = &&-eq-true (is_for u c) (is_active c) h in
      let mine : c.source_id ≡ u.source.id = ground (arith, both.0) in
      Member-All
        (λ (c : ScheduleCandidate). c.source_id ≡ u.source.id → IsSubmitted db0.next_id u.source c)
        m
        (rw g.whole (
          All-append _ db0.candidates g.new
            (All-map _ _ db0.candidates (λ x n q. absurd (n.1 q)) old)
            (All-map _ _ g.new (λ x s q. s) g.submitted)))
        mine

  added-IsGrown :
      {db : Db}
      → columns_fit u ≡ true
      → IsGrown u.source db0 db
      → IsGrown u.source db0 (add_candidate u db)
  unfolding add_candidate
  added-IsGrown {db} fit g = record {
    new = g.new ++ new_candidate u db.next_id ∷ [];
    whole = rw g.whole (append_assoc db0.candidates g.new (new_candidate u db.next_id ∷ []));
    submitted =
        All-append _ g.new (new_candidate u db.next_id ∷ []) g.submitted
          (new_candidate-IsSubmitted fit db.next_id g.later, tt);
    later = let k = g.later in omega arith;
    rest = g.rest;
  }

  saved-IsGrown :
      {db : Db} (c : ScheduleCandidate)
      → IsGrown u.source db0 db
      → IsSubmitted db0.next_id u.source c
      → IsGrown u.source db0 (save_candidate c db)
  saved-IsGrown {db} c g s =
      let p = λ (r : ScheduleCandidate). r.id == c.id in
      let f = λ (r : ScheduleCandidate). c in
      let swap = λ (cs : List ScheduleCandidate). update_where p f cs in
      record {
        new = swap g.new;
        whole =
            ap swap g.whole
            ∙ (update_where-append p f db0.candidates g.new
                ∙ ap (λ l. l ++ swap g.new)
                    (update_where_none p f db0.candidates (
                      none_later db0.next_id c.id db0.candidates s.later
                        (All-map _ _ db0.candidates (λ x n. n.0) old))));
        submitted =
            All-update_where (IsSubmitted db0.next_id u.source) p f g.new (λ x _. s) g.submitted;
        later = g.later;
        rest = g.rest;
      }

  found-IsGrown :
      {db : Db} (o : Option ScheduleCandidate)
      → IsGrown u.source db0 db
      → ((c : ScheduleCandidate) → o ≡ some c → IsSubmitted db0.next_id u.source c)
      → columns_fit u ≡ true
      → Ensures (λ flags db'. IsGrown u.source db0 db') (upsert_found u o db)
  unfolding upsert_found Ensures
  found-IsGrown {db} none g s fit = rw fit (added-IsGrown fit g)
  found-IsGrown {db} (some c) g s fit = elim (Bool-cases (is_unchanged u c)) [
    | inl same ↦ rw same g
    | inr changed ↦
        let q : c.extraction_run_id ≡ u.extraction_run_id = (s c refl).by_hand ∙ sym by_hand in
        let same_run : (c.extraction_run_id == u.extraction_run_id) ≡ true =
          rw q (beq_refl u.extraction_run_id) in
        rw (changed, same_run, fit)
          (saved-IsGrown (updated u c) g (updated-IsSubmitted fit c (s c refl)))
  ]

  -- A row that does not fit is not unchanged, as what was submitted fits.
  found_misfit :
      (db : Db) (o : Option ScheduleCandidate)
      → ((c : ScheduleCandidate) → o ≡ some c → IsSubmitted db0.next_id u.source c)
      → columns_fit u ≡ false
      → upsert_found u o db ≡ err data_error
  unfolding upsert_found columns_fit
  found_misfit db none s m = rw m refl
  found_misfit db (some c) s m = elim (Bool-cases (is_unchanged u c)) [
    | inl same ↦
        let k = is_unchanged-IsCarried u c same in
        let fits = rw (k.session_label, k.timezone) at ((s c refl).fits) in cc
    | inr changed ↦
        let q : c.extraction_run_id ≡ u.extraction_run_id = (s c refl).by_hand ∙ sym by_hand in
        let same_run : (c.extraction_run_id == u.extraction_run_id) ≡ true =
          rw q (beq_refl u.extraction_run_id) in
        rw (changed, same_run, m) refl
  ]

  module _ (newest : List ScheduleCandidate → Option ScheduleCandidate) (pick : IsPick newest)
      {db : Db} (g : IsGrown u.source db0 db) where
    picked-IsSubmitted :
        (c : ScheduleCandidate)
        → newest (select (matches u) db.candidates) ≡ some c
        → IsSubmitted db0.next_id u.source c
    picked-IsSubmitted c q =
        let m = pick (select (matches u) db.candidates) c q in
        matches-IsSubmitted g c (of_select (matches u) db.candidates m)
          (Member-All _ m (select-All (matches u) db.candidates))

    -- An upsert for a source of which the old tables know nothing keeps to it, if it returns.
    pub upsert_schedule_candidate-IsGrown :
        Ensures (λ flags db'. IsGrown u.source db0 db') (upsert_schedule_candidate newest u db)
    unfolding upsert_schedule_candidate Ensures
    upsert_schedule_candidate-IsGrown = elim (Bool-cases (fits_integer u.row.session_number)) [
      | inr n ↦ rw n tt
      | inl n ↦ elim (Bool-cases (columns_fit u)) [
        | inl fit ↦
            rw n
              (found-IsGrown (newest (select (matches u) db.candidates)) g picked-IsSubmitted fit)
        | inr m ↦
            rw (n, found_misfit db (newest (select (matches u) db.candidates)) picked-IsSubmitted m)
              tt
      ]
    ]

    pub upsert_schedule_candidate_misfit :
        row_fits u ≡ false → upsert_schedule_candidate newest u db ≡ err data_error
    unfolding upsert_schedule_candidate
    upsert_schedule_candidate_misfit h = elim (Bool-cases (fits_integer u.row.session_number)) [
      | inr n ↦ rw n refl
      | inl n ↦
          let m : columns_fit u ≡ false = rw n at h in
          rw n (found_misfit db (newest (select (matches u) db.candidates)) picked-IsSubmitted m)
    ]
