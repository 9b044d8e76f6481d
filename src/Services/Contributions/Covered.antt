-- ===== src/Services/Contributions/Covered.antt =====
-- The loop over the rows of a submitted schedule (services/contribution_intake.py): every session of a
-- row gets its candidate, or a row that does not fit raises.
use uk_jamaat_directory.Prelude.{
  suc, ◌<◌, ◌≤◌, ◌≡◌, ◌≢◌, refl, ap, subst, ◌∙◌, nat_eq, string_eq, option_eq, String, Bool, true,
  false, ◌&&◌, ◌||◌, &&-eq-true, Option, List, [], ◌∷◌, select, any, all, length, All, arith,
  Bool-cases, inl, inr, if◌then◌else◌,
}
use uk_jamaat_directory.Models.Calendar.{Time}
use uk_jamaat_directory.Models.Json.{Object}
use uk_jamaat_directory.Models.Rows.{Mosque, MosqueSource, ScheduleCandidate}
use uk_jamaat_directory.Models.Session.{
  Db, Result, ok, err, value_error, integrity_error, data_error, storage_error, network_error,
  mosque_not_found,
}
use uk_jamaat_directory.Models.Triples.{Ensures, bind-ok, bind-err}
use uk_jamaat_directory.Schedules.Types.{ScheduleCandidateInput}
use uk_jamaat_directory.Schedules.Parse.{Unicode, parse_schedule_row}
use uk_jamaat_directory.Schedules.Parse.Errors.{IsValueResult, parse_schedule_row-IsValueResult}
use uk_jamaat_directory.Schedules.Candidates.{Upsert, matches, upsert_schedule_candidate}
use uk_jamaat_directory.Schedules.Candidates.Carried.{IsCarried, row_fits}
use uk_jamaat_directory.Schedules.Candidates.Single.{
  IsFirst, IsSettled, upsert_schedule_candidate_settles,
}
use uk_jamaat_directory.Services.Contributions.{
  ScheduleSubmissionRow, Counts, row_texts, row_upsert, submit_parsed, submit_rows,
}
use uk_jamaat_directory.Services.Contributions.Rows.{
  IsPick, IsGrown, upsert_schedule_candidate-IsGrown, upsert_schedule_candidate_misfit,
}
use uk_jamaat_directory.Services.Contributions.Tidy.{
  IsNumbered, upsert_schedule_candidate-IsNumbered, same_session, settled_other, settled_few,
}
use uk_jamaat_directory.Services.Contributions.Intake.{
  is_ok, is_readable, counted, counts_eq, counted_cons,
}

module _ (u : Unicode) (mosque : Mosque) (source : MosqueSource) (evidence : Object) where
  abbrev upserts_then :
      Result (ScheduleCandidateInput × Time × Option Time) → List Upsert → List Upsert
  upserts_then (ok parsed) rest = row_upsert mosque source evidence parsed ∷ rest
  upserts_then (err e) rest = rest

  -- The upserts of the rows that can be read.
  abbrev pub readable_upserts : String → List ScheduleSubmissionRow → List Upsert
  readable_upserts timezone [] = []
  readable_upserts timezone (row ∷ rows) =
      upserts_then (parse_schedule_row u (row_texts timezone row)) (readable_upserts timezone rows)

-- The last of the rows for a session has one active candidate, which carries it.
abbrev pub IsCovered : List Upsert → List ScheduleCandidate → Type 0
IsCovered [] cs = Unit
IsCovered (up ∷ ups) cs =
    (any (same_session up) ups ≡ false
      → (c : ScheduleCandidate) × (select (matches up) cs ≡ c ∷ []) × IsCarried up c)
    × IsCovered ups cs

module _ (newest : List ScheduleCandidate → Option ScheduleCandidate) (first_row : IsFirst newest)
    (pick : IsPick newest) (u : Unicode) (mosque : Mosque) (source : MosqueSource)
    (evidence : Object) (db0 : Db)
    (old : All
      (λ (c : ScheduleCandidate). (c.id < db0.next_id) × (c.source_id ≢ source.id))
      db0.candidates) where
  -- An upsert for the mosque and the source of the submission.
  abbrev IsOurs : Upsert → Type 0
  IsOurs v = (v.mosque.id ≡ mosque.id) × (v.source.id ≡ source.id)

  pub record IsTidy (db : Db) : Type 0 where
    pub grown : IsGrown source db0 db
    pub numbered : IsNumbered db
    pub few : (v : Upsert) → IsOurs v → length (select (matches v) db.candidates) ≤ 1

  abbrev upsert_of : ScheduleCandidateInput × Time × Option Time → Upsert
  upsert_of parsed = row_upsert mosque source evidence parsed

  upsert-IsTidy :
      (parsed : ScheduleCandidateInput × Time × Option Time) (db : Db)
      → IsTidy db
      → row_fits (upsert_of parsed) ≡ true
      → (flags : Bool × Bool) × (db' : Db) × (c : ScheduleCandidate) × (upsert_schedule_candidate
            newest
            (upsert_of parsed)
            db
          ≡ ok (flags, db'))
        × IsSettled (upsert_of parsed) db db' c
        × IsTidy db'
  unfolding Ensures
  upsert-IsTidy parsed db t fit =
      let up = upsert_of parsed in
      let (flags, db', c, e, s, _) =
        (upsert_schedule_candidate_settles up newest first_row db t.numbered.distinct
            (t.few up (refl, refl))).0
          fit in
      let g =
        subst (Ensures (λ (f : Bool × Bool) (d : Db). IsGrown source db0 d)) e
          (upsert_schedule_candidate-IsGrown up db0 old refl newest pick t.grown) in
      let n =
        subst (Ensures (λ (f : Bool × Bool) (d : Db). IsNumbered d)) e
          (upsert_schedule_candidate-IsNumbered newest up db t.numbered) in
      (
        flags,
        db',
        c,
        e,
        s,
        record {
          grown = g;
          numbered = n;
          few = λ v ours. settled_few up v ours.0 ours.1 db db' c s (t.few v ours);
        },
      )

  -- How the rows go, from tables that are tidy.
  pub record Stores (timezone : String) (rows : List ScheduleSubmissionRow) (n : Counts)
      (db db' : Db) : Type 0 where
    pub returned :
        submit_rows newest u mosque source evidence timezone rows n db
        ≡ ok (counted u timezone rows n, db')
    pub tidy : IsTidy db'
    pub covered : IsCovered (readable_upserts u mosque source evidence timezone rows) db'.candidates
    pub kept :
        (v : Upsert)
        → IsOurs v
        → any (same_session v) (readable_upserts u mosque source evidence timezone rows) ≡ false
        → select (matches v) db'.candidates ≡ select (matches v) db.candidates

  abbrev fits_all : String → List ScheduleSubmissionRow → Bool
  fits_all timezone rows = all row_fits (readable_upserts u mosque source evidence timezone rows)

  module _ (timezone : String) (row : ScheduleSubmissionRow) (rows : List ScheduleSubmissionRow)
      (n : Counts) (db : Db) (t : IsTidy db) where
    abbrev row_turn : Result (ScheduleCandidateInput × Time × Option Time) → Result (Counts × Db)
    row_turn parsed = submit_parsed newest u mosque source evidence parsed n db

    -- The counts after the row.
    counted_row :
        (b : Bool)
        → is_readable u timezone row ≡ b
        → counted u timezone rows (
            if b
            then record n { accepted = suc n.accepted }
            else record n { rejected = suc n.rejected })
          ≡ counted u timezone (row ∷ rows) n
    counted_row b e =
        subst
          (λ b.
            counted u timezone rows (
              if b
              then record n { accepted = suc n.accepted }
              else record n { rejected = suc n.rejected })
            ≡ counted u timezone (row ∷ rows) n)
          e (counted_cons u timezone row rows n)

    followed :
        {n1 : Counts} {db1 db' : Db}
        → row_turn (parse_schedule_row u (row_texts timezone row)) ≡ ok (n1, db1)
        → counted u timezone rows n1 ≡ counted u timezone (row ∷ rows) n
        → submit_rows newest u mosque source evidence timezone rows n1 db1
          ≡ ok (counted u timezone rows n1, db')
        → submit_rows newest u mosque source evidence timezone (row ∷ rows) n db
          ≡ ok (counted u timezone (row ∷ rows) n, db')
    unfolding submit_rows
    followed {n1} {db1} {db'} e c h =
        bind-ok
          (submit_parsed newest u mosque source evidence
            (parse_schedule_row u (row_texts timezone row)) n)
          (submit_rows newest u mosque source evidence timezone rows) db e h
        ∙ ap (λ m. ok (m, db')) c

    accepted_row :
        (parsed : ScheduleCandidateInput × Time × Option Time)
        → {flags : Bool × Bool} {db1 : Db}
        → upsert_schedule_candidate newest (upsert_of parsed) db ≡ ok (flags, db1)
        → row_turn (ok parsed) ≡ ok (record n { accepted = suc n.accepted }, db1)
    unfolding submit_parsed
    accepted_row parsed e =
        bind-ok (upsert_schedule_candidate newest (upsert_of parsed)) _ db e refl

    row-Stores :
        ((m : Counts) (d : Db)
          → IsTidy d
          → fits_all timezone rows ≡ true
          → (d' : Db) × Stores timezone rows m d d')
        → (parsed : Result (ScheduleCandidateInput × Time × Option Time))
        → parse_schedule_row u (row_texts timezone row) ≡ parsed
        → IsValueResult parsed
        → fits_all timezone (row ∷ rows) ≡ true
        → (db' : Db) × Stores timezone (row ∷ rows) n db db'
    unfolding submit_parsed
    row-Stores later (ok parsed) e v fits =
        let up = upsert_of parsed in
        let both : (row_fits up && fits_all timezone rows) ≡ true = rw e at fits in
        let (f, fs) = &&-eq-true (row_fits up) (fits_all timezone rows) both in
        let (flags, db1, c, q, s, t1) = upsert-IsTidy parsed db t f in
        let (db', r) = later (record n { accepted = suc n.accepted }) db1 t1 fs in
        (
          db',
          record {
            returned =
                followed (ap row_turn e ∙ accepted_row parsed q) (counted_row true (ap is_ok e))
                  r.returned;
            tidy = r.tidy;
            covered =
                rw e ((λ last. (c, r.kept up (refl, refl) last ∙ s.one, s.current)), r.covered);
            kept = λ w ours h.
                let apart : (same_session w up
                      || any (same_session w)
                          (readable_upserts u mosque source evidence timezone rows))
                    ≡ false =
                  rw e at h in
                r.kept w ours (ground (arith, apart))
                ∙ settled_other up w ours.0 ours.1 db db1 c s (ground (arith, apart));
          },
        )
    row-Stores later (err (value_error text)) e v fits =
        let (db', r) = later (record n { rejected = suc n.rejected }) db t (rw e at fits) in
        (
          db',
          record {
            returned = followed (ap row_turn e) (counted_row false (ap is_ok e)) r.returned;
            tidy = r.tidy;
            covered = rw e r.covered;
            kept = λ w ours h. r.kept w ours (rw e at h);
          },
        )
    row-Stores later (err integrity_error) e v fits = cc v.1
    row-Stores later (err data_error) e v fits = cc v.1
    row-Stores later (err storage_error) e v fits = cc v.1
    row-Stores later (err network_error) e v fits = cc v.1
    row-Stores later (err (mosque_not_found id)) e v fits = cc v.1

    raised :
        row_turn (parse_schedule_row u (row_texts timezone row)) ≡ err data_error
        → submit_rows newest u mosque source evidence timezone (row ∷ rows) n db ≡ err data_error
    unfolding submit_rows
    raised e =
        bind-err
          (submit_parsed newest u mosque source evidence
            (parse_schedule_row u (row_texts timezone row)) n)
          (submit_rows newest u mosque source evidence timezone rows) db e

    passed :
        {n1 : Counts} {db1 : Db}
        → row_turn (parse_schedule_row u (row_texts timezone row)) ≡ ok (n1, db1)
        → submit_rows newest u mosque source evidence timezone rows n1 db1 ≡ err data_error
        → submit_rows newest u mosque source evidence timezone (row ∷ rows) n db ≡ err data_error
    unfolding submit_rows
    passed e h =
        bind-ok
          (submit_parsed newest u mosque source evidence
            (parse_schedule_row u (row_texts timezone row)) n)
          (submit_rows newest u mosque source evidence timezone rows) db e h

    row_misfit :
        ((m : Counts) (d : Db)
          → IsTidy d
          → fits_all timezone rows ≡ false
          → submit_rows newest u mosque source evidence timezone rows m d ≡ err data_error)
        → (parsed : Result (ScheduleCandidateInput × Time × Option Time))
        → parse_schedule_row u (row_texts timezone row) ≡ parsed
        → IsValueResult parsed
        → fits_all timezone (row ∷ rows) ≡ false
        → submit_rows newest u mosque source evidence timezone (row ∷ rows) n db ≡ err data_error
    unfolding submit_parsed
    row_misfit later (ok parsed) e v misfit =
        let up = upsert_of parsed in
        let one : (row_fits up && fits_all timezone rows) ≡ false = rw e at misfit in
        elim (Bool-cases (row_fits up)) [
          | inl f ↦
              let (flags, db1, c, q, s, t1) = upsert-IsTidy parsed db t f in
              passed (ap row_turn e ∙ accepted_row parsed q)
                (later (record n { accepted = suc n.accepted }) db1 t1 (rw f at one))
          | inr m ↦ raised (
              ap row_turn e
              ∙ bind-err (upsert_schedule_candidate newest up) _ db
                  (upsert_schedule_candidate_misfit up db0 old refl newest pick t.grown m))
        ]
    row_misfit later (err (value_error text)) e v misfit =
        passed (ap row_turn e)
          (later (record n { rejected = suc n.rejected }) db t (rw e at misfit))
    row_misfit later (err integrity_error) e v misfit = cc v.1
    row_misfit later (err data_error) e v misfit = cc v.1
    row_misfit later (err storage_error) e v misfit = cc v.1
    row_misfit later (err network_error) e v misfit = cc v.1
    row_misfit later (err (mosque_not_found id)) e v misfit = cc v.1

  pub loop-Stores :
      (timezone : String) (rows : List ScheduleSubmissionRow) (n : Counts) (db : Db)
      → IsTidy db
      → fits_all timezone rows ≡ true
      → (db' : Db) × Stores timezone rows n db db'
  unfolding submit_rows
  loop-Stores timezone [] n db t fits = (
    db,
    record {
      returned = ap (λ m. ok (m, db)) (counts_eq (omega arith) (omega arith));
      tidy = t;
      covered = tt;
      kept = λ w ours h. refl;
    },
  )
  loop-Stores timezone (row ∷ rows) n db t fits =
      row-Stores timezone row rows n db t (loop-Stores timezone rows)
        (parse_schedule_row u (row_texts timezone row)) refl
        (parse_schedule_row-IsValueResult u (row_texts timezone row)) fits

  pub loop_misfit :
      (timezone : String) (rows : List ScheduleSubmissionRow) (n : Counts) (db : Db)
      → IsTidy db
      → fits_all timezone rows ≡ false
      → submit_rows newest u mosque source evidence timezone rows n db ≡ err data_error
  loop_misfit timezone [] n db t misfit = cc
  loop_misfit timezone (row ∷ rows) n db t misfit =
      row_misfit timezone row rows n db t (loop_misfit timezone rows)
        (parse_schedule_row u (row_texts timezone row)) refl
        (parse_schedule_row-IsValueResult u (row_texts timezone row)) misfit
