-- ===== src/Services/Contributions/Stored.antt =====
-- What becomes of the rows of a submitted schedule (services/contribution_intake.py): the candidates
-- that they leave, or the error that a row of them raises.
use uk_jamaat_directory.Prelude.{
  ◌+◌, ◌<◌, ◌≡◌, ◌≢◌, refl, ◌∙◌, ◌==◌, nat_eq, string_eq, option_eq, String, true, false, Option,
  none, some, List, [], ◌∷◌, select, all, length, All, All-map, arith,
}
use uk_jamaat_directory.Prelude.Dict.{Distinct}
use uk_jamaat_directory.Models.Calendar.{Instant}
use uk_jamaat_directory.Models.Rows.{Uuid, Mosque, MosqueSource, ScheduleCandidate}
use uk_jamaat_directory.Models.Session.{Db, ok, err, data_error, mosque_not_found, get_mosque, pure}
use uk_jamaat_directory.Models.Triples.{bind-ok, bind-err}
use uk_jamaat_directory.Schedules.Parse.{Unicode}
use uk_jamaat_directory.Schedules.Candidates.{Upsert, is_for, matches}
use uk_jamaat_directory.Schedules.Candidates.Carried.{row_fits}
use uk_jamaat_directory.Schedules.Candidates.Single.{IsFirst}
use uk_jamaat_directory.Services.Contributions.{
  MosqueScheduleSubmission, Counts, submission_evidence, submit_rows, no_rows, submit_schedule,
}
use uk_jamaat_directory.Services.Contributions.Rows.{IsPick, IsFresh, IsGrown}
use uk_jamaat_directory.Services.Contributions.Intake.{
  is_readable, counted, select_both, submitted_source, opened, opened_old, opened-IsGrown,
  unknown_mosque, known_mosque,
}
use uk_jamaat_directory.Services.Contributions.Covered.{
  readable_upserts, IsCovered, IsTidy, loop-Stores, loop_misfit,
}

none_selected :
    (v : Upsert) (cs : List ScheduleCandidate)
    → All (λ (c : ScheduleCandidate). c.source_id ≢ v.source.id) cs
    → select (matches v) cs ≡ []
unfolding matches is_for
none_selected v [] h = refl
none_selected v (c ∷ cs) h =
    let ne = h.0 in
    let no : (c.source_id == v.source.id) ≡ false = ground arith in
    let n : matches v c ≡ false = ground (arith, no) in rw n (none_selected v cs h.1)

module _ (newest : List ScheduleCandidate → Option ScheduleCandidate) (first_row : IsFirst newest)
    (pick : IsPick newest) (u : Unicode) (uuid_text : Uuid → String) (now : Instant)
    (mosque_id : Uuid) (payload : MosqueScheduleSubmission) (db : Db) where
  -- The source of the submission, and the tables with it.
  abbrev source : MosqueSource
  source = submitted_source newest pick u uuid_text now mosque_id payload db

  abbrev start : Db
  start = opened newest pick u uuid_text now mosque_id payload db

  -- The upserts of the readable rows of the submission.
  abbrev pub upserts : Mosque → List Upsert
  upserts mosque =
      readable_upserts u mosque source (submission_evidence uuid_text db.next_id) payload.timezone
        payload.schedules

  -- What a submission that returns makes of the tables: one source more, and behind the old
  -- candidates pending ones of that source, with exactly one active for each session of a readable
  -- row, which carries the last such row.
  pub record IsStored (mosque : Mosque) (n : Counts) (db' : Db) : Type 0 where
    pub accepted : n.accepted ≡ length (select (is_readable u payload.timezone) payload.schedules)
    pub every : n.accepted + n.rejected ≡ length payload.schedules
    pub grown : IsGrown source start db'
    pub covered : IsCovered (upserts mosque) db'.candidates

  module _ (fresh : IsFresh db)
      (distinct : Distinct (λ (c : ScheduleCandidate). c.id) db.candidates) where
    abbrev old :
        All
          (λ (c : ScheduleCandidate). (c.id < db.next_id + 1 + 1) × (c.source_id ≢ db.next_id + 1))
          db.candidates
    old = opened_old newest pick u uuid_text now mosque_id payload db fresh

    start-IsTidy :
        (mosque : Mosque)
        → IsTidy newest first_row pick u mosque source
            (submission_evidence uuid_text db.next_id)
            start
            old
            start
    start-IsTidy mosque = record {
      grown = opened-IsGrown newest pick u uuid_text now mosque_id payload db fresh;
      numbered = record { distinct = distinct; given = All-map _ _ db.candidates (λ c h. h.0) old };
      few = λ v ours.
          let gone =
            none_selected v db.candidates
              (All-map _ _ db.candidates (λ c h q. h.1 (q ∙ ours.1)) old) in
          rw gone (omega arith);
    }

    -- A submission of a schedule for a known mosque returns if and only if the readable rows fit
    -- their columns, and raises a DataError otherwise. If it returns, it counts the rows that can be
    -- read as accepted and the others as rejected, which makes every row; it adds one source, and
    -- candidates of that source behind the others, all pending; each session that a readable row is
    -- for has exactly one active candidate, with the times, the label and the time zone of the last
    -- such row; and nothing else in the tables changes. For an unknown mosque it raises.
    pub submit_schedule_outcome :
        ((mosque : Mosque)
          → get_mosque mosque_id db ≡ some mosque
          → (all row_fits (upserts mosque) ≡ true
              → (n : Counts) × (db' : Db) × (submit_schedule newest u uuid_text now mosque_id
                    payload db
                  ≡ ok ((db.next_id, n), db'))
                × IsStored mosque n db')
            × (all row_fits (upserts mosque) ≡ false
                → submit_schedule newest u uuid_text now mosque_id payload db ≡ err data_error))
        × (get_mosque mosque_id db ≡ none
            → submit_schedule newest u uuid_text now mosque_id payload db
              ≡ err (mosque_not_found mosque_id))
    submit_schedule_outcome = (
      (λ mosque found.
          let evidence = submission_evidence uuid_text db.next_id in
          let rows = payload.schedules in
          let known = known_mosque newest pick u uuid_text now mosque_id payload db mosque found in
          let run = submit_rows newest u mosque source evidence payload.timezone rows no_rows in
          (
            (λ fits.
                let (db', s) =
                  loop-Stores newest first_row pick u mosque source evidence start old
                    payload.timezone rows no_rows start (start-IsTidy mosque) fits in
                (
                  counted u payload.timezone rows no_rows,
                  db',
                  known ∙ bind-ok run (λ (n : Counts). pure (db.next_id, n)) start s.returned refl,
                  record {
                    accepted = omega arith;
                    every = omega (arith, select_both (is_readable u payload.timezone) rows);
                    grown = s.tidy.grown;
                    covered = s.covered;
                  },
                )),
            (λ misfit.
                known
                ∙ bind-err run (λ (n : Counts). pure (db.next_id, n)) start
                    (loop_misfit newest first_row pick u mosque source evidence start old
                      payload.timezone rows no_rows start (start-IsTidy mosque) misfit)),
          )),
      unknown_mosque newest pick u uuid_text now mosque_id payload db,
    )
