-- ===== src/Schedules/Candidates/Single.antt =====
-- At most one active candidate for a session, and an upsert that may be repeated
-- (schedules/candidates.py).
use uk_jamaat_directory.Prelude.{
  ◌≤◌, ◌≡◌, refl, sym, ap, subst, ◌∙◌, ◌==◌, nat_eq, string_eq, option_eq, Bool, true, false, not,
  &&-eq-true, Option, none, some, List, [], ◌∷◌, select, length, update_where, arith, Bool-cases,
  inl, inr, ◌⊎◌, Member, here, append-nil, select-All, if◌then◌else◌,
}
use uk_jamaat_directory.Prelude.Dict.{Distinct}
use uk_jamaat_directory.Prelude.Tables.{
  Distinct-Split, select-append, of_select, select-put_one, select-put_other,
}
use uk_jamaat_directory.Prelude.Int.{int_eq}
use uk_jamaat_directory.Domain.{candidate_status_eq, prayer_eq}
use uk_jamaat_directory.Models.Rows.{Uuid, ScheduleCandidate}
use uk_jamaat_directory.Models.Session.{Db, ok, err, data_error}
use uk_jamaat_directory.Models.Columns.{fits_integer}
use uk_jamaat_directory.Schedules.Prefetch.{is_active}
use uk_jamaat_directory.Schedules.Approval.{save_candidate}
use uk_jamaat_directory.Schedules.Candidates.{
  Upsert, is_for, matches, is_unchanged, superseded, updated, new_candidate, add_candidate,
  columns_fit, upsert_found, upsert_schedule_candidate,
}
use uk_jamaat_directory.Schedules.Candidates.Carried.{
  new_candidate-is_for, new_candidate-matches, new_candidate-is_unchanged, updated-is_for,
  updated-matches, updated-is_unchanged, superseded-is_for, superseded-matches, IsCarried,
  is_unchanged-IsCarried, IsCarried-is_unchanged, row_fits,
}

-- What a query with LIMIT 1 returns: nothing of no rows, and of one row that row.
pub record IsFirst (newest : List ScheduleCandidate → Option ScheduleCandidate) : Type 0 where
  pub nothing : newest [] ≡ none
  pub only : (c : ScheduleCandidate) → newest (c ∷ []) ≡ some c

at_most_one {ℓ} : {A : Type ℓ} (xs : List A) → length xs ≤ 1 → (xs ≡ []) ⊎ ((x : A) × (xs ≡ x ∷ []))
at_most_one [] h = inl refl
at_most_one (x ∷ []) h = inr (x, refl)
at_most_one (x ∷ y ∷ xs) h = absurd (omega arith)

module _ (u : Upsert) where
  abbrev pub other_session : ScheduleCandidate → Bool
  other_session x = not (is_for u x)

  -- What an upsert makes of the tables: one active candidate for the session, which carries the
  -- extracted row, and the candidates for other sessions as they were.
  pub record IsSettled (db db' : Db) (c : ScheduleCandidate) : Type 0 where
    pub one : select (matches u) db'.candidates ≡ c ∷ []
    pub current : IsCarried u c
    pub others : select other_session db'.candidates ≡ select other_session db.candidates

  matches-is_for : (c : ScheduleCandidate) → matches u c ≡ true → is_for u c ≡ true
  unfolding matches
  matches-is_for c h = (&&-eq-true (is_for u c) (is_active c) h).0

  -- Another row in the place of the only active candidate for the session.
  swapped :
      (db : Db) (c c' : ScheduleCandidate)
      → Distinct (λ (x : ScheduleCandidate). x.id) db.candidates
      → select (matches u) db.candidates ≡ c ∷ []
      → c'.id ≡ c.id
      → is_for u c' ≡ is_for u c
      → (select (matches u) (save_candidate c' db).candidates
          ≡ (if matches u c' then c' ∷ [] else []))
        × (select other_session (save_candidate c' db).candidates
            ≡ select other_session db.candidates)
  swapped db c c' d one i f =
      let all_match = select-All (matches u) db.candidates in
      let mine : matches u c ≡ true = (rw one at all_match).0 in
      let m : Member c db.candidates = of_select (matches u) db.candidates (rw one (here refl)) in
      let s = Distinct-Split (λ (x : ScheduleCandidate). x.id) d m in
      let for_it = matches-is_for c mine in
      subst
        (λ (id : Uuid).
          let swap = update_where (λ (x : ScheduleCandidate). x.id == id) (λ _. c') db.candidates in
          (select (matches u) swap ≡ (if matches u c' then c' ∷ [] else []))
          × (select other_session swap ≡ select other_session db.candidates))
        (sym i)
        (
          select-put_one (λ (x : ScheduleCandidate). x.id) (matches u) s c' mine one,
          select-put_other (λ (x : ScheduleCandidate). x.id) other_session s c' (ap not for_it)
              (ap not (f ∙ for_it)),
        )

  -- A new candidate behind a table with no active one for the session.
  added :
      (db : Db)
      → select (matches u) db.candidates ≡ []
      → IsSettled db (add_candidate u db) (new_candidate u db.next_id)
  unfolding add_candidate
  added db gone =
      let new = new_candidate u db.next_id in
      record {
        one =
            select-append (matches u) db.candidates (new ∷ [])
            ∙ rw (gone, new_candidate-matches u db.next_id);
        current = is_unchanged-IsCarried u _ (new_candidate-is_unchanged u db.next_id);
        others =
            select-append other_session db.candidates (new ∷ [])
            ∙ rw (new_candidate-is_for u db.next_id) (append-nil _);
      }

  misfit_found :
      (o : Option ScheduleCandidate) (db : Db)
      → columns_fit u ≡ false
      → (upsert_found u o db ≡ err data_error) ⊎ (upsert_found u o db ≡ ok ((false, true), db))
  unfolding upsert_found
  misfit_found none db m = inl (rw m refl)
  misfit_found (some c) db m = elim (Bool-cases (is_unchanged u c)) [
    | inl same ↦ inr (rw same refl)
    | inr changed ↦ elim (Bool-cases (c.extraction_run_id == u.extraction_run_id)) [
      | inl same_run ↦ inl (rw (changed, same_run, m) refl)
      | inr other_run ↦ inl (rw (changed, other_run, m) refl)
    ]
  ]

  module _ (newest : List ScheduleCandidate → Option ScheduleCandidate)
      (first_row : IsFirst newest) where
    -- Once settled, an upsert skips.
    repeated :
        (db db' : Db) (c : ScheduleCandidate)
        → IsSettled db db' c
        → fits_integer u.row.session_number ≡ true
        → upsert_schedule_candidate newest u db' ≡ ok ((false, true), db')
    unfolding upsert_schedule_candidate upsert_found
    repeated db db' c s n =
        rw (n, s.one, first_row.only c, IsCarried-is_unchanged u c s.current) refl

    -- The two flags and the tables of an upsert of one row.
    settles :
        (db : Db) (c : ScheduleCandidate)
        → Distinct (λ (x : ScheduleCandidate). x.id) db.candidates
        → select (matches u) db.candidates ≡ c ∷ []
        → columns_fit u ≡ true
        → (flags : Bool × Bool) × (db' : Db) × (c' : ScheduleCandidate) × (upsert_found u
              (some c)
              db
            ≡ ok (flags, db'))
          × IsSettled db db' c'
    unfolding upsert_found updated
    settles db c d one fit = elim (Bool-cases (is_unchanged u c)) [
      | inl same ↦ (
        (false, true),
        db,
        c,
        rw same refl,
        record { one = one; current = is_unchanged-IsCarried u c same; others = refl },
      )
      | inr changed ↦ elim (Bool-cases (c.extraction_run_id == u.extraction_run_id)) [
        | inr other_run ↦
            let s = swapped db c (superseded c) d one refl (superseded-is_for u c) in
            let gone = s.0 ∙ (rw (superseded-matches u c) refl) in
            let a = added (save_candidate (superseded c) db) gone in
            (
              (true, false),
              add_candidate u (save_candidate (superseded c) db),
              new_candidate u db.next_id,
              rw (changed, other_run, fit) refl,
              record { one = a.one; current = a.current; others = a.others ∙ s.1 },
            )
        | inl same_run ↦
            let s = swapped db c (updated u c) d one refl (updated-is_for u c) in
            let mine = (rw one at (select-All (matches u) db.candidates)).0 in
            (
              (true, false),
              save_candidate (updated u c) db,
              updated u c,
              rw (changed, same_run, fit) refl,
              record {
                one = s.0 ∙ (rw (updated-matches u c mine) refl);
                current = is_unchanged-IsCarried u _ (updated-is_unchanged u c);
                others = s.1;
              },
            )
      ]
    ]

    -- An upsert of a row that does not fit.
    misfits :
        (db : Db)
        → row_fits u ≡ false
        → (upsert_schedule_candidate newest u db ≡ err data_error)
          ⊎ (upsert_schedule_candidate newest u db ≡ ok ((false, true), db))
    unfolding upsert_schedule_candidate
    misfits db h = elim (Bool-cases (fits_integer u.row.session_number)) [
      | inr n ↦ inl (rw n refl)
      | inl n ↦
          let m : columns_fit u ≡ false = rw n at h in
          rw n (misfit_found (newest (select (matches u) db.candidates)) db m)
    ]

    -- Where a session has at most one active candidate, and ids are distinct: an upsert of a row
    -- that fits its columns returns; it leaves exactly one active candidate for the session, which
    -- carries the times, the label, the time zone and the run of the row, and the candidates for
    -- other sessions as they were; and the same upsert again changes nothing and reports the row as
    -- skipped. An upsert of a row that does not fit raises a DataError, or reports the row as
    -- skipped and changes nothing.
    pub upsert_schedule_candidate_settles :
        (db : Db)
        → Distinct (λ (x : ScheduleCandidate). x.id) db.candidates
        → length (select (matches u) db.candidates) ≤ 1
        → (row_fits u ≡ true
            → (flags : Bool × Bool) × (db' : Db) × (c : ScheduleCandidate)
              × (upsert_schedule_candidate newest u db ≡ ok (flags, db'))
              × IsSettled db db' c
              × (upsert_schedule_candidate newest u db' ≡ ok ((false, true), db')))
          × (row_fits u ≡ false
              → (upsert_schedule_candidate newest u db ≡ err data_error)
                ⊎ (upsert_schedule_candidate newest u db ≡ ok ((false, true), db)))
    unfolding upsert_schedule_candidate upsert_found
    upsert_schedule_candidate_settles db d few = (
      (λ fits.
          let (n, fit) = &&-eq-true (fits_integer u.row.session_number) (columns_fit u) fits in
          elim (at_most_one (select (matches u) db.candidates) few) [
            | inl gone ↦
                let s = added db gone in
                (
                  (true, false),
                  add_candidate u db,
                  new_candidate u db.next_id,
                  rw (n, gone, first_row.nothing, fit) refl,
                  s,
                  repeated db _ _ s n,
                )
            | inr (c, one) ↦
                let (flags, db', c', e, s) = settles db c d one fit in
                (flags, db', c', rw (n, one, first_row.only c) e, s, repeated db db' c' s n)
          ]),
      misfits db,
    )
