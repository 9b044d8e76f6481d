-- ===== src/Schedules/Candidates/Carried.antt =====
-- Which candidate carries an extracted row, and that the rows which schedules/candidates.py adds and
-- changes do.
use uk_jamaat_directory.Prelude.{
  ℕ, ◌≡◌, refl, ap, ◌==◌, nat_eq, string_eq, option_eq, Bool, true, false, ◌&&◌, &&-eq-true, beq-eq,
  ◌||◌, Option, none, some, arith, beq_refl, if◌then◌else◌,
}
use uk_jamaat_directory.Prelude.Int.{int_eq}
use uk_jamaat_directory.Domain.{
  CandidateStatus, CandidateStatus-discrete, candidate_status_eq, prayer_eq,
}
use uk_jamaat_directory.Models.Calendar.{Time, micros, time_option_same}
use uk_jamaat_directory.Models.Rows.{Uuid, ScheduleCandidate}
use uk_jamaat_directory.Models.Columns.{fits_integer}
use uk_jamaat_directory.Schedules.Prefetch.{is_active}
use uk_jamaat_directory.Schedules.Candidates.{
  Upsert, is_for, matches, is_unchanged, superseded, updated, new_candidate, columns_fit,
}

time_option_same_refl : (t : Option Time) → time_option_same t t ≡ true
time_option_same_refl none = refl
time_option_same_refl (some t) = beq_refl (micros t)

-- A time of day to the microsecond, with or without a zone.
abbrev pub at_micros : Option Time → Option ℕ
at_micros none = none
at_micros (some t) = some (micros t)

same-at_micros : (s t : Option Time) → time_option_same s t ≡ true → at_micros s ≡ at_micros t
same-at_micros none none h = refl
same-at_micros none (some t) h = cc
same-at_micros (some s) none h = cc
same-at_micros (some s) (some t) h = ap some (beq-eq h)

at_micros-same : (s t : Option Time) → at_micros s ≡ at_micros t → time_option_same s t ≡ true
at_micros-same none none h = refl
at_micros-same none (some t) h = cc
at_micros-same (some s) none h = cc
at_micros-same (some s) (some t) h = let q : micros s ≡ micros t = cc in rw q (beq_refl (micros t))

demoted_active :
    (s : CandidateStatus)
    → (s == CandidateStatus.pending || s == CandidateStatus.approved) ≡ true
    → let s' = if s == CandidateStatus.approved then CandidateStatus.pending else s in
      (s' == CandidateStatus.pending || s' == CandidateStatus.approved) ≡ true
unfolding CandidateStatus-discrete
demoted_active CandidateStatus.pending h = refl
demoted_active CandidateStatus.approved h = refl
demoted_active CandidateStatus.rejected h = cc
demoted_active CandidateStatus.superseded h = cc

module _ (u : Upsert) where
  pub new_candidate-is_for : (id : Uuid) → is_for u (new_candidate u id) ≡ true
  unfolding is_for new_candidate
  new_candidate-is_for id = rw (
    beq_refl u.mosque.id,
    beq_refl u.source.id,
    beq_refl u.row.date,
    beq_refl u.row.prayer,
    beq_refl u.row.session_number,
  )

  pub new_candidate-matches : (id : Uuid) → matches u (new_candidate u id) ≡ true
  unfolding matches CandidateStatus-discrete new_candidate
  new_candidate-matches id = rw (new_candidate-is_for id)

  pub new_candidate-is_unchanged : (id : Uuid) → is_unchanged u (new_candidate u id) ≡ true
  unfolding is_unchanged new_candidate
  new_candidate-is_unchanged id = rw (
    time_option_same_refl u.start_time,
    beq_refl u.row.session_label,
    beq_refl u.row.timezone,
    beq_refl u.extraction_run_id,
    beq_refl (micros u.jamaat_time),
  )

  pub updated-is_for : (c : ScheduleCandidate) → is_for u (updated u c) ≡ is_for u c
  unfolding is_for updated
  updated-is_for c = refl

  pub updated-matches :
      (c : ScheduleCandidate) → matches u c ≡ true → matches u (updated u c) ≡ true
  unfolding matches updated
  updated-matches c h =
      let both = &&-eq-true (is_for u c) (is_active c) h in
      rw (updated-is_for c, both.0) (demoted_active c.status both.1)

  pub updated-is_unchanged : (c : ScheduleCandidate) → is_unchanged u (updated u c) ≡ true
  unfolding is_unchanged updated
  updated-is_unchanged c = rw (
    time_option_same_refl u.start_time,
    beq_refl u.row.session_label,
    beq_refl u.row.timezone,
    beq_refl u.extraction_run_id,
    beq_refl (micros u.jamaat_time),
  )

  pub superseded-is_for : (c : ScheduleCandidate) → is_for u (superseded c) ≡ is_for u c
  unfolding is_for
  superseded-is_for c = refl

  pub superseded-matches : (c : ScheduleCandidate) → matches u (superseded c) ≡ false
  unfolding matches CandidateStatus-discrete
  superseded-matches c = ground arith

  -- A candidate that carries the extracted row and its run.
  pub record IsCarried (c : ScheduleCandidate) : Type 0 where
    pub start_time : at_micros c.start_time ≡ at_micros u.start_time
    pub jamaat_time : at_micros c.jamaat_time ≡ at_micros (some u.jamaat_time)
    pub session_label : c.session_label ≡ u.row.session_label
    pub timezone : c.timezone ≡ u.row.timezone
    pub run : c.extraction_run_id ≡ u.extraction_run_id

  pub is_unchanged-IsCarried : (c : ScheduleCandidate) → is_unchanged u c ≡ true → IsCarried c
  unfolding is_unchanged
  is_unchanged-IsCarried c h =
      let (s, h1) = &&-eq-true (time_option_same c.start_time u.start_time) _ h in
      let (j, h2) = &&-eq-true (time_option_same c.jamaat_time (some u.jamaat_time)) _ h1 in
      let (l, h3) = &&-eq-true (c.session_label == u.row.session_label) _ h2 in
      let (z, r) = &&-eq-true (c.timezone == u.row.timezone) _ h3 in
      record {
        start_time = same-at_micros c.start_time u.start_time s;
        jamaat_time = same-at_micros c.jamaat_time (some u.jamaat_time) j;
        session_label = beq-eq l;
        timezone = beq-eq z;
        run = beq-eq r;
      }

  pub IsCarried-is_unchanged : (c : ScheduleCandidate) → IsCarried c → is_unchanged u c ≡ true
  unfolding is_unchanged
  IsCarried-is_unchanged c k = rw (
    at_micros-same c.start_time u.start_time k.start_time,
    at_micros-same c.jamaat_time (some u.jamaat_time) k.jamaat_time,
    k.session_label,
    k.timezone,
    k.run,
    beq_refl u.row.session_label,
    beq_refl u.row.timezone,
    beq_refl u.extraction_run_id,
  )

  -- The row fits its columns, and its session number the query.
  abbrev pub row_fits : Bool
  row_fits = fits_integer u.row.session_number && columns_fit u
