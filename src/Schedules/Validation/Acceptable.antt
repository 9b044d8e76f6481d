-- ===== src/Schedules/Validation/Acceptable.antt =====
-- When a candidate has no validation error: an account of the checks of schedules/validation.py
-- that mentions no issue.
use uk_jamaat_directory.Prelude.{
  ◌+◌, ◌≤◌, String, ◌≡◌, ◌≢◌, ◌↔◌, refl, true, false, not, ◌&&◌, ◌||◌, Option, none, some, List, [],
  ◌∷◌, arith, nat_eq, any, any-append, contains, Bool-cases, inl, inr,
}
use uk_jamaat_directory.Prelude.Int.{below_one}
use uk_jamaat_directory.Domain.{ExtractionKind, Prayer, prayer_eq, extraction_kind_eq}
use uk_jamaat_directory.Models.Calendar.{Date, Time, World, weekday, micros}
use uk_jamaat_directory.Models.Rows.{Uuid, ScheduleCandidate}
use uk_jamaat_directory.Schedules.Types.{Settings, is_error, is_valid}
use uk_jamaat_directory.Schedules.Validation.{
  zone_name, identity_issues, date_issues, order_issues, dst_warnings, zone_issues,
  duplicate_issues, evidence_warnings, checks, validate_candidate,
}

pub record IsAcceptable (cfg : Settings) (w : World) (c : ScheduleCandidate)
    (duplicate_ids : List Uuid) : Type 0 where
  pub zone : w.known_zone (zone_name c) ≡ true
  pub linked : c.mosque_id ≢ none
  pub timed : c.jamaat_time ≢ none
  pub session : below_one c.session_number ≡ false
  pub not_past : w.today_in (zone_name c) ≤ c.date + cfg.schedule_date_past_days
  pub not_future : c.date ≤ w.today_in (zone_name c) + cfg.schedule_date_future_days
  pub friday : c.prayer ≡ Prayer.jumuah → weekday c.date ≡ 4
  pub ordered :
      (start jamaat : Time)
      → c.start_time ≡ some start
      → c.jamaat_time ≡ some jamaat
      → micros start ≤ micros jamaat
  pub alone : (other : Uuid) → contains other duplicate_ids ≡ true → other ≡ c.id

-- The clock changes of a zone raise warnings only.
dst_warnings_errors :
    (w : World) (d : Date) (t : Option Time) (zone field : String)
    → any is_error (dst_warnings w d t zone field) ≡ false
unfolding dst_warnings
dst_warnings_errors w d none zone field = refl
dst_warnings_errors w d (some t) zone field = ground arith

order_issues_errors :
    (start jamaat : Option Time)
    → (any is_error (order_issues start jamaat) ≡ false)
      ↔ ((s j : Time) → start ≡ some s → jamaat ≡ some j → micros s ≤ micros j)
unfolding order_issues
order_issues_errors none jamaat = (λ _ s j p q. cc, λ _. refl)
order_issues_errors (some s) none = (λ _ s' j p q. cc, λ _. refl)
order_issues_errors (some s) (some j) = (
  λ h s' j' p q. ground arith,
  λ h. let k : micros s ≤ micros j = h s j refl refl in ground arith,
)

duplicate_issues_errors :
    (id : Uuid) (duplicate_ids : List Uuid)
    → (any is_error (duplicate_issues id duplicate_ids) ≡ false)
      ↔ ((other : Uuid) → contains other duplicate_ids ≡ true → other ≡ id)
unfolding duplicate_issues
duplicate_issues_errors id [] = (λ _ o h. cc, λ _. refl)
duplicate_issues_errors id (x ∷ xs) = (
  (λ h o m. ground (arith, (duplicate_issues_errors id xs).0 (ground arith) o)),
  (λ h.
      let k : x ≡ id = h x (ground arith) in
      let r : any is_error (duplicate_issues id xs) ≡ false =
        (duplicate_issues_errors id xs).1 (λ o m. h o (ground arith)) in
      ground arith),
)

module _ (cfg : Settings) (w : World) (c : ScheduleCandidate) where
  identity_issues_errors :
      (any is_error (identity_issues c) ≡ false)
      ↔ ((c.mosque_id ≢ none) × (c.jamaat_time ≢ none) × (below_one c.session_number ≡ false))
  unfolding identity_issues
  identity_issues_errors = ground arith

  date_issues_errors : (any is_error (date_issues cfg w c) ≡ false) ↔ (
      (w.today_in (zone_name c) ≤ c.date + cfg.schedule_date_past_days)
      × (c.date ≤ w.today_in (zone_name c) + cfg.schedule_date_future_days)
      × (c.prayer ≡ Prayer.jumuah → weekday c.date ≡ 4))
  unfolding date_issues
  date_issues_errors = ground (arith, prayer_eq.beq_iff c.prayer Prayer.jumuah)

  zone_issues_errors : any is_error (zone_issues cfg w c) ≡ (
      any is_error (date_issues cfg w c) || any is_error (order_issues c.start_time c.jamaat_time))
  unfolding zone_issues
  zone_issues_errors = simp (any-append, dst_warnings_errors) (ground arith)

  evidence_warnings_errors : any is_error (evidence_warnings c) ≡ false
  unfolding evidence_warnings
  evidence_warnings_errors = ground arith

module _ (cfg : Settings) (w : World) (c : ScheduleCandidate) (duplicate_ids : List Uuid) where
  checks_errors : any is_error (checks cfg w c duplicate_ids) ≡ (
      not (w.known_zone (zone_name c))
      || (any is_error (identity_issues c)
          || ((w.known_zone (zone_name c) && any is_error (zone_issues cfg w c))
              || any is_error (duplicate_issues c.id duplicate_ids))))
  unfolding checks
  checks_errors =
      simp (any-append, evidence_warnings_errors)
        (elim (Bool-cases (w.known_zone (zone_name c))) [
          | inl k ↦ rw k (ground arith)
          | inr k ↦ rw k (ground arith)
        ])

  validate_candidate_errors :
      (kind : Option ExtractionKind)
      → any is_error (validate_candidate cfg w c duplicate_ids kind)
        ≡ any is_error (checks cfg w c duplicate_ids)
  unfolding validate_candidate
  validate_candidate_errors kind = rw any-append (ground arith)

  accepted :
      any is_error (checks cfg w c duplicate_ids) ≡ false → IsAcceptable cfg w c duplicate_ids
  accepted h =
      let k : any is_error (checks cfg w c duplicate_ids) ≡ false = h in
      let e = checks_errors in
      let z = zone_issues_errors cfg w c in
      let i = (identity_issues_errors cfg w c).0 (ground arith) in
      let d = (date_issues_errors cfg w c).0 (ground arith) in
      record {
        zone = ground arith;
        linked = i.0;
        timed = i.1;
        session = i.2;
        not_past = d.0;
        not_future = d.1;
        friday = d.2;
        ordered = (order_issues_errors c.start_time c.jamaat_time).0 (ground arith);
        alone = (duplicate_issues_errors c.id duplicate_ids).0 (ground arith);
      }

  refused : IsAcceptable cfg w c duplicate_ids → any is_error (checks cfg w c duplicate_ids) ≡ false
  refused a =
      let e = checks_errors in
      let z = zone_issues_errors cfg w c in
      let i = (identity_issues_errors cfg w c).1 (a.linked, a.timed, a.session) in
      let d = (date_issues_errors cfg w c).1 (a.not_past, a.not_future, a.friday) in
      let o = (order_issues_errors c.start_time c.jamaat_time).1 a.ordered in
      let u = (duplicate_issues_errors c.id duplicate_ids).1 a.alone in ground arith

  -- A candidate has no validation error, whatever extracted it, exactly when its zone is known, it
  -- is linked to a mosque, it has a jamaat time and a session number of 1 or more, its date lies in
  -- the window around the zone's today and on a Friday if it is jumuah, its jamaat is not before its
  -- start, and its duplicates hold no other candidate.
  pub validate_candidate-IsAcceptable :
      (kind : Option ExtractionKind)
      → (is_valid (validate_candidate cfg w c duplicate_ids kind) ≡ true)
        ↔ IsAcceptable cfg w c duplicate_ids
  validate_candidate-IsAcceptable kind =
      rw (validate_candidate_errors kind)
        (λ h. accepted (ground arith), λ a. let r = refused a in ground arith)
