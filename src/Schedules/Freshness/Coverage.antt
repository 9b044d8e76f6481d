-- ===== src/Schedules/Freshness/Coverage.antt =====
-- When a source counts as fresh: the classification of schedules/freshness.py against a statement
-- about each day of the window.
use uk_jamaat_directory.Prelude.{
  ℕ, zero, suc, ◌+◌, ◌-◌, ◌≤◌, ◌<◌, ◌≡◌, ◌≢◌, ◌↔◌, ◌⊎◌, inl, inr, refl, ◌==◌, nat_eq, Bool, true,
  Option, none, some, [], ◌∷◌, ◌++◌, all, arith, Bool-cases,
}
use uk_jamaat_directory.Domain.{
  FreshnessStatus, fresh, stale, missing_today, missing_next_7_days, source_failed, needs_review,
  FreshnessStatus-discrete, freshness_status_eq, Prayer,
}
use uk_jamaat_directory.Models.Calendar.{Date, Instant, days, weekday}
use uk_jamaat_directory.Schedules.Types.{Settings}
use uk_jamaat_directory.Schedules.Keys.{expected_prayers_for_date, daily_prayers}
use uk_jamaat_directory.Schedules.Freshness.{
  DayPrayers, has_prayer, day_complete, coverage_from, coverage_days_with_all_prayers,
  classify_source_freshness, classify_occurrence_freshness,
}

-- Every prayer of the day has an occurrence: the five daily ones, and jumuah on a Friday.
abbrev pub IsComplete : DayPrayers → Date → Type 0
IsComplete keys d =
    (p : Prayer) → (p ≢ Prayer.jumuah) ⊎ (weekday d ≡ 4) → has_prayer keys d p ≡ true

-- A test that holds of all the listed prayers holds of each prayer that belongs to the day.
all_daily :
    (f : Prayer → Bool) → all f daily_prayers ≡ true → (p : Prayer) → p ≢ Prayer.jumuah → f p ≡ true
all_daily f h Prayer.fajr n = ground arith
all_daily f h Prayer.dhuhr n = ground arith
all_daily f h Prayer.asr n = ground arith
all_daily f h Prayer.maghrib n = ground arith
all_daily f h Prayer.isha n = ground arith
all_daily f h Prayer.jumuah n = absurd (n refl)

all_friday :
    (f : Prayer → Bool)
    → all f (daily_prayers ++ Prayer.jumuah ∷ []) ≡ true
    → (p : Prayer) → f p ≡ true
all_friday f h Prayer.fajr = ground arith
all_friday f h Prayer.dhuhr = ground arith
all_friday f h Prayer.asr = ground arith
all_friday f h Prayer.maghrib = ground arith
all_friday f h Prayer.isha = ground arith
all_friday f h Prayer.jumuah = ground arith

daily_all :
    (f : Prayer → Bool)
    → ((p : Prayer) → p ≢ Prayer.jumuah → f p ≡ true)
    → all f daily_prayers ≡ true
daily_all f h = rw (
  h Prayer.fajr (λ e. cc),
  h Prayer.dhuhr (λ e. cc),
  h Prayer.asr (λ e. cc),
  h Prayer.maghrib (λ e. cc),
  h Prayer.isha (λ e. cc),
)

friday_all :
    (f : Prayer → Bool)
    → ((p : Prayer) → f p ≡ true)
    → all f (daily_prayers ++ Prayer.jumuah ∷ []) ≡ true
friday_all f h =
    rw (
      h Prayer.fajr,
      h Prayer.dhuhr,
      h Prayer.asr,
      h Prayer.maghrib,
      h Prayer.isha,
      h Prayer.jumuah,
    )

module _ (keys : DayPrayers) (d : Date) where
  day_complete-IsComplete : day_complete keys d ≡ true → IsComplete keys d
  unfolding day_complete expected_prayers_for_date
  day_complete-IsComplete h p side = elim (Bool-cases (weekday d == 4)) [
    | inl t ↦ all_friday (has_prayer keys d) (rw t at h) p
    | inr f ↦
        all_daily (has_prayer keys d) (rw f at h) p
          (elim side [ inl n ↦ n | inr e ↦ absurd (ground arith) ])
  ]

  IsComplete-day_complete : IsComplete keys d → day_complete keys d ≡ true
  unfolding day_complete expected_prayers_for_date
  IsComplete-day_complete c = elim (Bool-cases (weekday d == 4)) [
    | inl t ↦ rw t (friday_all (has_prayer keys d) (λ p. c p (inr (ground arith))))
    | inr f ↦ rw f (daily_all (has_prayer keys d) (λ p n. c p (inl n)))
  ]

-- The number of complete days among `n` days from `d` is `n` exactly if all are complete.
coverage_from-le : (keys : DayPrayers) (d : Date) (n : ℕ) → coverage_from keys d n ≤ n
unfolding coverage_from
coverage_from-le keys d zero = omega arith
coverage_from-le keys d (suc n) = ground (arith, coverage_from-le keys (d + 1) n)

coverage_from-all :
    (keys : DayPrayers) (d n : ℕ)
    → coverage_from keys d n ≡ n
    → (e : Date) → d ≤ e
    → e < d + n
    → day_complete keys e ≡ true
unfolding coverage_from
coverage_from-all keys d zero h e le lt = absurd (omega arith)
coverage_from-all keys d (suc n) h e le lt =
    let rest = coverage_from-le keys (d + 1) n in
    elim (Bool-cases (d == e)) [
      | inl t ↦
          let q : d ≡ e = ground arith in
          elim (Bool-cases (day_complete keys d)) [
            | inl c ↦ rw (← q) c
            | inr c ↦ absurd (ground arith)
          ]
      | inr f ↦ coverage_from-all keys (d + 1) n (ground arith) e (ground arith) (omega arith)
    ]

coverage_from-full :
    (keys : DayPrayers) (d n : ℕ)
    → ((e : Date) → d ≤ e → e < d + n → day_complete keys e ≡ true)
    → coverage_from keys d n ≡ n
unfolding coverage_from
coverage_from-full keys d zero h = refl
coverage_from-full keys d (suc n) h =
    rw (h d (omega arith) (omega arith)) (
      omega (arith, coverage_from-full keys (d + 1) n (λ e le lt. h e (omega arith) (omega arith))))

-- The conditions for a fresh source.
pub record IsCurrent (cfg : Settings) (now : Instant) (today : Date) (keys : DayPrayers)
    (last_success_at : Option Instant) (failures : ℕ) : Type 0 where
  pub few_failures : failures < 3
  pub refreshed :
      (at : Instant) → last_success_at ≡ some at → now ≤ at + days cfg.freshness_stale_days
  pub complete : (d : Date) → today ≤ d → d ≤ today + 7 → IsComplete keys d

module _ (cfg : Settings) (now : Instant) (today : Date) (keys : DayPrayers) (failures : ℕ) where
  coverage_eight :
      (coverage_days_with_all_prayers keys today (today + 7) ≡ coverage_from keys today 8)
  unfolding coverage_days_with_all_prayers
  coverage_eight = let e : today + 7 + 1 - today ≡ 8 = omega arith in rw e

  fresh_needs :
      (last : Option Instant)
      → (classify_source_freshness cfg now today keys last failures).0 ≡ fresh
      → IsCurrent cfg now today keys last failures
  unfolding classify_source_freshness
  fresh_needs last h =
      let full : coverage_from keys today 8 ≡ 8 =
        ground (arith, coverage_eight, coverage_from-le keys today 8) in
      record {
        few_failures = ground (arith, coverage_eight);
        refreshed = λ at e. ground (arith, coverage_eight);
        complete = λ d le lt.
            day_complete-IsComplete keys d (coverage_from-all keys today 8 full d le (omega arith));
      }

  fresh_from :
      (last : Option Instant)
      → IsCurrent cfg now today keys last failures
      → (classify_source_freshness cfg now today keys last failures).0 ≡ fresh
  unfolding classify_source_freshness
  fresh_from none c =
      let full =
        coverage_from-full keys today 8
          (λ d le lt. IsComplete-day_complete keys d (c.complete d le (omega arith))) in
      let here =
        IsComplete-day_complete keys today (c.complete today (omega arith) (omega arith)) in
      ground (arith, coverage_eight, c.few_failures)
  fresh_from (some at) c =
      let full =
        coverage_from-full keys today 8
          (λ d le lt. IsComplete-day_complete keys d (c.complete d le (omega arith))) in
      let here =
        IsComplete-day_complete keys today (c.complete today (omega arith) (omega arith)) in
      ground (arith, coverage_eight, c.few_failures, c.refreshed at refl)

  -- A source is classified as fresh exactly if it has failed fewer than three times in a row, its
  -- last success, if there is one, lies within the stale threshold, and each of the eight days from
  -- today has every prayer: the five daily ones, and jumuah if it is a Friday.
  pub classify_source_freshness-fresh :
      (last : Option Instant)
      → ((classify_source_freshness cfg now today keys last failures).0 ≡ fresh)
        ↔ IsCurrent cfg now today keys last failures
  classify_source_freshness-fresh last = (fresh_needs last, fresh_from last)

  -- Of a source with fewer than three failures in a row, the coverage that is stored is at most
  -- eight days, and it is all eight exactly if every day from today to a week ahead is complete.
  pub classify_source_freshness-coverage :
      (last : Option Instant)
      → failures < 3
      → let coverage = (classify_source_freshness cfg now today keys last failures).1 in
        (coverage ≤ 8)
        × ((coverage ≡ 8) ↔ ((d : Date) → today ≤ d → d ≤ today + 7 → IsComplete keys d))
  unfolding classify_source_freshness
  classify_source_freshness-coverage last few =
      let same : (classify_source_freshness cfg now today keys last failures).1
          ≡ coverage_from keys today 8 =
        ground (arith, coverage_eight) in
      rw same (
        coverage_from-le keys today 8,
        (
          (λ h d le lt.
              day_complete-IsComplete keys d (coverage_from-all keys today 8 h d le (omega arith))),
          (λ c.
              coverage_from-full keys today 8
                (λ d le lt. IsComplete-day_complete keys d (c d le (omega arith)))),
        ),
      )

-- The status that an occurrence takes over from its source is the source's own, whatever it is.
pub classify_occurrence_freshness_id :
    (status : FreshnessStatus) → classify_occurrence_freshness status ≡ status
unfolding classify_occurrence_freshness FreshnessStatus-discrete
classify_occurrence_freshness_id fresh = refl
classify_occurrence_freshness_id stale = refl
classify_occurrence_freshness_id missing_today = refl
classify_occurrence_freshness_id missing_next_7_days = refl
classify_occurrence_freshness_id source_failed = refl
classify_occurrence_freshness_id needs_review = refl
