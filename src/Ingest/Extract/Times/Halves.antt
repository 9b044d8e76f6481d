-- ===== src/Ingest/Extract/Times/Halves.antt =====
-- What the inferred half of the day is (ingest/extract/helpers/times.py).
use uk_jamaat_directory.Prelude.{
  ℕ, ◌+◌, ◌≤◌, ◌<◌, ◌≡◌, refl, sym, subst, Bool, true, false, ◌&&◌, ◌||◌, ◌⊎◌, inl, inr, Option,
  none, some, [], ◌∷◌, ltb, leb, arith, Bool-cases,
}
use uk_jamaat_directory.Models.Calendar.{Time}
use uk_jamaat_directory.Schedules.Parse.{Text, Unicode, strip}
use uk_jamaat_directory.Schedules.Parse.Times.{IsTimeOfDay}
use uk_jamaat_directory.Ingest.Extract.Times.{
  Half, clock, plausible_windows, in_window, window_of, infer_within, infer_if, infer_ampm,
  shift_hour, time_of_groups, parse_cleaned, parse_time_loose, infer_parsed, coerce_time,
}

bool_clash : {b : Bool} → b ≡ true → b ≡ false → ⊥
bool_clash t f = cc

or_false : {a b : Bool} → (a || b) ≡ false → (a ≡ false) × (b ≡ false)
or_false {a} {b} h = (ground arith, ground arith)

not_less : (n k : ℕ) → ltb n k ≡ false → k ≤ n
not_less n k h = ground arith

-- The other reading of a value before noon.
abbrev pub later_half : Time → Time
later_half value = clock (value.hour + 12) value.minute

-- What the inference makes of a value.
pub record IsReading (value : Time) (window : Time × Time) (result : Time) : Type 0 where
  pub reading : (result ≡ value) ⊎ ((value.hour < 12) × (result ≡ later_half value))
  pub plausible :
      (in_window value window ≡ true)
        ⊎ ((value.hour < 12) × (in_window (later_half value) window ≡ true))
      → in_window result window ≡ true
  pub kept : in_window value window ≡ true → result ≡ value
  pub stable : infer_within result window ≡ result

in_window_kept :
    (value : Time) (window : Time × Time)
    → in_window value window ≡ true
    → infer_within value window ≡ value
unfolding infer_within
in_window_kept value window t = rw t refl

infer_within-later :
    (value : Time) (window : Time × Time)
    → in_window value window ≡ false
    → (ltb value.hour 12 && in_window (later_half value) window) ≡ true
    → infer_within value window ≡ later_half value
unfolding infer_within
infer_within-later value window f s = rw (f, s) refl

infer_within-neither :
    (value : Time) (window : Time × Time)
    → in_window value window ≡ false
    → (ltb value.hour 12 && in_window (later_half value) window) ≡ false
    → infer_within value window ≡ value
unfolding infer_within
infer_within-neither value window f n = rw (f, n) refl

early : (value : Time) (b : Bool) → (ltb value.hour 12 && b) ≡ true → (value.hour < 12) × (b ≡ true)
early value b h = (ground arith, ground arith)

neither :
    (value : Time) (b : Bool) → (ltb value.hour 12 && b) ≡ false → value.hour < 12 → b ≡ true → ⊥
neither value b h l t = ground arith

infer_within-IsReading :
    (value : Time) (window : Time × Time) → IsReading value window (infer_within value window)
infer_within-IsReading value window = elim (Bool-cases (in_window value window)) [
  | inl t ↦
      let e = in_window_kept value window t in
      subst (IsReading value window) (sym e)
        (record { reading = inl refl; plausible = λ _. t; kept = λ _. refl; stable = e })
  | inr f ↦ elim (Bool-cases (ltb value.hour 12 && in_window (later_half value) window)) [
    | inl s ↦
        let both = early value (in_window (later_half value) window) s in
        subst (IsReading value window) (sym (infer_within-later value window f s)) (record {
          reading = inr (both.0, refl);
          plausible = λ _. both.1;
          kept = λ t. absurd (bool_clash t f);
          stable = in_window_kept (later_half value) window both.1;
        })
    | inr n ↦
        let e = infer_within-neither value window f n in
        subst (IsReading value window) (sym e) (record {
          reading = inl refl;
          plausible = λ h. absurd (elim h [
            | inl t ↦ bool_clash t f
            | inr later ↦ neither value (in_window (later_half value) window) n later.0 later.1
          ]);
          kept = λ _. refl;
          stable = e;
        })
  ]
]

module _ (u : Unicode) (prayer : Text) where
  -- The window of a prayer's name.
  abbrev pub window_for : Option (Time × Time)
  window_for = window_of (u.lower prayer) plausible_windows

  infer_ampm-stable :
      (result : Time) (window : Time × Time)
      → window_for ≡ some window
      → infer_within result window ≡ result
      → infer_ampm u result (some prayer) ≡ result
  unfolding infer_ampm
  infer_ampm-stable result window found stable = elim (Bool-cases (leb 13 result.hour)) [
    | inl t ↦ rw t refl
    | inr f ↦ rw (f, found) stable
  ]

  infer_ampm-reads :
      (value : Time) (window : Time × Time)
      → value.hour ≤ 12
      → window_for ≡ some window
      → IsReading value window (infer_ampm u value (some prayer))
  unfolding infer_ampm
  infer_ampm-reads value window h found =
      let before : leb 13 value.hour ≡ false = ground arith in
      rw (before, found) (infer_within-IsReading value window)

  -- A value before 13:00, read for a prayer that has a window, is itself or, with its minutes,
  -- twelve hours later; it is itself where that lies in the window; it lies in the window if either
  -- reading does; and to infer again changes nothing.
  pub infer_ampm-IsReading :
      (value : Time) (window : Time × Time)
      → value.hour ≤ 12
      → window_for ≡ some window
      → let result = infer_ampm u value (some prayer) in
        IsReading value window result × (infer_ampm u result (some prayer) ≡ result)
  infer_ampm-IsReading value window h found =
      let r = infer_ampm-reads value window h found in
      (r, infer_ampm-stable (infer_ampm u value (some prayer)) window found r.stable)

module _ (u : Unicode) where
  abbrev pub ParsedTime : Option Time → Type 0
  ParsedTime none = Unit
  ParsedTime (some t) = IsTimeOfDay u t

  time_of_groups-ParsedTime :
      (groups : Option (ℕ × ℕ × Option Half)) → ParsedTime (time_of_groups u groups)
  unfolding time_of_groups
  time_of_groups-ParsedTime none = tt
  time_of_groups-ParsedTime (some (hour, minute, half)) =
      elim (Bool-cases (ltb 23 (shift_hour u hour half) || ltb 59 minute)) [
        | inl t ↦ rw t tt
        | inr f ↦
            rw f (not_less 23 _ (or_false f).0, not_less 59 _ (or_false f).1, refl, refl, refl)
      ]

  parse_cleaned-ParsedTime : (text : Text) → ParsedTime (parse_cleaned u text)
  parse_cleaned-ParsedTime [] = tt
  parse_cleaned-ParsedTime (c ∷ cs) = time_of_groups-ParsedTime _

  parse_time_loose-ParsedTime : (value : Option Text) → ParsedTime (parse_time_loose u value)
  unfolding parse_time_loose
  parse_time_loose-ParsedTime none = tt
  parse_time_loose-ParsedTime (some value) = parse_cleaned-ParsedTime (u.lower (strip u value))

  infer_within-IsTimeOfDay :
      (value : Time) (window : Time × Time)
      → IsTimeOfDay u value
      → IsTimeOfDay u (infer_within value window)
  infer_within-IsTimeOfDay value window v = elim (infer_within-IsReading value window).reading [
    | inl same ↦ subst (IsTimeOfDay u) (sym same) v
    | inr later ↦
        let l = later.0 in subst (IsTimeOfDay u) (sym later.1) (omega arith, v.1, refl, refl, refl)
  ]

  infer_if-IsTimeOfDay :
      (value : Time) (o : Option (Time × Time))
      → IsTimeOfDay u value
      → IsTimeOfDay u (infer_if value o)
  infer_if-IsTimeOfDay value none v = v
  infer_if-IsTimeOfDay value (some window) v = infer_within-IsTimeOfDay value window v

  infer_ampm-IsTimeOfDay :
      (value : Time) (prayer : Option Text)
      → IsTimeOfDay u value
      → IsTimeOfDay u (infer_ampm u value prayer)
  unfolding infer_ampm
  infer_ampm-IsTimeOfDay value none v = v
  infer_ampm-IsTimeOfDay value (some prayer) v = elim (Bool-cases (leb 13 value.hour)) [
    | inl t ↦ rw t v
    | inr f ↦ rw f (infer_if-IsTimeOfDay value (window_of (u.lower prayer) plausible_windows) v)
  ]

  infer_parsed-ParsedTime :
      (prayer : Option Text) (o : Option Time) → ParsedTime o → ParsedTime (infer_parsed u prayer o)
  infer_parsed-ParsedTime prayer none h = tt
  infer_parsed-ParsedTime prayer (some t) h = infer_ampm-IsTimeOfDay t prayer h

  -- Whatever a cell of a timetable says, and for whatever prayer, a time that is read from it has an
  -- hour up to 23 and a minute up to 59, and no seconds, microseconds or fold.
  pub coerce_time-ParsedTime :
      (value prayer : Option Text) → ParsedTime (coerce_time u value prayer)
  unfolding coerce_time
  coerce_time-ParsedTime value prayer =
      infer_parsed-ParsedTime prayer (parse_time_loose u value) (parse_time_loose-ParsedTime value)
