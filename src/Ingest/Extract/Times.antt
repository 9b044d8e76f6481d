-- ===== src/Ingest/Extract/Times.antt =====
-- ingest/extract/helpers/times.py: times as timetables print them, with the half of the day inferred
-- from the prayer.
--
-- The pattern is matched from left to right without going back: after two digits, a mark and two
-- digits, or a marker of the half of the day, no shorter match of that group lets the rest match.
pub mod Halves
pub mod Printed
use uk_jamaat_directory.Prelude.{
  ℕ, ◌+◌, ◌*◌, ◌==◌, nat_eq, String, Bool, true, false, not, ◌&&◌, ◌||◌, Option, none, some, List,
  [], ◌∷◌, ltb, leb, if◌then◌else◌,
}
use uk_jamaat_directory.Prelude.Dict.{Dict}
use uk_jamaat_directory.Models.Calendar.{Time, micros}
use uk_jamaat_directory.Schedules.Parse.{
  Text, Unicode, codes, same_text, strip, strip_left, two_digits, colon,
}
use uk_jamaat_directory.Ingest.Texts.{dot}

-- `time(hour, minute)`
abbrev pub clock : ℕ → ℕ → Time
clock hour minute = record {
  hour = hour;
  minute = minute;
  second = 0;
  microsecond = 0;
  fold = false;
}

abbrev pub plausible_windows : Dict String (Time × Time)
plausible_windows =
    ("fajr", (clock 2 0, clock 7 30))
    ∷ ("dhuhr", (clock 11 30, clock 16 0))
    ∷ ("asr", (clock 13 30, clock 20 0))
    ∷ ("maghrib", (clock 15 30, clock 22 30))
    ∷ ("isha", (clock 17 0, clock 23 59))
    ∷ ("jumuah", (clock 11 30, clock 15 30))
    ∷ []

pub data Half : Type 0 where
  am pm : Half

abbrev pub letter_a : ℕ
letter_a = 97

abbrev pub letter_p : ℕ
letter_p = 112

abbrev pub letter_m : ℕ
letter_m = 109

module _ (u : Unicode) where
  abbrev is_end : Text → Bool
  is_end [] = true
  is_end (c ∷ rest) = false

  -- `\.?\s*$`
  abbrev pub is_tail : Text → Bool
  is_tail [] = true
  is_tail (c ∷ rest) =
      if c == dot then is_end (strip_left u rest) else is_end (strip_left u (c ∷ rest))

  abbrev pub half_if : Bool → Option Half → Option (Option Half)
  half_if true half = some half
  half_if false half = none

  -- `(am|pm)?\.?\s*$`, on a text in lower case.
  abbrev pub half_marker : Text → Option (Option Half)
  half_marker (c ∷ d ∷ rest) =
      if d == letter_m && c == letter_a
      then half_if (is_tail rest) (some Half.am)
      else if d == letter_m && c == letter_p
      then half_if (is_tail rest) (some Half.pm)
      else half_if (is_tail (c ∷ d ∷ rest)) none
  half_marker rest = half_if (is_tail rest) none

  -- The groups `m` and `ampm`, with `int(match.group("m") or 0)`.
  abbrev pub with_minute : Option ℕ → Option (Option Half) → Option (ℕ × Option Half)
  with_minute (some minute) (some half) = some (minute, half)
  with_minute (some minute) none = none
  with_minute none half = none

  abbrev pub is_mark : ℕ → Bool
  is_mark c = c == dot || c == colon

  -- After the mark and the minute, or with no minute from where the mark would be.
  abbrev pub after_mark : Option ℕ → Text → Text → Option (ℕ × Option Half)
  after_mark (some minute) rest whole = with_minute (some minute) (half_marker (strip_left u rest))
  after_mark none rest whole = with_minute (some 0) (half_marker (strip_left u whole))

  -- `(?:[.:](?P<m>\d{2}))?\s*(?P<ampm>(am|pm))?\.?\s*$`
  unfoldable pub match_minute : Text → Option (ℕ × Option Half)
  match_minute (c ∷ m ∷ n ∷ rest) =
      after_mark (if is_mark c then two_digits (u.digit m) (u.digit n) else none) rest
        (c ∷ m ∷ n ∷ rest)
  match_minute rest = with_minute (some 0) (half_marker (strip_left u rest))

  abbrev pub with_hour : Option ℕ → Option (ℕ × Option Half) → Option (ℕ × ℕ × Option Half)
  with_hour (some hour) (some (minute, half)) = some (hour, minute, half)
  with_hour (some hour) none = none
  with_hour none rest = none

  -- After two digits, or after the first of two characters.
  abbrev pub after_digits : Option ℕ → Option ℕ → ℕ → Text → Option (ℕ × ℕ × Option Half)
  after_digits (some hour) digit h rest = with_hour (some hour) (match_minute rest)
  after_digits none digit h rest = with_hour digit (match_minute (h ∷ rest))

  -- `(?P<h>\d{1,2})` and the rest.
  unfoldable pub match_hour : Text → Option (ℕ × ℕ × Option Half)
  match_hour [] = none
  match_hour (g ∷ []) = with_hour (u.digit g) (match_minute [])
  match_hour (g ∷ h ∷ rest) = after_digits (two_digits (u.digit g) (u.digit h)) (u.digit g) h rest

  -- The hour on a 24-hour clock.
  abbrev pub shift_hour : ℕ → Option Half → ℕ
  shift_hour hour none = hour
  shift_hour hour (some Half.pm) = if ltb hour 12 then hour + 12 else hour
  shift_hour hour (some Half.am) = if hour == 12 then 0 else hour

  unfoldable pub time_of_groups : Option (ℕ × ℕ × Option Half) → Option Time
  time_of_groups none = none
  time_of_groups (some (hour, minute, half)) =
      if ltb 23 (shift_hour hour half) || ltb 59 minute
      then none
      else some (clock (shift_hour hour half) minute)

  abbrev pub parse_cleaned : Text → Option Time
  parse_cleaned [] = none
  parse_cleaned (c ∷ cs) = time_of_groups (match_hour (strip_left u (c ∷ cs)))

  unfoldable pub parse_time_loose : Option Text → Option Time
  parse_time_loose none = none
  parse_time_loose (some value) = parse_cleaned (u.lower (strip u value))

-- `window[0] <= value <= window[1]`
abbrev pub in_window : Time → Time × Time → Bool
in_window value window =
    leb (micros window.0) (micros value) && leb (micros value) (micros window.1)

-- `d.get(key)` for a key that is computed.
unfoldable pub window_of : Text → Dict String (Time × Time) → Option (Time × Time)
window_of key [] = none
window_of key ((name, window) ∷ windows) =
    if same_text (codes name) key then some window else window_of key windows

-- The reading of a value against the window of its prayer.
unfoldable pub infer_within : Time → Time × Time → Time
infer_within value window =
    if in_window value window
    then value
    else if ltb value.hour 12 && in_window (clock (value.hour + 12) value.minute) window
    then clock (value.hour + 12) value.minute
    else value

abbrev pub infer_if : Time → Option (Time × Time) → Time
infer_if value none = value
infer_if value (some window) = infer_within value window

unfoldable pub infer_ampm : Unicode → Time → Option Text → Time
infer_ampm u value none = value
infer_ampm u value (some prayer) =
    if leb 13 value.hour
    then value
    else infer_if value (window_of (u.lower prayer) plausible_windows)

abbrev pub infer_parsed : Unicode → Option Text → Option Time → Option Time
infer_parsed u prayer none = none
infer_parsed u prayer (some parsed) = some (infer_ampm u parsed prayer)

unfoldable pub coerce_time : Unicode → Option Text → Option Text → Option Time
coerce_time u value prayer = infer_parsed u prayer (parse_time_loose u value)
