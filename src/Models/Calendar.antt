-- ===== src/Models/Calendar.antt =====
-- Dates and times of day of Python's `datetime`, and what the program asks of the clock and of the
-- time zone database.
--
-- A date is its proleptic ordinal, `date.toordinal()`; a `timedelta` of days is added to it. An
-- instant is a number of seconds. Python defines `weekday()` as `(toordinal() + 6) % 7`.
use uk_jamaat_directory.Prelude.{
  ℕ, ◌+◌, ◌*◌, ◌%◌, Bool, true, false, String, Option, none, some, ltb, ◌==◌, nat_eq,
}

abbrev pub Date : Type 0
Date = ℕ

abbrev pub Instant : Type 0
Instant = ℕ

abbrev pub days : ℕ → ℕ
days n = n * 86400

abbrev pub weekday : Date → ℕ
weekday d = (d + 6) % 7

-- `datetime.time` with no zone. Python's comparisons leave `fold` out.
pub record Time : Type 0 where
  pub hour : ℕ
  pub minute : ℕ
  pub second : ℕ
  pub microsecond : ℕ
  pub fold : Bool

-- The place of a time within its day, in microseconds.
abbrev pub micros : Time → ℕ
micros t = ((t.hour * 60 + t.minute) * 60 + t.second) * 1000000 + t.microsecond

abbrev pub time_lt : Time → Time → Bool
time_lt a b = ltb (micros a) (micros b)

abbrev pub time_same : Time → Time → Bool
time_same a b = micros a == micros b

abbrev pub time_option_same : Option Time → Option Time → Bool
time_option_same none none = true
time_option_same none (some b) = false
time_option_same (some a) none = false
time_option_same (some a) (some b) = time_same a b

-- The surroundings of one request: the clock (`datetime.now(UTC)`, read once), which zone names the
-- database knows, the local date in a zone, and whether `astimezone` raises OSError or ValueError
-- for a local date and time in a zone.
pub record World : Type 0 where
  pub now : Instant
  pub known_zone : String → Bool
  pub today_in : String → Date
  pub utc_fails : Date → Time → String → Bool
