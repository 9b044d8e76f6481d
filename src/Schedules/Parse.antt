-- ===== src/Schedules/Parse.antt =====
-- schedules/parse.py: the times, prayers and rows of an extraction from their texts.
--
-- A text is the list of its code points. The Unicode tables of Python are parameters.
pub mod Times
pub mod Errors
use Prim.Native.Char.{code}
use uk_jamaat_directory.Prelude.{
  ℕ, ◌+◌, ◌*◌, ◌==◌, nat_eq, String, Bool, true, false, ◌&&◌, ◌||◌, Option, none, some, List, [],
  ◌∷◌, ltb, if◌then◌else◌,
}
use uk_jamaat_directory.Prelude.Dict.{Dict}
use uk_jamaat_directory.Prelude.Int.{ℤ}
use uk_jamaat_directory.Domain.{Prayer}
use uk_jamaat_directory.Models.Calendar.{Date, Time}
use uk_jamaat_directory.Models.Session.{Result, ok, err, Error, value_error}
use uk_jamaat_directory.Schedules.Types.{ScheduleCandidateInput}
use uk_jamaat_directory.Schedules.Keys.{prayer_aliases}

abbrev pub Text : Type 0
Text = List ℕ

abbrev pub codes : String → Text
codes String.[] = []
codes (String.◌∷◌ c s) = code c ∷ codes s

-- `str.isspace` and the value of a decimal digit, of one character, and `str.lower`.
pub record Unicode : Type 0 where
  pub is_space : ℕ → Bool
  pub digit : ℕ → Option ℕ
  pub lower : Text → Text

abbrev pub colon : ℕ
colon = 58

-- The two groups of `^(\d{1,2}):(\d{2})$` as numbers.
abbrev pub two_digits : Option ℕ → Option ℕ → Option ℕ
two_digits (some x) (some y) = some (x * 10 + y)
two_digits _ _ = none

abbrev pub both {ℓ} : {A B : Type ℓ} → Option A → Option B → Option (A × B)
both (some a) (some b) = some (a, b)
both _ _ = none

module _ (u : Unicode) where
  -- `value.strip()`
  unfoldable pub strip_left : Text → Text
  strip_left [] = []
  strip_left (c ∷ cs) = let rest = strip_left cs in if u.is_space c then rest else c ∷ cs

  abbrev pub keep : ℕ → Text → Text
  keep c [] = if u.is_space c then [] else c ∷ []
  keep c (d ∷ ds) = c ∷ d ∷ ds

  unfoldable pub strip_right : Text → Text
  strip_right [] = []
  strip_right (c ∷ cs) = keep c (strip_right cs)

  unfoldable pub strip : Text → Text
  strip value = strip_right (strip_left value)

  -- A text that is stripped ends in no newline, so `$` is its end.
  unfoldable pub match_time : Text → Option (ℕ × ℕ)
  match_time (h ∷ c ∷ m ∷ n ∷ []) =
      if c == colon then both (u.digit h) (two_digits (u.digit m) (u.digit n)) else none
  match_time (g ∷ h ∷ c ∷ m ∷ n ∷ []) =
      if c == colon
      then both (two_digits (u.digit g) (u.digit h)) (two_digits (u.digit m) (u.digit n))
      else none
  match_time _ = none

  unfoldable pub time_of : Option (ℕ × ℕ) → Result (Option Time)
  time_of none = err (value_error "invalid time format (expected HH:MM)")
  time_of (some (hour, minute)) =
      if ltb 23 hour || ltb 59 minute
      then err (value_error "invalid time value")
      else ok (
          some (record { hour = hour; minute = minute; second = 0; microsecond = 0; fold = false }))

  unfoldable pub parse_stripped : Text → Result (Option Time)
  parse_stripped [] = ok none
  parse_stripped (c ∷ cs) = time_of (match_time (c ∷ cs))

  unfoldable pub parse_hhmm : Option Text → Result (Option Time)
  parse_hhmm none = ok none
  parse_hhmm (some value) = parse_stripped (strip value)

abbrev pub same_text : Text → Text → Bool
same_text [] [] = true
same_text [] (b ∷ bs) = false
same_text (a ∷ as') [] = false
same_text (a ∷ as') (b ∷ bs) = a == b && same_text as' bs

unfoldable pub alias : Text → Dict String Prayer → Option Prayer
alias key [] = none
alias key ((name, prayer) ∷ aliases) =
    if same_text (codes name) key then some prayer else alias key aliases

abbrev pub prayer_or_error : Option Prayer → Result Prayer
prayer_or_error none = err (value_error "unsupported prayer")
prayer_or_error (some prayer) = ok prayer

unfoldable pub parse_prayer : Unicode → Text → Result Prayer
parse_prayer u value = prayer_or_error (alias (u.lower (strip u value)) prayer_aliases)

infixl 5 ◌then_parse◌
abbrev pub ◌then_parse◌ : {A B : Type 0} → Result A → (A → Result B) → Result B
(ok a) then_parse f = f a
(err e) then_parse f = err e

abbrev pub required : Option Time → Result Time
required none = err (value_error "invalid jamaat time (expected HH:MM)")
required (some t) = ok t

-- The keyword arguments of `parse_schedule_row`.
pub record RowTexts : Type 0 where
  pub on_date : Date
  pub prayer : Text
  pub jamaat_time : Text
  pub start_time : Option Text
  pub session_number : ℤ
  pub session_label : Option String
  pub timezone : String

unfoldable pub parse_schedule_row :
    Unicode → RowTexts → Result (ScheduleCandidateInput × Time × Option Time)
parse_schedule_row u r =
    (parse_hhmm u (some r.jamaat_time) then_parse required) then_parse λ jamaat.
    parse_prayer u r.prayer then_parse λ prayer. parse_hhmm u r.start_time then_parse λ start. ok (
      record {
        date = r.on_date;
        prayer = prayer;
        session_number = r.session_number;
        session_label = r.session_label;
        timezone = r.timezone;
      },
      jamaat,
      start,
    )
