-- ===== src/Schedules/Keys.antt =====
-- schedules/keys.py and schedules/prayers.py: the key of an occurrence, the names of the prayers,
-- and the prayers that a day should have.
use native.Mathlib.Decide.{ℕ_discrete}
use uk_jamaat_directory.Prelude.{
  Eq, discrete_eq, ◌==◌, nat_eq, string_eq, String, Option, none, some, List, [], ◌∷◌, ◌++◌,
  if◌then◌else◌,
}
use uk_jamaat_directory.Prelude.Int.{ℤ, ℤ-discrete}
use uk_jamaat_directory.Prelude.Dict.{Dict}
use uk_jamaat_directory.Domain.{Prayer, Prayer-discrete, prayer_value}
use uk_jamaat_directory.Models.Calendar.{Date, weekday}
use uk_jamaat_directory.Models.Rows.{Uuid, ScheduleCandidate, ScheduleOccurrence}

-- A key holds the stored text of the prayer; the texts of two prayers differ,
-- so the key is kept with the prayer itself.
pub record OccurrenceKey : Type 0 where
  pub mosque_id : Uuid
  pub date : Date
  pub prayer : Prayer
  pub session_number : ℤ

unfoldable pub OccurrenceKey-discrete : Discrete OccurrenceKey
unfolding ℕ_discrete ℤ-discrete Prayer-discrete
OccurrenceKey-discrete = hlevel (ℕ_discrete, ℤ-discrete, Prayer-discrete)

instance abbrev pub occurrence_key_eq : Eq OccurrenceKey
occurrence_key_eq = discrete_eq OccurrenceKey-discrete

abbrev pub prayer_key : Prayer → String
prayer_key p = prayer_value p

abbrev pub occurrence_key : Uuid → Date → Prayer → ℤ → OccurrenceKey
occurrence_key mosque_id on_date prayer session_number = record {
  mosque_id = mosque_id;
  date = on_date;
  prayer = prayer;
  session_number = session_number;
}

abbrev pub occurrence_key_from_candidate : ScheduleCandidate → Option OccurrenceKey
occurrence_key_from_candidate c = elim c.mosque_id [
  | none ↦ none
  | some m ↦ some (occurrence_key m c.date c.prayer c.session_number)
]

abbrev pub occurrence_key_from_row : ScheduleOccurrence → OccurrenceKey
occurrence_key_from_row row = occurrence_key row.mosque_id row.date row.prayer row.session_number

abbrev pub prayer_aliases : Dict String Prayer
prayer_aliases =
    ("fajr", Prayer.fajr)
    ∷ ("dhuhr", Prayer.dhuhr)
    ∷ ("zuhr", Prayer.dhuhr)
    ∷ ("asr", Prayer.asr)
    ∷ ("maghrib", Prayer.maghrib)
    ∷ ("isha", Prayer.isha)
    ∷ ("jumuah", Prayer.jumuah)
    ∷ ("jumah", Prayer.jumuah)
    ∷ ("jummah", Prayer.jumuah)
    ∷ []

abbrev pub daily_prayers : List Prayer
daily_prayers = Prayer.fajr ∷ Prayer.dhuhr ∷ Prayer.asr ∷ Prayer.maghrib ∷ Prayer.isha ∷ []

unfoldable pub expected_prayers_for_date : Date → List Prayer
expected_prayers_for_date on_date =
    if weekday on_date == 4 then daily_prayers ++ Prayer.jumuah ∷ [] else daily_prayers
