-- ===== src/Schedules/Parse/Errors.antt =====
-- What `parse_schedule_row` of schedules/parse.py raises: ValueError and nothing else.
use uk_jamaat_directory.Prelude.{
  ℕ, ◌≡◌, refl, String, ◌||◌, Option, none, some, [], ◌∷◌, ltb, Bool-cases, inl, inr,
}
use uk_jamaat_directory.Domain.{Prayer}
use uk_jamaat_directory.Models.Calendar.{Time}
use uk_jamaat_directory.Models.Session.{Result, ok, err, value_error}
use uk_jamaat_directory.Schedules.Keys.{prayer_aliases}
use uk_jamaat_directory.Schedules.Parse.{
  Text, Unicode, strip, alias, match_time, time_of, parse_stripped, parse_hhmm, prayer_or_error,
  parse_prayer, ◌then_parse◌, required, RowTexts, parse_schedule_row,
}

abbrev pub IsValueResult : {A : Type 0} → Result A → Type 0
IsValueResult (ok a) = Unit
IsValueResult (err e) = (text : String) × (e ≡ value_error text)

then_parse-IsValueResult :
    {A B : Type 0} (x : Result A) (f : A → Result B)
    → IsValueResult x
    → ((a : A) → IsValueResult (f a))
    → IsValueResult (x then_parse f)
then_parse-IsValueResult (ok a) f h k = k a
then_parse-IsValueResult (err e) f h k = h

time_of-IsValueResult : (u : Unicode) (groups : Option (ℕ × ℕ)) → IsValueResult (time_of u groups)
unfolding time_of
time_of-IsValueResult u none = (_, refl)
time_of-IsValueResult u (some (hour, minute)) = elim (Bool-cases (ltb 23 hour || ltb 59 minute)) [
  | inl t ↦ rw t (_, refl)
  | inr n ↦ rw n tt
]

parse_stripped-IsValueResult : (u : Unicode) (text : Text) → IsValueResult (parse_stripped u text)
unfolding parse_stripped
parse_stripped-IsValueResult u [] = tt
parse_stripped-IsValueResult u (c ∷ cs) = time_of-IsValueResult u (match_time u (c ∷ cs))

parse_hhmm-IsValueResult : (u : Unicode) (value : Option Text) → IsValueResult (parse_hhmm u value)
unfolding parse_hhmm
parse_hhmm-IsValueResult u none = tt
parse_hhmm-IsValueResult u (some value) = parse_stripped-IsValueResult u (strip u value)

required-IsValueResult : (t : Option Time) → IsValueResult (required t)
required-IsValueResult none = (_, refl)
required-IsValueResult (some t) = tt

prayer_or_error-IsValueResult : (found : Option Prayer) → IsValueResult (prayer_or_error found)
prayer_or_error-IsValueResult none = (_, refl)
prayer_or_error-IsValueResult (some prayer) = tt

pub parse_schedule_row-IsValueResult :
    (u : Unicode) (r : RowTexts) → IsValueResult (parse_schedule_row u r)
unfolding parse_schedule_row parse_prayer
parse_schedule_row-IsValueResult u r =
    then_parse-IsValueResult _ _
      (then_parse-IsValueResult _ required (parse_hhmm-IsValueResult u (some r.jamaat_time))
        required-IsValueResult)
      (λ jamaat.
        then_parse-IsValueResult (parse_prayer u r.prayer) _
          (prayer_or_error-IsValueResult (alias (u.lower (strip u r.prayer)) prayer_aliases))
          (λ prayer.
            then_parse-IsValueResult (parse_hhmm u r.start_time) _
              (parse_hhmm-IsValueResult u r.start_time) (λ start. tt)))
