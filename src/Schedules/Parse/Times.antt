-- ===== src/Schedules/Parse/Times.antt =====
-- Times through `parse_hhmm` of schedules/parse.py.
use uk_jamaat_directory.Prelude.{
  ℕ, ◌+◌, ◌*◌, ◌/◌, ◌%◌, ◌≤◌, ◌<◌, ◌≡◌, refl, true, false, ◌||◌, Option, none, some, [], ◌∷◌, ◌++◌,
  ltb, arith, Bool-cases, inl, inr, All,
}
use uk_jamaat_directory.Models.Calendar.{Time}
use uk_jamaat_directory.Models.Session.{Result, ok, err}
use uk_jamaat_directory.Schedules.Parse.{
  Text, Unicode, colon, strip_left, strip_right, strip, match_time, time_of, parse_stripped,
  parse_hhmm,
}

-- What Python's tables say of ASCII: the value of a digit, and that neither a digit nor the colon is
-- a space.
pub record IsAscii (u : Unicode) : Type 0 where
  pub digit : (d : ℕ) → d < 10 → u.digit (48 + d) ≡ some d
  pub digit_shown : (d : ℕ) → d < 10 → u.is_space (48 + d) ≡ false

-- HH:MM.
abbrev pub isoformat : ℕ → ℕ → Text
isoformat hour minute =
    (48 + hour / 10) ∷ (48 + hour % 10) ∷ colon ∷ (48 + minute / 10) ∷ (48 + minute % 10) ∷ []

abbrev pub AreSpaces : Unicode → Text → Type 0
AreSpaces u cs = All (λ c. u.is_space c ≡ true) cs

module _ (u : Unicode) where
  strip_left_spaces :
      (front : Text) (c : ℕ) (cs : Text)
      → AreSpaces u front
      → u.is_space c ≡ false
      → strip_left u (front ++ c ∷ cs) ≡ c ∷ cs
  unfolding strip_left
  strip_left_spaces [] c cs h n = rw n refl
  strip_left_spaces (x ∷ front) c cs h n = rw h.0 (strip_left_spaces front c cs h.1 n)

  strip_right_spaces : (back : Text) → AreSpaces u back → strip_right u back ≡ []
  unfolding strip_right
  strip_right_spaces [] h = refl
  strip_right_spaces (c ∷ back) h = rw (strip_right_spaces back h.1) (rw h.0 refl)

  strip_five :
      (front back : Text) (a b c d e : ℕ)
      → AreSpaces u front
      → AreSpaces u back
      → u.is_space a ≡ false
      → u.is_space e ≡ false
      → strip u (front ++ a ∷ b ∷ c ∷ d ∷ e ∷ back) ≡ a ∷ b ∷ c ∷ d ∷ e ∷ []
  unfolding strip strip_right
  strip_five front back a b c d e f g n m =
      rw (strip_left_spaces front a (b ∷ c ∷ d ∷ e ∷ back) f n)
        (rw (strip_right_spaces back g) (rw m refl))

  -- A time of day written as HH:MM, with any spaces around it, is parsed to that time, given what
  -- Python's tables say of ASCII.
  pub parse_hhmm-isoformat :
      IsAscii u
      → (hour minute : ℕ) (front back : Text) → hour < 24
      → minute < 60
      → AreSpaces u front
      → AreSpaces u back
      → parse_hhmm u (some (front ++ (isoformat hour minute ++ back)))
        ≡ ok (
            some
              (record { hour = hour; minute = minute; second = 0; microsecond = 0; fold = false }))
  unfolding parse_hhmm parse_stripped match_time time_of
  parse_hhmm-isoformat ascii hour minute front back h m f g =
      let a = ascii.digit (hour / 10) (omega arith) in
      let b = ascii.digit (hour % 10) (omega arith) in
      let c = ascii.digit (minute / 10) (omega arith) in
      let d = ascii.digit (minute % 10) (omega arith) in
      let hours : hour / 10 * 10 + hour % 10 ≡ hour = omega arith in
      let minutes : minute / 10 * 10 + minute % 10 ≡ minute = omega arith in
      rw
        (strip_five front back (48 + hour / 10) (48 + hour % 10) colon (48 + minute / 10)
          (48 + minute % 10) f g (ascii.digit_shown (hour / 10) (omega arith))
          (ascii.digit_shown (minute % 10) (omega arith)))
        (rw (a, b, c, d) (rw (hours, minutes) (ground arith)))

  -- Whole minutes of a day.
  abbrev pub IsTimeOfDay : Time → Type 0
  IsTimeOfDay t =
      (t.hour ≤ 23) × (t.minute ≤ 59) × (t.second ≡ 0) × (t.microsecond ≡ 0) × (t.fold ≡ false)

  abbrev pub Parsed : Result (Option Time) → Type 0
  Parsed (ok none) = Unit
  Parsed (ok (some t)) = IsTimeOfDay t
  Parsed (err e) = Unit

  time_of-Parsed : (groups : Option (ℕ × ℕ)) → Parsed (time_of u groups)
  unfolding time_of
  time_of-Parsed none = tt
  time_of-Parsed (some (hour, minute)) = elim (Bool-cases (ltb 23 hour || ltb 59 minute)) [
    | inl t ↦ rw t tt
    | inr n ↦ rw n (ground arith, ground arith, refl, refl, refl)
  ]

  parse_stripped-Parsed : (text : Text) → Parsed (parse_stripped u text)
  unfolding parse_stripped
  parse_stripped-Parsed [] = tt
  parse_stripped-Parsed (c ∷ cs) = time_of-Parsed (match_time u (c ∷ cs))

  -- Whatever the text, a time that is parsed from it has an hour up to 23 and a minute up to 59, and
  -- no seconds, microseconds or fold.
  pub parse_hhmm-Parsed : (value : Option Text) → Parsed (parse_hhmm u value)
  unfolding parse_hhmm
  parse_hhmm-Parsed none = tt
  parse_hhmm-Parsed (some value) = parse_stripped-Parsed (strip u value)
