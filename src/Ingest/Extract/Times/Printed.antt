-- ===== src/Ingest/Extract/Times/Printed.antt =====
-- Times as they are printed with a marker of the half of the day (ingest/extract/helpers/times.py).
use uk_jamaat_directory.Prelude.{
  ℕ, ◌+◌, ◌*◌, ◌/◌, ◌%◌, ◌≤◌, ◌<◌, ◌≡◌, refl, false, ◌==◌, nat_eq, some, [], ◌∷◌, ltb, arith,
  Bool-cases, inl, inr, if◌then◌else◌,
}
use uk_jamaat_directory.Schedules.Parse.{Text, Unicode, colon, strip_left, strip_right, strip}
use uk_jamaat_directory.Schedules.Parse.Times.{IsAscii}
use uk_jamaat_directory.Ingest.Extract.Times.{
  Half, half_marker, shift_hour, clock, letter_a, letter_p, letter_m, match_minute, match_hour,
  time_of_groups, parse_time_loose,
}

-- The hour on a clock face.
abbrev pub face : ℕ → ℕ
face hour = if hour % 12 == 0 then 12 else hour % 12

abbrev pub half_letter : ℕ → ℕ
half_letter hour = if ltb hour 12 then letter_a else letter_p

-- `strftime("%I:%M%p")` in lower case.
abbrev pub twelve_hour : ℕ → ℕ → Text
twelve_hour hour minute =
    (48 + face hour / 10)
    ∷ (48 + face hour % 10)
    ∷ colon
    ∷ (48 + minute / 10)
    ∷ (48 + minute % 10)
    ∷ half_letter hour
    ∷ letter_m
    ∷ []

-- What Python's tables say of such a text: no space in it, and it is in lower case.
pub record IsLatin (u : Unicode) : Type 0 where
  pub ascii : IsAscii u
  pub letters :
      (u.is_space letter_a ≡ false) × (u.is_space letter_p ≡ false) × (u.is_space letter_m ≡ false)
  pub lower :
      (hour minute : ℕ)
      → hour < 24
      → minute < 60
      → u.lower (twelve_hour hour minute) ≡ twelve_hour hour minute

face_le : (hour : ℕ) → face hour ≤ 12
face_le hour = ground arith

-- The marker and the hour give the hour of the day back.
abbrev half_of : ℕ → Half
half_of hour = if ltb hour 12 then Half.am else Half.pm

shift_hour-face :
    (u : Unicode) (hour : ℕ) → hour < 24 → shift_hour u (face hour) (some (half_of hour)) ≡ hour
shift_hour-face u hour h = elim (Bool-cases (ltb hour 12)) [
  | inl t ↦ rw t (ground arith)
  | inr f ↦ rw f (ground arith)
]

half_marker-letter :
    (u : Unicode) (hour : ℕ)
    → half_marker u (half_letter hour ∷ letter_m ∷ []) ≡ some (some (half_of hour))
half_marker-letter u hour = elim (Bool-cases (ltb hour 12)) [
  | inl t ↦ rw t refl
  | inr f ↦ rw f refl
]

half_letter-space : (u : Unicode) (hour : ℕ) → IsLatin u → u.is_space (half_letter hour) ≡ false
half_letter-space u hour l = elim (Bool-cases (ltb hour 12)) [
  | inl t ↦ rw t l.letters.0
  | inr f ↦ rw f l.letters.1
]

module _ (u : Unicode) (latin : IsLatin u) (hour minute : ℕ) (h : hour < 24) (m : minute < 60) where
  strip_left-twelve_hour : strip_left u (twelve_hour hour minute) ≡ twelve_hour hour minute
  unfolding strip_left
  strip_left-twelve_hour =
      let f = face_le hour in rw (latin.ascii.digit_shown (face hour / 10) (omega arith)) refl

  strip-twelve_hour : strip u (twelve_hour hour minute) ≡ twelve_hour hour minute
  unfolding strip strip_right
  strip-twelve_hour = rw (strip_left-twelve_hour, latin.letters.2) refl

  match_minute-twelve_hour :
      match_minute u
        (colon ∷ (48 + minute / 10) ∷ (48 + minute % 10) ∷ half_letter hour ∷ letter_m ∷ [])
      ≡ some (minute, some (half_of hour))
  unfolding match_minute strip_left
  match_minute-twelve_hour =
      let a = latin.ascii.digit (minute / 10) (omega arith) in
      let b = latin.ascii.digit (minute % 10) (omega arith) in
      let minutes : minute / 10 * 10 + minute % 10 ≡ minute = omega arith in
      rw (a, b, half_letter-space u hour latin, half_marker-letter u hour) (rw minutes refl)

  match_hour-twelve_hour :
      match_hour u (twelve_hour hour minute) ≡ some (face hour, minute, some (half_of hour))
  unfolding match_hour
  match_hour-twelve_hour =
      let f = face_le hour in
      let a = latin.ascii.digit (face hour / 10) (omega arith) in
      let b = latin.ascii.digit (face hour % 10) (omega arith) in
      let hours : face hour / 10 * 10 + face hour % 10 ≡ face hour = omega arith in
      rw (a, b, match_minute-twelve_hour) (rw hours refl)

  time_of_groups-face :
      time_of_groups u (some (face hour, minute, some (half_of hour))) ≡ some (clock hour minute)
  unfolding time_of_groups
  time_of_groups-face = rw (shift_hour-face u hour h) (ground arith)

  -- A time of day printed on a twelve-hour clock, HH:MM and am or pm, is read as that time, given
  -- what Python's tables say of its characters.
  pub parse_time_loose-twelve_hour :
      parse_time_loose u (some (twelve_hour hour minute)) ≡ some (clock hour minute)
  unfolding parse_time_loose
  parse_time_loose-twelve_hour =
      rw
        (
          strip-twelve_hour,
          latin.lower hour minute h m,
          strip_left-twelve_hour,
          match_hour-twelve_hour,
        )
        time_of_groups-face
