-- ===== src/Tests/Parse.antt =====
-- The theorems about parsed times, with the ASCII part of the Unicode tables.
use uk_jamaat_directory.Prelude.{
  ℕ, ◌+◌, ◌-◌, ◌≡◌, ◌<◌, refl, ◌&&◌, ◌==◌, nat_eq, none, some, [], ◌∷◌, leb, arith, if◌then◌else◌,
}
use uk_jamaat_directory.Models.Session.{ok}
use uk_jamaat_directory.Schedules.Parse.{Unicode, parse_hhmm, codes}
use uk_jamaat_directory.Schedules.Parse.Times.{
  IsAscii, Parsed, parse_hhmm-isoformat, parse_hhmm-Parsed,
}
use uk_jamaat_directory.Tests.Samples.{at}

abbrev pub ascii : Unicode
ascii = record {
  is_space = λ c. c == 32;
  digit = λ c. if leb 48 c && leb c 57 then some (c - 48) else none;
  lower = λ text. text;
}

digit_value :
    (d : ℕ)
    → d < 10
    → (if leb 48 (48 + d) && leb (48 + d) 57 then some (48 + d - 48) else none) ≡ some d
digit_value d h = let e : 48 + d - 48 ≡ d = omega arith in rw e (ground arith)

pub ascii-IsAscii : IsAscii ascii
ascii-IsAscii = record { digit = digit_value; digit_shown = λ d h. ground arith }

parse_hhmm-isoformat_example : parse_hhmm ascii (some (codes " 13:15 ")) ≡ ok (some (at 13 15))
parse_hhmm-isoformat_example =
    parse_hhmm-isoformat ascii ascii-IsAscii 13 15 (32 ∷ []) (32 ∷ []) (omega arith) (omega arith)
      (refl, tt) (refl, tt)

parse_hhmm-Parsed_example : Parsed ascii (parse_hhmm ascii (some (codes "24:00")))
parse_hhmm-Parsed_example = parse_hhmm-Parsed ascii (some (codes "24:00"))
