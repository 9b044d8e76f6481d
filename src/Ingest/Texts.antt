-- ===== src/Ingest/Texts.antt =====
-- The tests of Python on texts that the ingestion modules use, on lists of code points.
use uk_jamaat_directory.Prelude.{
  ℕ, ◌==◌, nat_eq, String, Bool, true, false, ◌&&◌, ◌||◌, Option, none, some, List, [], ◌∷◌, any,
  if◌then◌else◌,
}
use uk_jamaat_directory.Schedules.Parse.{Text, Unicode, codes, same_text}

-- `text.startswith(front)`
unfoldable pub starts_with : Text → Text → Bool
starts_with [] text = true
starts_with (a ∷ front) [] = false
starts_with (a ∷ front) (c ∷ text) = a == c && starts_with front text

-- `part in text`
unfoldable pub occurs : Text → Text → Bool
occurs part [] = starts_with part []
occurs part (c ∷ text) = starts_with part (c ∷ text) || occurs part text

-- `any(p in text for p in parts)`, for parts written in the source.
unfoldable pub occurs_any : List String → Text → Bool
occurs_any parts text = any (λ part. occurs (codes part) text) parts

-- `text.endswith(back)`
unfoldable pub ends_with : Text → Text → Bool
ends_with back [] = same_text back []
ends_with back (c ∷ text) = same_text back (c ∷ text) || ends_with back text

-- `text.strip(".")`
abbrev pub dot : ℕ
dot = 46

unfoldable pub strip_dots_left : Text → Text
strip_dots_left [] = []
strip_dots_left (c ∷ text) = let rest = strip_dots_left text in if c == dot then rest else c ∷ text

abbrev keep_dot : ℕ → Text → Text
keep_dot c [] = if c == dot then [] else c ∷ []
keep_dot c (d ∷ text) = c ∷ d ∷ text

unfoldable pub strip_dots_right : Text → Text
strip_dots_right [] = []
strip_dots_right (c ∷ text) = keep_dot c (strip_dots_right text)

unfoldable pub strip_dots : Text → Text
strip_dots text = strip_dots_right (strip_dots_left text)

-- What `urllib.parse.urlparse` returns, as far as the program reads it.
pub record ParseResult : Type 0 where
  pub scheme : Text
  pub netloc : Text
  pub hostname : Option Text
  pub path : Text

-- The tables and the library that the ingestion of web pages stands on.
pub record Web : Type 0 where
  pub unicode : Unicode
  pub urlparse : Text → ParseResult

-- `value or ""`
abbrev pub or_empty : Option Text → Text
or_empty none = []
or_empty (some text) = text

-- `text or None`
abbrev pub or_absent : Text → Option Text
or_absent [] = none
or_absent (c ∷ text) = some (c ∷ text)
