-- ===== src/Ingest/Normalize.antt =====
-- ingest/normalize.py: the normal form of a mosque's name.
use uk_jamaat_directory.Prelude.{ℕ, ◌==◌, nat_eq, Bool, ◌||◌, [], ◌∷◌, map, if◌then◌else◌}
use uk_jamaat_directory.Schedules.Parse.{Text, Unicode, strip}

-- The Unicode tables, with `\w` of one character.
pub record Words : Type 0 where
  pub unicode : Unicode
  pub is_word : ℕ → Bool

abbrev space : ℕ
space = 32

-- A space before what follows it, if that has none.
unfoldable pub behind_space : Text → Text
behind_space [] = space ∷ []
behind_space (c ∷ cs) = if c == space then c ∷ cs else space ∷ c ∷ cs

module _ (words : Words) where
  -- `_PUNCTUATION.sub(" ", ...)`
  unfoldable pub without_punctuation : Text → Text
  without_punctuation text =
      map (λ c. if words.is_word c || words.unicode.is_space c then c else space) text

  -- `_WHITESPACE.sub(" ", ...)`
  unfoldable pub collapse_whitespace : Text → Text
  collapse_whitespace [] = []
  collapse_whitespace (c ∷ cs) =
      let rest = collapse_whitespace cs in
      if words.unicode.is_space c then behind_space rest else c ∷ rest

  unfoldable pub normalize_mosque_name : Text → Text
  normalize_mosque_name name =
      strip words.unicode
        (collapse_whitespace (without_punctuation (words.unicode.lower (strip words.unicode name))))
