-- ===== src/Models/Columns.antt =====
-- Which values the columns of models/core.py hold: a text of bounded width, which PostgreSQL keeps
-- without the character NUL, and a 32-bit integer.
use Prim.Native.Char.{code}
use uk_jamaat_directory.Prelude.{
  ℕ, suc, ◌==◌, nat_eq, String, Bool, true, not, ◌&&◌, Option, none, some, ltb, leb,
}
use uk_jamaat_directory.Prelude.Int.{ℤ, pos, negsuc}

unfoldable pub text_length : String → ℕ
text_length String.[] = 0
text_length (String.◌∷◌ c s) = suc (text_length s)

unfoldable pub has_no_nul : String → Bool
has_no_nul String.[] = true
has_no_nul (String.◌∷◌ c s) = let rest = has_no_nul s in not (code c == 0) && rest

-- `String(width)`
unfoldable pub fits_text : ℕ → String → Bool
fits_text width s = leb (text_length s) width && has_no_nul s

abbrev pub fits_optional : ℕ → Option String → Bool
fits_optional width none = true
fits_optional width (some s) = fits_text width s

-- `Integer`: -2147483648 to 2147483647
unfoldable pub fits_integer : ℤ → Bool
fits_integer (pos n) = ltb n 2147483648
fits_integer (negsuc n) = ltb n 2147483648
