-- ===== src/Schedules/Dataset.antt =====
-- schedules/dataset.py: the published dataset versions and their names.
pub mod Naming
use uk_jamaat_directory.Prelude.{
  ℕ, zero, suc, ◌+◌, ◌*◌, ◌/◌, ◌%◌, ◌==◌, nat_eq, string_eq, String, Bool, true, false, not, ◌&&◌,
  ◌||◌, Option, none, some, List, [], ◌∷◌, ◌++◌, select, any, first, length, ltb, if◌then◌else◌,
}
use uk_jamaat_directory.Models.Json.{Json, iso_instant}
use uk_jamaat_directory.Models.Calendar.{Date, Instant, World}
use uk_jamaat_directory.Models.Rows.{Uuid, VersionName, dated, named, DatasetVersion}
use uk_jamaat_directory.Models.Session.{
  Db, Session, Error, integrity_error, ◌>>=◌, ◌>>◌, pure, gets, modify, raise_if, uuid4,
}

abbrev pub published_status : String
published_status = "published"

abbrev pub is_published : DatasetVersion → Bool
is_published v = v.status == published_status

-- ORDER BY published_at DESC NULLS LAST, created_at DESC: `a` comes before `b`.
abbrev later_published : Option Instant → Option Instant → Bool → Bool
later_published none none tie = tie
later_published none (some b) tie = false
later_published (some a) none tie = true
later_published (some a) (some b) tie = if a == b then tie else ltb b a

unfoldable pub comes_before : DatasetVersion → DatasetVersion → Bool
comes_before a b = later_published a.published_at b.published_at (ltb b.created_at a.created_at)

-- The first row of the ordered query; of equals, the one that stands first in the table.
unfoldable pub latest : List DatasetVersion → Option DatasetVersion
latest [] = none
latest (v ∷ vs) = elim (latest vs) [
  | none ↦ some v
  | some best ↦ some (if comes_before best v then best else v)
]

unfoldable pub get_latest_published_version : Db → Option DatasetVersion
get_latest_published_version db = latest (select is_published db.versions)

-- Decimal digits, most significant first: the text of an int. The fuel is more than the number.
unfoldable pub digits_from : ℕ → ℕ → List ℕ → List ℕ
digits_from zero n acc = acc
digits_from (suc fuel) n acc =
    let rest = digits_from fuel (n / 10) ((n % 10) ∷ acc) in if ltb n 10 then n ∷ acc else rest

unfoldable pub digits : ℕ → List ℕ
unfolding digits_from
digits n = digits_from (suc n) n []

unfoldable pub value_from : ℕ → List ℕ → ℕ
value_from acc [] = acc
value_from acc (d ∷ ds) = value_from (acc * 10 + d) ds

-- `int(text)`, and the fallback where it raises ValueError: on the empty text.
unfoldable pub patch_of : List ℕ → ℕ → ℕ
patch_of [] fallback = fallback
patch_of (d ∷ ds) fallback = value_from 0 (d ∷ ds)

-- Texts compare character by character, and a prefix is smaller.
abbrev pub text_lt : List ℕ → List ℕ → Bool
text_lt [] [] = false
text_lt [] (b ∷ bs) = true
text_lt (a ∷ as') [] = false
text_lt (a ∷ as') (b ∷ bs) = if a == b then text_lt as' bs else ltb a b

-- The patch text of a name that is LIKE `day.%`.
abbrev pub patch_of_name : Date → VersionName → List (List ℕ)
patch_of_name day (dated d patch) = if d == day then patch ∷ [] else []
patch_of_name day (named text) = []

unfoldable pub patches_of_day : Date → List DatasetVersion → List (List ℕ)
patches_of_day day [] = []
patches_of_day day (v ∷ vs) = patch_of_name day v.version ++ patches_of_day day vs

-- ORDER BY version DESC, the first row.
unfoldable pub greatest : List (List ℕ) → Option (List ℕ)
greatest [] = none
greatest (p ∷ ps) = elim (greatest ps) [
  | none ↦ some p
  | some best ↦ some (if text_lt p best then best else p)
]

unfoldable pub next_patch : List (List ℕ) → List ℕ
unfolding greatest patch_of digits
next_patch existing = elim (greatest existing) [
  | none ↦ digits 1
  | some last ↦ digits (patch_of last (length existing) + 1)
]

abbrev pub patch_same : List ℕ → List ℕ → Bool
patch_same [] [] = true
patch_same [] (b ∷ bs) = false
patch_same (a ∷ as') [] = false
patch_same (a ∷ as') (b ∷ bs) = a == b && patch_same as' bs

-- The unique constraint on `version`, tested when the new row is flushed.
unfoldable pub name_taken : Date → List ℕ → Db → Bool
name_taken day patch db = any (patch_same patch) (patches_of_day day db.versions)

abbrev pub new_version : Uuid → Date → List ℕ → Instant → DatasetVersion
new_version id day patch now = record {
  id = id;
  version = dated day patch;
  schema_version = "1.0";
  status = published_status;
  published_at = some now;
  manifest = ("published_at", iso_instant now) ∷ [];
  created_at = now;
}

-- `day` is the UTC date of `now`.
unfoldable pub create_published_dataset_version : Date → Instant → Session DatasetVersion
create_published_dataset_version day now = do
  existing ← gets (λ db. patches_of_day day db.versions)
  let patch = next_patch existing
  raise_if (← gets (name_taken day patch)) integrity_error
  id ← uuid4
  let version = new_version id day patch now
  modify (λ db. record db { versions = db.versions ++ version ∷ [] })
  pure version

abbrev pub same_name : VersionName → VersionName → Bool
same_name (dated d p) (dated e q) = d == e && patch_same p q
same_name (dated d p) (named b) = false
same_name (named a) (dated e q) = false
same_name (named a) (named b) = a == b

-- `version_id` goes before `version_name`, and without both it is the latest published version.
unfoldable pub resolve_dataset_version :
    Option VersionName → Option Uuid → Db → Option DatasetVersion
resolve_dataset_version name (some id) db = first (λ v. v.id == id) db.versions
resolve_dataset_version (some name) none db = first (λ v. same_name v.version name) db.versions
resolve_dataset_version none none db = get_latest_published_version db
