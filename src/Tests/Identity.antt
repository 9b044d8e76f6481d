-- ===== src/Tests/Identity.antt =====
-- The theorem about merges, where both mosques have an alias of one normal form.
use uk_jamaat_directory.Prelude.{
  ◌≡◌, ◌≢◌, ◌⊎◌, refl, true, false, nat_eq, leb, none, [], ◌∷◌, ◌==◌, string_eq, Bool, some,
}
use uk_jamaat_directory.Domain.{MosqueStatus}
use uk_jamaat_directory.Models.Rows.{Uuid, Mosque, MosqueAlias, IdentityMatchReview}
use uk_jamaat_directory.Models.Session.{
  Db, Session, Result, ok, err, integrity_error, value_error, ◌>>=◌,
}
use uk_jamaat_directory.Schedules.Parse.{Text, codes, strip, strip_left, strip_right}
use uk_jamaat_directory.Schedules.Publication.Loops.{occurrences_unique}
use uk_jamaat_directory.Ingest.Normalize.{
  Words, normalize_mosque_name, without_punctuation, collapse_whitespace, behind_space,
}
use uk_jamaat_directory.Services.Identity.{move_schedules, merge_mosques, aliases_unique}
use uk_jamaat_directory.Services.Identity.Merged.{IsMerged, merge_mosques_outcome}
use uk_jamaat_directory.Services.Identity.Reviews.{
  accept_identity_review, require_identity_review, candidate_ids, further_ids,
}
use uk_jamaat_directory.Services.Contributions.{require_mosque}
use uk_jamaat_directory.Tests.Parse.{ascii}
use uk_jamaat_directory.Tests.Samples.{mosque, tables, public_source}

-- Letters are the characters behind 96.
abbrev words : Words
words = record { unicode = ascii; is_word = λ c. leb 97 c }

normal_form : normalize_mosque_name words (codes " al-noor  masjid ") ≡ codes "al noor masjid"
unfolding normalize_mosque_name without_punctuation collapse_whitespace behind_space strip
    strip_left strip_right
normal_form = refl

abbrev copy : Mosque
copy = record mosque { id = 2; name = "central mosque leeds" }

abbrev alias_of : Uuid → Uuid → Text → MosqueAlias
alias_of id mosque_id alias = record {
  id = id;
  mosque_id = mosque_id;
  alias = alias;
  normalized_alias = normalize_mosque_name words alias;
  source_type = none;
}

abbrev both_mosques : Db
both_mosques = record tables {
  mosques = mosque ∷ copy ∷ [];
  aliases =
      alias_of 50 1 (codes "al noor")
      ∷ alias_of 51 2 (codes "al-noor")
      ∷ alias_of 52 2 (codes "noor centre")
      ∷ [];
}

unique_before : aliases_unique both_mosques.aliases ≡ true
unfolding aliases_unique
unique_before = refl

apart : copy.id ≢ mosque.id
apart q = cc

merge_mosques_outcome_example :
    ((occurrences_unique (move_schedules 1 2 both_mosques).occurrences ≡ true)
      × (db : Db) × (merge_mosques words 1 2 "admin" none both_mosques ≡ ok (mosque, db))
      × IsMerged words mosque copy apart both_mosques db)
    ⊎ ((occurrences_unique (move_schedules 1 2 both_mosques).occurrences ≡ false)
        × (merge_mosques words 1 2 "admin" none both_mosques ≡ err integrity_error))
merge_mosques_outcome_example =
    merge_mosques_outcome words mosque copy apart "admin" none both_mosques refl refl
      (refl, (refl, (refl, tt))) unique_before

-- A review that names a mosque which became a duplicate can be accepted for it, and not twice.
abbrev review : IdentityMatchReview
review = record {
  id = 70;
  source_id = some public_source.id;
  proposed_mosque_id = some 1;
  candidates = none ∷ some 1 ∷ some 2 ∷ [];
  status = "pending";
  reviewer = none;
  reviewed_at = none;
}

abbrev reviewed : Db
reviewed = record both_mosques {
  mosques = mosque ∷ record copy { status = MosqueStatus.duplicate } ∷ [];
  reviews = review ∷ [];
}

abbrev is_accepted : Result (IdentityMatchReview × Db) → Bool
is_accepted (ok (r, db)) = r.status == "accepted"
is_accepted (err e) = false

abbrev twice : Session IdentityMatchReview
twice = accept_identity_review words 1000 "admin" none 70 (some 2) >>= λ _.
    accept_identity_review words 1000 "admin" none 70 (some 2)

accepted_once :
    is_accepted (accept_identity_review words 1000 "admin" none 70 (some 2) reviewed) ≡ true
unfolding accept_identity_review require_identity_review candidate_ids further_ids require_mosque
accepted_once = refl

not_accepted_twice : twice reviewed ≡ err (value_error "identity review is not pending")
unfolding accept_identity_review require_identity_review candidate_ids further_ids require_mosque
not_accepted_twice = refl
