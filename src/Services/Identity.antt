-- ===== src/Services/Identity.antt =====
-- services/admin_identity.py: the merge of a duplicate mosque into another one, and the reviews of
-- proposed matches. `_require_mosque` is written as in services/contribution_intake.py.
pub mod Owners
pub mod Aliases
pub mod Moved
pub mod Names
pub mod Merged
pub mod Reviews
use uk_jamaat_directory.Prelude.{
  ℕ, ◌==◌, nat_eq, String, string_eq, Bool, true, false, not, ◌&&◌, Option, none, some, List, [],
  ◌∷◌, ◌++◌, select, any, update_where, contains, if◌then◌else◌,
}
use uk_jamaat_directory.Domain.{MosqueStatus, SourceType}
use uk_jamaat_directory.Models.Calendar.{World}
use uk_jamaat_directory.Models.Rows.{
  Uuid, Mosque, MosqueSource, ScheduleCandidate, ScheduleOccurrence, Correction, MosqueClaim,
  MosqueAlias, MosqueAttribute, IdentityMatchReview, ModerationAction,
}
use uk_jamaat_directory.Models.Session.{
  Db, Session, Error, value_error, integrity_error, ◌>>=◌, ◌>>◌, pure, raise, raise_if, gets,
  modify, uuid4, get_mosque, get_source, get_attribute, get_review,
}
use uk_jamaat_directory.Schedules.Parse.{Text, codes, same_text}
use uk_jamaat_directory.Schedules.Queries.{column_is}
use uk_jamaat_directory.Schedules.Publication.Loops.{occurrences_unique}
use uk_jamaat_directory.Services.Contributions.{require_mosque}
use uk_jamaat_directory.Ingest.Normalize.{Words, normalize_mosque_name}

-- The rows of a table that belong to one mosque are given to another.
unfoldable pub reown : {A : Type 0} → (A → Option Uuid) → (A → A) → Uuid → List A → List A
reown owner give from rows = update_where (λ a. column_is (owner a) from) give rows

-- Whether an alias with this normal form belongs to the mosque.
abbrev pub is_named : Uuid → Text → MosqueAlias → Bool
is_named mosque_id normalized a =
    a.mosque_id == mosque_id && same_text a.normalized_alias normalized

abbrev pub given_alias : Uuid → MosqueAlias → MosqueAlias
given_alias mosque_id a = record a { mosque_id = mosque_id }

-- The loop over the aliases of the duplicate: an alias whose normal form the canonical mosque has
-- is deleted.
unfoldable pub move_aliases : Uuid → List MosqueAlias → List MosqueAlias → List MosqueAlias
move_aliases canonical [] kept = kept
move_aliases canonical (a ∷ rest) kept =
    if any (is_named canonical a.normalized_alias) kept
    then move_aliases canonical rest kept
    else move_aliases canonical rest (kept ++ given_alias canonical a ∷ [])

-- `uq_mosque_alias`
abbrev pub same_alias : MosqueAlias → MosqueAlias → Bool
same_alias a b = a.mosque_id == b.mosque_id && same_text a.alias b.alias

unfoldable pub aliases_unique : List MosqueAlias → Bool
aliases_unique [] = true
aliases_unique (a ∷ rest) = not (any (same_alias a) rest) && aliases_unique rest

-- The canonical mosque takes the attributes of the duplicate if it has none.
abbrev taken_attributes :
    Uuid → MosqueAttribute → Option MosqueAttribute → List MosqueAttribute → List MosqueAttribute
taken_attributes canonical dup (some own) attributes = attributes
taken_attributes canonical dup none attributes =
    attributes ++ record dup { mosque_id = canonical } ∷ []

abbrev moved_attributes :
    Uuid
    → Uuid
    → Option MosqueAttribute
    → Option MosqueAttribute
    → List MosqueAttribute
    → List MosqueAttribute
moved_attributes canonical duplicate none own attributes = attributes
moved_attributes canonical duplicate (some dup) own attributes =
    select (λ a. not (a.mosque_id == duplicate)) (taken_attributes canonical dup own attributes)

-- Sources, candidates and occurrences.
unfoldable pub move_schedules : Uuid → Uuid → Db → Db
move_schedules canonical duplicate db = record db {
  sources =
      reown (λ s. s.mosque_id) (λ s. record s { mosque_id = some canonical }) duplicate db.sources;
  candidates =
      reown (λ c. c.mosque_id) (λ c. record c { mosque_id = some canonical }) duplicate
        db.candidates;
  occurrences =
      reown (λ o. some o.mosque_id) (λ o. record o { mosque_id = canonical }) duplicate
        db.occurrences;
}

-- Claims, corrections, reviews and attributes.
unfoldable pub move_requests : Uuid → Uuid → Db → Db
move_requests canonical duplicate db = record db {
  claims =
      reown (λ c. some c.mosque_id) (λ c. record c { mosque_id = canonical }) duplicate db.claims;
  corrections =
      reown (λ c. c.mosque_id) (λ c. record c { mosque_id = some canonical }) duplicate
        db.corrections;
  reviews =
      reown (λ r. r.proposed_mosque_id) (λ r. record r { proposed_mosque_id = some canonical })
        duplicate db.reviews;
  attributes =
      moved_attributes canonical duplicate (get_attribute duplicate db) (get_attribute canonical db)
        db.attributes;
}

abbrev pub move_alias_rows : Uuid → Uuid → Db → Db
move_alias_rows canonical duplicate db = record db {
  aliases =
      move_aliases canonical (select (λ a. a.mosque_id == duplicate) db.aliases)
        (select (λ a. not (a.mosque_id == duplicate)) db.aliases);
}

abbrev pub check_aliases : Session (Unit {0})
check_aliases = do
  aliases ← gets (λ db. db.aliases)
  raise_if (not (aliases_unique aliases)) integrity_error

abbrev pub check_occurrences : Session (Unit {0})
check_occurrences = do
  occurrences ← gets (λ db. db.occurrences)
  raise_if (not (occurrences_unique occurrences)) integrity_error

module _ (words : Words) where
  abbrev pub new_alias : Uuid → Text → SourceType → Uuid → MosqueAlias
  new_alias mosque_id alias source_type id = record {
    id = id;
    mosque_id = mosque_id;
    alias = alias;
    normalized_alias = normalize_mosque_name words alias;
    source_type = some source_type;
  }

  abbrev pub add_missing : Uuid → Text → SourceType → Bool → Session (Unit {0})
  add_missing mosque_id alias source_type true = pure tt
  add_missing mosque_id alias source_type false = do
    id ← uuid4
    modify
        (λ db. record db { aliases = db.aliases ++ new_alias mosque_id alias source_type id ∷ [] })
    check_aliases

  -- `_ensure_alias` of ingest/discovery/resolve.py
  unfoldable pub ensure_alias : Uuid → Text → SourceType → Session (Unit {0})
  ensure_alias mosque_id alias source_type = do
    existing ← gets (λ db. any (is_named mosque_id (normalize_mosque_name words alias)) db.aliases)
    add_missing mosque_id alias source_type existing

abbrev pub audit_row : String → String → String → Uuid → Option String → ModerationAction
audit_row actor action entity_type entity_id reason = record {
  actor = actor;
  action = action;
  entity_type = entity_type;
  entity_id = entity_id;
  reason = reason;
}

abbrev pub add_action : ModerationAction → Db → Db
add_action row db = record db { actions = db.actions ++ row ∷ [] }

abbrev pub retired : Uuid → Db → Db
retired duplicate db = record db {
  mosques =
      update_where (λ m. m.id == duplicate) (λ m. record m { status = MosqueStatus.duplicate })
        db.mosques;
}

-- What follows once both mosques are found. The flushes that may break a constraint are those of the
-- aliases and of the occurrences; the sources, which no flush of these reads, move with the candidates.
unfoldable pub merge_found : Words → String → Option String → Mosque → Mosque → Session Mosque
merge_found words actor reason canonical duplicate = do
  raise_if (duplicate.id == canonical.id) (value_error "cannot merge a mosque into itself")
  modify (move_alias_rows canonical.id duplicate.id)
  check_aliases
  modify (move_schedules canonical.id duplicate.id)
  check_occurrences
  modify (move_requests canonical.id duplicate.id)
  ensure_alias words canonical.id (codes duplicate.name) SourceType.manual
  modify (retired duplicate.id)
  modify (add_action (audit_row actor "merge_mosque" "mosque" canonical.id reason))
  pure canonical

unfoldable pub merge_mosques : Words → Uuid → Uuid → String → Option String → Session Mosque
merge_mosques words canonical_id duplicate_id actor reason = do
  canonical ← require_mosque canonical_id
  duplicate ← require_mosque duplicate_id
  merge_found words actor reason canonical duplicate
