-- ===== src/Services/Identity/Names.antt =====
-- The names of a mosque before and after a merge (services/admin_identity.py).
use uk_jamaat_directory.Prelude.{
  ◌≡◌, ◌≢◌, refl, ap, ◌∙◌, Bool, true, false, not, ◌==◌, nat_eq, ◌||◌, some, List, [], ◌∷◌, ◌++◌,
  any, select, All, ◌+◌, any-append, any-select-false, append-nil, arith, Bool-cases, inl, inr,
  if◌then◌else◌, beq_refl,
}
use uk_jamaat_directory.Prelude.Tables.{select-append}
use uk_jamaat_directory.Domain.{SourceType}
use uk_jamaat_directory.Models.Rows.{Uuid, MosqueAlias}
use uk_jamaat_directory.Models.Session.{Db, ok}
use uk_jamaat_directory.Schedules.Parse.{Text, same_text}
use uk_jamaat_directory.Ingest.Normalize.{Words, normalize_mosque_name}
use uk_jamaat_directory.Services.Identity.{
  is_named, move_aliases, same_alias, aliases_unique, new_alias, add_missing,
}
use uk_jamaat_directory.Services.Identity.Aliases.{
  known_under, is_named-move_aliases, move_aliases-others, IsNormal, unnamed-aliases_unique,
}
use uk_jamaat_directory.Services.Identity.Moved.{
  IsMoved, dropped_none, dropped_spares, none_selected, selected_none,
}

own_names :
    (canonical duplicate : Uuid) (name : Text) (rows : List MosqueAlias)
    → duplicate ≢ canonical
    → any (is_named canonical name) (select (λ a. not (a.mosque_id == duplicate)) rows)
      ≡ any (is_named canonical name) rows
own_names canonical duplicate name [] d = refl
own_names canonical duplicate name (a ∷ rows) d = elim (Bool-cases (a.mosque_id == duplicate)) [
  | inl t ↦
      let off : (a.mosque_id == canonical) ≡ false = ground (arith, d) in
      rw (t, off) (own_names canonical duplicate name rows d)
  | inr f ↦
      rw f (ap (λ b. is_named canonical name a || b) (own_names canonical duplicate name rows d))
]

other_names :
    (duplicate : Uuid) (name : Text) (rows : List MosqueAlias)
    → any (λ a. same_text a.normalized_alias name) (select (λ a. a.mosque_id == duplicate) rows)
      ≡ any (is_named duplicate name) rows
other_names duplicate name [] = refl
other_names duplicate name (a ∷ rows) = elim (Bool-cases (a.mosque_id == duplicate)) [
  | inl t ↦
      rw t (ap (λ b. same_text a.normalized_alias name || b) (other_names duplicate name rows))
  | inr f ↦ rw f (other_names duplicate name rows)
]

pub aliases_unique-select :
    (p : MosqueAlias → Bool) (rows : List MosqueAlias)
    → aliases_unique rows ≡ true
    → aliases_unique (select p rows) ≡ true
unfolding aliases_unique
aliases_unique-select p [] h = refl
aliases_unique-select p (a ∷ rows) h = elim (Bool-cases (p a)) [
  | inl t ↦
      rw t (ground (arith, any-select-false (same_alias a) p rows, aliases_unique-select p rows))
  | inr f ↦ rw f (aliases_unique-select p rows (ground arith))
]

module _ (words : Words) (canonical duplicate : Uuid) (apart : duplicate ≢ canonical)
    (name : Text) where
  -- The aliases before a merge, and after it.
  pub record IsRenamed (rows rows' : List MosqueAlias) : Type 0 where
    pub moved : IsMoved (λ a. some a.mosque_id) duplicate canonical rows rows'
    pub known_by :
        (n : Text)
        → any (is_named canonical n) rows' ≡ (
            any (is_named canonical n) rows
            || (any (is_named duplicate n) rows || same_text (normalize_mosque_name words name) n))
    pub unique : aliases_unique rows' ≡ true

  abbrev pub moved_aliases : List MosqueAlias → List MosqueAlias
  moved_aliases rows =
      move_aliases canonical (select (λ a. a.mosque_id == duplicate) rows)
        (select (λ a. not (a.mosque_id == duplicate)) rows)

  pub moved_aliases-IsMoved :
      (rows : List MosqueAlias)
      → IsMoved (λ a. some a.mosque_id) duplicate canonical rows (moved_aliases rows)
  moved_aliases-IsMoved rows = record {
    leaves_none =
        selected_none (λ a. a.mosque_id == duplicate) (moved_aliases rows)
          (move_aliases-others canonical duplicate _ _ apart
            ∙ none_selected (λ a. a.mosque_id == duplicate)
                (select (λ a. not (a.mosque_id == duplicate)) rows)
                (dropped_none (λ (a : MosqueAlias). a.mosque_id) duplicate rows));
    spares_others = λ m e f.
        move_aliases-others canonical m _ _ f
        ∙ dropped_spares (λ (a : MosqueAlias). a.mosque_id) duplicate m rows e;
  }

  pub moved_aliases-is_named :
      (n : Text) (rows : List MosqueAlias)
      → any (is_named canonical n) (moved_aliases rows)
        ≡ (any (is_named canonical n) rows || any (is_named duplicate n) rows)
  moved_aliases-is_named n rows =
      is_named-move_aliases canonical n _ _
      ∙ (rw (own_names canonical duplicate n rows apart, other_names duplicate n rows) refl)

  -- The aliases once the duplicate's name is ensured.
  abbrev ensured_aliases : Bool → SourceType → Uuid → List MosqueAlias → List MosqueAlias
  ensured_aliases true source_type id rows = rows
  ensured_aliases false source_type id rows =
      rows ++ new_alias words canonical name source_type id ∷ []

  abbrev pub ensured : Bool → SourceType → Db → Db
  ensured b source_type db = record db {
    next_id = if b then db.next_id else db.next_id + 1;
    aliases = ensured_aliases b source_type db.next_id db.aliases;
  }

  abbrev pub is_known : List MosqueAlias → Bool
  is_known rows = any (is_named canonical (normalize_mosque_name words name)) rows

  -- With unique aliases in normal form, the name can always be ensured.
  pub add_missing-ok :
      (b : Bool) (source_type : SourceType) (db : Db)
      → is_known db.aliases ≡ b
      → All (IsNormal words) db.aliases
      → aliases_unique db.aliases ≡ true
      → (add_missing words canonical name source_type b db ≡ ok (tt, ensured b source_type db))
        × (aliases_unique (ensured b source_type db).aliases ≡ true)
  add_missing-ok true source_type db k n u = (refl, u)
  add_missing-ok false source_type db k n u =
      let v =
        unnamed-aliases_unique words (new_alias words canonical name source_type db.next_id)
          db.aliases refl n k u in
      (rw v refl, v)

  pub ensured-is_named :
      (b : Bool) (source_type : SourceType) (n : Text) (db : Db)
      → is_known db.aliases ≡ b
      → any (is_named canonical n) (ensured b source_type db).aliases
        ≡ (any (is_named canonical n) db.aliases || same_text (normalize_mosque_name words name) n)
  ensured-is_named true source_type n db k =
      elim (Bool-cases (same_text (normalize_mosque_name words name) n)) [
        | inl t ↦
            let q = known_under canonical n (normalize_mosque_name words name) db.aliases k t in
            ground arith
        | inr f ↦ ground arith
      ]
  ensured-is_named false source_type n db k =
      any-append (is_named canonical n) db.aliases
        (new_alias words canonical name source_type db.next_id ∷ [])
      ∙ ground (arith, beq_refl canonical)

  pub ensured-IsMoved :
      (b : Bool) (source_type : SourceType) (db : Db) (rows : List MosqueAlias)
      → IsMoved (λ a. some a.mosque_id) duplicate canonical rows db.aliases
      → IsMoved (λ a. some a.mosque_id) duplicate canonical rows (ensured b source_type db).aliases
  ensured-IsMoved true source_type db rows h = h
  ensured-IsMoved false source_type db rows h = record {
    leaves_none =
        any-append (λ a. a.mosque_id == duplicate) db.aliases
          (new_alias words canonical name source_type db.next_id ∷ [])
        ∙ ground (arith, h.leaves_none, apart);
    spares_others = λ m e f.
        let off : (canonical == m) ≡ false = ground (arith, f) in
        (rw
          (
            select-append (λ (a : MosqueAlias). a.mosque_id == m) db.aliases
                (new_alias words canonical name source_type db.next_id ∷ []),
            off,
          )
          (append-nil (select (λ a. a.mosque_id == m) db.aliases)))
        ∙ h.spares_others m e f;
  }
