-- ===== src/Services/Identity/Merged.antt =====
-- What a merge leaves behind (services/admin_identity.py).
use uk_jamaat_directory.Prelude.{
  any, ◌||◌, ◌≡◌, ◌≢◌, refl, ap, Bool, true, false, not, ◌==◌, nat_eq, ◌⊎◌, String, Option, some,
  List, [], ◌∷◌, All, All-select, arith, Bool-cases, inl, inr, update_where,
}
use uk_jamaat_directory.Domain.{MosqueStatus, SourceType}
use uk_jamaat_directory.Models.Rows.{Uuid, Mosque}
use uk_jamaat_directory.Models.Session.{
  Db, ◌>>◌, pure, modify, raise_if, value_error, Result, ok, err, integrity_error, get_mosque,
  get_attribute,
}
use uk_jamaat_directory.Schedules.Parse.{codes}
use uk_jamaat_directory.Schedules.Publication.Loops.{occurrences_unique}
use uk_jamaat_directory.Services.Contributions.{require_mosque, found_or_raise}
use uk_jamaat_directory.Models.Triples.{bind-ok, bind-err}
use uk_jamaat_directory.Ingest.Normalize.{Words}
use uk_jamaat_directory.Services.Identity.{
  aliases_unique, move_schedules, move_requests, move_alias_rows, ensure_alias, audit_row,
  add_action, retired, check_aliases, check_occurrences, merge_found, merge_mosques,
}
use uk_jamaat_directory.Services.Identity.Aliases.{IsNormal, move_aliases-aliases_unique}
use uk_jamaat_directory.Services.Identity.Moved.{
  IsMoved, IsGiven, reown-IsGiven, moved_attributes_kept, moved_attributes-IsMoved,
}
use uk_jamaat_directory.Services.Identity.Names.{
  IsRenamed, moved_aliases, moved_aliases-IsMoved, moved_aliases-is_named, ensured, is_known,
  add_missing-ok, ensured-is_named, ensured-IsMoved, aliases_unique-select,
}

module _ (words : Words) (canonical duplicate : Mosque) (apart : duplicate.id ≢ canonical.id) where
  abbrev new : Uuid
  new = canonical.id

  abbrev old : Uuid
  old = duplicate.id

  -- The rows of these tables that the duplicate had are the other mosque's, and no third mosque is
  -- touched. Change events are not moved: those of the duplicate stay with it.
  pub record IsMerged (db db' : Db) : Type 0 where
    pub sources :
        IsGiven
          (λ s. s.mosque_id)
          (λ s. record s { mosque_id = some new })
          old
          new
          db.sources
          db'.sources
    pub aliases : IsRenamed words new old apart (codes duplicate.name) db.aliases db'.aliases
    pub candidates :
        IsGiven
          (λ c. c.mosque_id)
          (λ c. record c { mosque_id = some new })
          old
          new
          db.candidates
          db'.candidates
    pub occurrences :
        IsGiven
          (λ o. some o.mosque_id)
          (λ o. record o { mosque_id = new })
          old
          new
          db.occurrences
          db'.occurrences
    pub claims :
        IsGiven
          (λ c. some c.mosque_id)
          (λ c. record c { mosque_id = new })
          old
          new
          db.claims
          db'.claims
    pub corrections :
        IsGiven
          (λ c. c.mosque_id)
          (λ c. record c { mosque_id = some new })
          old
          new
          db.corrections
          db'.corrections
    pub reviews :
        IsGiven
          (λ r. r.proposed_mosque_id)
          (λ r. record r { proposed_mosque_id = some new })
          old
          new
          db.reviews
          db'.reviews
    pub attributes : IsMoved (λ a. some a.mosque_id) old new db.attributes db'.attributes
    pub has_attributes : any (λ a. a.mosque_id == new) db'.attributes ≡ (
        any (λ a. a.mosque_id == new) db.attributes || any (λ a. a.mosque_id == old) db.attributes)
    pub events : db'.events ≡ db.events
    pub unique : occurrences_unique db'.occurrences ≡ true
    pub retired : All (λ m. m.id ≡ old → m.status ≡ MosqueStatus.duplicate) db'.mosques

  retired-All :
      (mosques : List Mosque)
      → All
          (λ m. m.id ≡ old → m.status ≡ MosqueStatus.duplicate)
          (update_where
            (λ m. m.id == old)
            (λ m. record m { status = MosqueStatus.duplicate })
            mosques)
  retired-All [] = tt
  retired-All (m ∷ mosques) = elim (Bool-cases (m.id == old)) [
    | inl t ↦ rw t ((λ q. refl), retired-All mosques)
    | inr f ↦ rw f ((λ q. absurd (ground (arith, q, f))), retired-All mosques)
  ]

  -- The rows of the tables once all have moved.
  abbrev moved : Db → Db
  moved db = move_requests new old (move_schedules new old (move_alias_rows new old db))

  abbrev is_known_in : Db → Bool
  is_known_in db = is_known words new old apart (codes duplicate.name) (moved db).aliases

  abbrev merged : String → Option String → Db → Db
  merged actor reason db = add_action (audit_row actor "merge_mosque" "mosque" new reason) (
      retired old (
        ensured words new old apart (codes duplicate.name) (is_known_in db) SourceType.manual
          (moved db)))

  -- The aliases of both stay unique and in normal form while they are moved.
  move_aliases_unique :
      (db : Db)
      → All (IsNormal words) db.aliases
      → aliases_unique db.aliases ≡ true
      → (aliases_unique (moved_aliases words new old apart (codes duplicate.name) db.aliases)
          ≡ true)
        × All (IsNormal words) (moved_aliases words new old apart (codes duplicate.name) db.aliases)
  move_aliases_unique db n u =
      move_aliases-aliases_unique words new _ _
        (All-select (IsNormal words) (λ a. a.mosque_id == old) db.aliases n)
        (All-select (IsNormal words) (λ a. not (a.mosque_id == old)) db.aliases n)
        (aliases_unique-select (λ a. not (a.mosque_id == old)) db.aliases u)

  merged-IsMerged :
      (actor : String) (reason : Option String) (db : Db)
      → All (IsNormal words) db.aliases
      → aliases_unique db.aliases ≡ true
      → occurrences_unique (move_schedules new old db).occurrences ≡ true
      → IsMerged db (merged actor reason db)
  unfolding move_schedules move_requests
  merged-IsMerged actor reason db n u o =
      let (u', n') = move_aliases_unique db n u in
      let known = is_known_in db in
      record {
        sources =
            reown-IsGiven (λ s. s.mosque_id) _ old new db.sources (λ s. refl) (λ s. refl) apart;
        aliases = record {
          moved =
              ensured-IsMoved words new old apart (codes duplicate.name) known SourceType.manual
                (moved db) db.aliases
                (moved_aliases-IsMoved words new old apart (codes duplicate.name) db.aliases);
          known_by = λ name.
              let e =
                ensured-is_named words new old apart (codes duplicate.name) known SourceType.manual
                  name (moved db) refl in
              let g =
                moved_aliases-is_named words new old apart (codes duplicate.name) name db.aliases in
              ground (arith, e, g);
          unique =
              (add_missing-ok words new old apart (codes duplicate.name) known SourceType.manual
                (moved db) refl n' u').1;
        };
        candidates =
            reown-IsGiven (λ c. c.mosque_id) _ old new db.candidates (λ c. refl) (λ c. refl) apart;
        occurrences =
            reown-IsGiven (λ o. some o.mosque_id) _ old new db.occurrences (λ o. refl) (λ o. refl)
              apart;
        claims =
            reown-IsGiven (λ c. some c.mosque_id) _ old new db.claims (λ c. refl) (λ c. refl) apart;
        corrections =
            reown-IsGiven (λ c. c.mosque_id) _ old new db.corrections (λ c. refl) (λ c. refl) apart;
        reviews =
            reown-IsGiven (λ r. r.proposed_mosque_id) _ old new db.reviews (λ r. refl) (λ r. refl)
              apart;
        attributes =
            moved_attributes-IsMoved new old (get_attribute new db) (get_attribute old db)
              db.attributes refl apart;
        has_attributes =
            moved_attributes_kept new old (get_attribute new db) (get_attribute old db)
              db.attributes refl refl apart;
        events = refl;
        unique = o;
        retired = retired-All db.mosques;
      }

  require_mosque-ok :
      (m : Mosque) (db : Db) → get_mosque m.id db ≡ some m → require_mosque m.id db ≡ ok (m, db)
  unfolding require_mosque
  require_mosque-ok m db h = ap (λ o. found_or_raise m.id o db) h

  merge_mosques-found :
      (actor : String) (reason : Option String) (db : Db) {result : Result (Mosque × Db)}
      → get_mosque canonical.id db ≡ some canonical
      → get_mosque duplicate.id db ≡ some duplicate
      → merge_found words actor reason canonical duplicate db ≡ result
      → merge_mosques words canonical.id duplicate.id actor reason db ≡ result
  unfolding merge_mosques
  merge_mosques-found actor reason db c d h =
      bind-ok (require_mosque canonical.id) _ db (require_mosque-ok canonical db c) (
        bind-ok (require_mosque duplicate.id) (merge_found words actor reason canonical) db
          (require_mosque-ok duplicate db d) h)

  abbrev with_schedules : Db → Db
  with_schedules db = move_schedules new old (move_alias_rows new old db)

  -- The merge up to the flush of the occurrences.
  to_occurrences :
      (actor : String) (reason : Option String) (db : Db) {result : Result (Mosque × Db)}
      → aliases_unique (moved_aliases words new old apart (codes duplicate.name) db.aliases) ≡ true
      → (check_occurrences
            >> (modify (move_requests new old)
                >> (ensure_alias words new (codes duplicate.name) SourceType.manual
                    >> (modify (retired old)
                        >> (modify (add_action (audit_row actor "merge_mosque" "mosque" new reason))
                            >> pure canonical)))))
          (with_schedules db)
        ≡ result
      → merge_found words actor reason canonical duplicate db ≡ result
  unfolding merge_found
  to_occurrences actor reason db u h =
      let off : (duplicate.id == canonical.id) ≡ false = ground (arith, apart) in
      bind-ok
        (raise_if (duplicate.id == canonical.id) (value_error "cannot merge a mosque into itself"))
        _ db (ap (λ b. raise_if b (value_error "cannot merge a mosque into itself") db) off)
        (bind-ok check_aliases _ (move_alias_rows new old db)
          (ap (λ b. raise_if (not b) integrity_error (move_alias_rows new old db)) u) h)

  -- A merge of a stored mosque into another stored one, where the aliases are in normal form and
  -- unique: if no two occurrences clash once those of the duplicate have moved, the merge returns.
  -- The canonical mosque then has the sources, candidates, occurrences, claims, corrections and
  -- proposed matches of both, with every other column as it was, and is found under every name of
  -- both; it has attributes if one of both had; no row of these tables and no alias names the
  -- duplicate, and those of third mosques are as before; the change events are as before, those of
  -- the duplicate included; the constraints on aliases and occurrences hold, and the duplicate is
  -- marked as one. Otherwise the constraint on occurrences raises.
  pub merge_mosques_outcome :
      (actor : String) (reason : Option String) (db : Db)
      → get_mosque canonical.id db ≡ some canonical
      → get_mosque duplicate.id db ≡ some duplicate
      → All (IsNormal words) db.aliases
      → aliases_unique db.aliases ≡ true
      → ((occurrences_unique (move_schedules canonical.id duplicate.id db).occurrences ≡ true)
          × (db' : Db) × (merge_mosques words canonical.id duplicate.id actor reason db
              ≡ ok (canonical, db'))
          × IsMerged db db')
        ⊎ ((occurrences_unique (move_schedules canonical.id duplicate.id db).occurrences ≡ false)
            × (merge_mosques words canonical.id duplicate.id actor reason db ≡ err integrity_error))
  unfolding merge_found ensure_alias move_schedules move_requests
  merge_mosques_outcome actor reason db c d n u =
      let (u', n') = move_aliases_unique db n u in
      elim (Bool-cases
        (occurrences_unique (move_schedules canonical.id duplicate.id db).occurrences)) [
          | inl t ↦ inl (
            t,
            merged actor reason db,
            merge_mosques-found actor reason db c d (
                to_occurrences actor reason db u' (
                  bind-ok check_occurrences _ (with_schedules db)
                    (ap (λ b. raise_if (not b) integrity_error (with_schedules db)) t)
                    (bind-ok (ensure_alias words new (codes duplicate.name) SourceType.manual) _
                      (moved db)
                      (add_missing-ok words new old apart (codes duplicate.name) (is_known_in db)
                        SourceType.manual (moved db) refl n' u').0
                      refl))),
            merged-IsMerged actor reason db n u t,
          )
          | inr f ↦ inr (
            f,
            merge_mosques-found actor reason db c d (
                to_occurrences actor reason db u' (
                  bind-err check_occurrences _ (with_schedules db)
                    (ap (λ b. raise_if (not b) integrity_error (with_schedules db)) f))),
          )
        ]
