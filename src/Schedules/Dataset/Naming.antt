-- ===== src/Schedules/Dataset/Naming.antt =====
-- The names of a day's versions (schedules/dataset.py), from one publication to the next.
use uk_jamaat_directory.Prelude.{
  ℕ, zero, suc, ◌+◌, ◌<◌, ◌≡◌, refl, sym, ap, ◌∙◌, nat_eq, Bool, true, false, List, [], ◌∷◌, ◌++◌,
  any, arith, beq_refl, append_assoc,
}
use uk_jamaat_directory.Models.Calendar.{Date, Instant}
use uk_jamaat_directory.Models.Rows.{dated, DatasetVersion}
use uk_jamaat_directory.Models.Session.{Db, ok, err, integrity_error}
use uk_jamaat_directory.Schedules.Dataset.{
  digits, digits_from, value_from, patch_of, patch_of_name, patches_of_day, greatest, next_patch,
  patch_same, name_taken, new_version, create_published_dataset_version,
}

-- The patch texts "1" to the text of `n`, in the order of their rows.
abbrev pub issued : ℕ → List (List ℕ)
issued zero = []
issued (suc n) = issued n ++ digits (suc n) ∷ []

patches_of_day-append :
    (day : Date) (vs : List DatasetVersion) (v : DatasetVersion) (patch : List ℕ)
    → v.version ≡ dated day patch
    → patches_of_day day (vs ++ v ∷ []) ≡ patches_of_day day vs ++ patch ∷ []
unfolding patches_of_day
patches_of_day-append day [] v patch h = rw (h, beq_refl day)
patches_of_day-append day (x ∷ vs) v patch h =
    ap (λ l. patch_of_name day x.version ++ l) (patches_of_day-append day vs v patch h)
    ∙ sym (append_assoc (patch_of_name day x.version) (patches_of_day day vs) (patch ∷ []))

-- The next text of a day with so many versions.
abbrev NextIs : ℕ → List ℕ → Bool → Type 0
NextIs n patch taken = (next_patch (issued n) ≡ patch) × (any (patch_same patch) (issued n) ≡ taken)

next_of_nine : (n : ℕ) → n < 10 → NextIs n (digits (suc n)) false
unfolding next_patch greatest digits digits_from patch_of value_from
next_of_nine zero h = (refl, refl)
next_of_nine (suc zero) h = (refl, refl)
next_of_nine (suc (suc zero)) h = (refl, refl)
next_of_nine (suc (suc (suc zero))) h = (refl, refl)
next_of_nine (suc (suc (suc (suc zero)))) h = (refl, refl)
next_of_nine (suc (suc (suc (suc (suc zero))))) h = (refl, refl)
next_of_nine (suc (suc (suc (suc (suc (suc zero)))))) h = (refl, refl)
next_of_nine (suc (suc (suc (suc (suc (suc (suc zero))))))) h = (refl, refl)
next_of_nine (suc (suc (suc (suc (suc (suc (suc (suc zero)))))))) h = (refl, refl)
next_of_nine (suc (suc (suc (suc (suc (suc (suc (suc (suc zero))))))))) h = (refl, refl)
next_of_nine (suc (suc (suc (suc (suc (suc (suc (suc (suc (suc n)))))))))) h = absurd (omega arith)

next_of_ten : NextIs 10 (digits 10) true
unfolding next_patch greatest digits digits_from patch_of value_from
next_of_ten = (refl, refl)

module _ (day : Date) (now : Instant) (db : Db) (n : ℕ)
    (day_rows : patches_of_day day db.versions ≡ issued n) where
  named_next :
      n < 10
      → let version = new_version db.next_id day (digits (suc n)) now in
        let db' = record db { versions = db.versions ++ version ∷ []; next_id = db.next_id + 1 } in
        create_published_dataset_version day now db ≡ ok (version, db')
  unfolding create_published_dataset_version name_taken
  named_next few = let next = next_of_nine n few in rw day_rows (rw next.0 (rw next.1 refl))

  stuck : n ≡ 10 → create_published_dataset_version day now db ≡ err integrity_error
  unfolding create_published_dataset_version name_taken
  stuck ten =
      let rows : patches_of_day day db.versions ≡ issued 10 = day_rows ∙ ap issued ten in
      rw rows (rw next_of_ten.0 (rw next_of_ten.1 refl))

  -- On a day whose versions are numbered from 1 to `n`, in any day's table: while `n` is below 10,
  -- creating a version succeeds, adds the row with the number after `n`, and leaves the day's
  -- versions numbered from 1 to that; but with 10 of them, creating another always breaks the unique
  -- constraint on the name, because the names are compared as texts and "9" comes after "10".
  pub create_published_dataset_version_of_day :
      (n < 10
        → (version : DatasetVersion) × (db' : Db) × (create_published_dataset_version day now db
            ≡ ok (version, db'))
          × (version.version ≡ dated day (digits (suc n)))
          × (patches_of_day day db'.versions ≡ issued (suc n)))
      × (n ≡ 10 → create_published_dataset_version day now db ≡ err integrity_error)
  create_published_dataset_version_of_day = (
    (λ few.
        let version = new_version db.next_id day (digits (suc n)) now in
        (
          version,
          record db { versions = db.versions ++ version ∷ []; next_id = db.next_id + 1 },
          named_next few,
          refl,
          patches_of_day-append day db.versions version (digits (suc n)) refl
              ∙ ap (λ l. l ++ digits (suc n) ∷ []) day_rows,
        )),
    stuck,
  )
