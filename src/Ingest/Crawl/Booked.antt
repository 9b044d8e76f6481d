-- ===== src/Ingest/Crawl/Booked.antt =====
-- What the end of a crawl writes (ingest/crawl/pipeline.py): the health of the source and its next
-- fetch.
use uk_jamaat_directory.Prelude.{
  ℕ, suc, ◌≤◌, ◌≡◌, ◌≢◌, refl, sym, ap, ◌∙◌, ◌==◌, nat_eq, Bool, true, false, String, Option, none,
  some, List, [], ◌∷◌, ◌++◌, first, first-eq-some, update_where, leb, arith, Bool-cases,
  Option-cases, inl, inr, if◌then◌else◌, beq_refl,
}
use uk_jamaat_directory.Domain.{source_failed}
use uk_jamaat_directory.Models.Calendar.{Instant}
use uk_jamaat_directory.Models.Rows.{Uuid, SourceHealth}
use uk_jamaat_directory.Models.Session.{Db, Session, ok, ◌>>=◌, ◌>>◌, modify, pure, get_health}
use uk_jamaat_directory.Schedules.Freshness.{health_or_new, new_health, save_health}
use uk_jamaat_directory.Ingest.Crawl.State.{touched, touch_source_health}

module _ {A : Type 0} (key : A → Uuid) (id : Uuid) (new : A) (same : key new ≡ id) where
  abbrev put_row : List A → List A
  put_row rows = update_where (λ a. key a == key new) (λ _. new) rows

  abbrev lookup : Uuid → List A → Option A
  lookup j rows = first (λ a. key a == j) rows

  put_row-found :
      {old : A} (rows : List A) → lookup id rows ≡ some old → lookup id (put_row rows) ≡ some new
  put_row-found [] h = cc
  put_row-found {old} (a ∷ rows) h = elim (Bool-cases (key a == id)) [
    | inl t ↦ rw (same, t, same, beq_refl id) refl
    | inr f ↦ rw same (rw (f, f) (put_row-found {old = old} rows (rw f at h)))
  ]

  put_row-new :
      (rows : List A) (blank : A)
      → key blank ≡ id
      → lookup id rows ≡ none
      → lookup id (put_row (rows ++ blank ∷ [])) ≡ some new
  put_row-new [] blank b h = rw (same, b, beq_refl id, same, beq_refl id) refl
  put_row-new (a ∷ rows) blank b h = elim (Bool-cases (key a == id)) [
    | inl t ↦ let q : some a ≡ none = rw t at h in cc
    | inr f ↦ rw same (rw (f, f) (put_row-new rows blank b (rw f at h)))
  ]

  put_row-other : (j : Uuid) (rows : List A) → j ≢ id → lookup j (put_row rows) ≡ lookup j rows
  put_row-other j [] d = refl
  put_row-other j (a ∷ rows) d = elim (Bool-cases (key a == id)) [
    | inl t ↦
        let off : (id == j) ≡ false = ground (arith, d) in
        let off' : (key a == j) ≡ false = ground (arith, d) in
        rw same (rw t (rw (same, off, off') (put_row-other j rows d)))
    | inr f ↦ rw same (rw f (ap (λ o. if key a == j then some a else o) (put_row-other j rows d)))
  ]

  append-other :
      (j : Uuid) (rows : List A) (blank : A)
      → key blank ≡ id
      → j ≢ id
      → lookup j (rows ++ blank ∷ []) ≡ lookup j rows
  append-other j [] blank b d = let off : (id == j) ≡ false = ground (arith, d) in rw (b, off) refl
  append-other j (a ∷ rows) blank b d =
      ap (λ o. if key a == j then some a else o) (append-other j rows blank b d)

module _ (now : Instant) (message : String) where
  touched-source_id :
      (success : Bool) (h : SourceHealth) → (touched now success message h).source_id ≡ h.source_id
  unfolding touched
  touched-source_id true h = refl
  touched-source_id false h = elim (Bool-cases (leb 3 (suc h.consecutive_failures))) [
    | inl t ↦ rw t refl
    | inr f ↦ rw f refl
  ]

  touched-failures :
      (success : Bool) (h : SourceHealth)
      → (touched now success message h).consecutive_failures
        ≡ (if success then 0 else suc h.consecutive_failures)
  unfolding touched
  touched-failures true h = refl
  touched-failures false h = elim (Bool-cases (leb 3 (suc h.consecutive_failures))) [
    | inl t ↦ rw t refl
    | inr f ↦ rw f refl
  ]

  touched-source_failed :
      (h : SourceHealth)
      → 2 ≤ h.consecutive_failures
      → (touched now false message h).freshness_status ≡ source_failed
  unfolding touched
  touched-source_failed h few =
      let t : leb 3 (suc h.consecutive_failures) ≡ true = ground arith in rw t refl

abbrev pub failures_of : Option SourceHealth → ℕ
failures_of none = 0
failures_of (some h) = h.consecutive_failures

-- The health of a source before and after a crawl.
pub record IsTouched (id : Uuid) (success : Bool) (health : SourceHealth) (db db' : Db)
    : Type 0 where
  pub found : get_health id db' ≡ some health
  pub failures :
      health.consecutive_failures ≡ (if success then 0 else suc (failures_of (get_health id db)))
  pub failed :
      success ≡ false → 3 ≤ health.consecutive_failures → health.freshness_status ≡ source_failed
  pub others : (j : Uuid) → j ≢ id → get_health j db' ≡ get_health j db
  pub sources : db'.sources ≡ db.sources
  pub candidates : db'.candidates ≡ db.candidates

module _ (now : Instant) (id : Uuid) (success : Bool) (message : String) where
  abbrev touch_with : Option SourceHealth → Session SourceHealth
  touch_with found = health_or_new id found >>= λ health.
      modify (save_health (touched now success message health))
      >> pure (touched now success message health)

  failed_thrice :
      (b : Bool) (h : SourceHealth)
      → b ≡ false
      → 3 ≤ (touched now b message h).consecutive_failures
      → (touched now b message h).freshness_status ≡ source_failed
  failed_thrice true h q few = cc
  failed_thrice false h q few =
      touched-source_failed now message h (omega (arith, few, touched-failures now message false h))

  abbrev pub Touches : Db → Type 0
  Touches db =
      (health : SourceHealth) × (db' : Db) × (touch_source_health now id success message db
        ≡ ok (health, db'))
      × IsTouched id success health db db'

  touch_missing : (db : Db) → get_health id db ≡ none → Touches db
  unfolding touch_source_health health_or_new
  touch_missing db m =
      let new = touched now success message (new_health id) in
      let same = touched-source_id now message success (new_health id) in
      (
        new,
        save_health new (record db { healths = db.healths ++ new_health id ∷ [] }),
        ap (λ o. touch_with o db) m,
        record {
          found =
              put_row-new (λ (h : SourceHealth). h.source_id) id new same db.healths (new_health id)
                refl m;
          failures =
              touched-failures now message success (new_health id)
              ∙ ap (λ o. if success then 0 else suc (failures_of o)) (sym m);
          failed = failed_thrice success (new_health id);
          others = λ j d.
              put_row-other (λ (h : SourceHealth). h.source_id) id new same j
                (db.healths ++ new_health id ∷ []) d
              ∙ append-other (λ (h : SourceHealth). h.source_id) id new same j db.healths
                  (new_health id) refl d;
          sources = refl;
          candidates = refl;
        },
      )

  touch_present : (old : SourceHealth) (db : Db) → get_health id db ≡ some old → Touches db
  unfolding touch_source_health health_or_new
  touch_present old db m =
      let new = touched now success message old in
      let old_id : old.source_id ≡ id =
        (nat_eq.beq_iff old.source_id id).0 (first-eq-some (λ x. x.source_id == id) db.healths m) in
      let same = touched-source_id now message success old ∙ old_id in
      (
        new,
        save_health new db,
        ap (λ o. touch_with o db) m,
        record {
          found =
              put_row-found (λ (h : SourceHealth). h.source_id) id new same {old = old} db.healths
                m;
          failures =
              touched-failures now message success old
              ∙ ap (λ o. if success then 0 else suc (failures_of o)) (sym m);
          failed = failed_thrice success old;
          others =
              λ j d. put_row-other (λ (h : SourceHealth). h.source_id) id new same j db.healths d;
          sources = refl;
          candidates = refl;
        },
      )

  pub touch_source_health-Touches : (db : Db) → Touches db
  touch_source_health-Touches db = elim (Option-cases (get_health id db)) [
    | inl m ↦ touch_missing db m
    | inr (old, m) ↦ touch_present old db m
  ]
