-- ===== src/Services/Contributions/Tidy.antt =====
-- What an upsert of schedules/candidates.py keeps of the candidates of one source: distinct ids and
-- at most one active candidate for each session.
use uk_jamaat_directory.Prelude.{
  ◌<◌, ◌≤◌, ◌≡◌, refl, sym, ap, ◌∙◌, ◌==◌, nat_eq, option_eq, Bool, true, false, not, ◌&&◌, ◌||◌,
  &&-eq-true, beq-eq, beq_refl, Option, none, some, List, [], ◌∷◌, ◌++◌, select, select_eq, any,
  any-append, length, update_where, All, All-append, All-map, arith, Bool-cases, inl, inr,
}
use uk_jamaat_directory.Prelude.Dict.{Distinct}
use uk_jamaat_directory.Prelude.Int.{int_eq}
use uk_jamaat_directory.Domain.{prayer_eq}
use uk_jamaat_directory.Models.Rows.{Uuid, ScheduleCandidate}
use uk_jamaat_directory.Models.Session.{Db}
use uk_jamaat_directory.Models.Triples.{Ensures}
use uk_jamaat_directory.Models.Columns.{fits_integer}
use uk_jamaat_directory.Schedules.Queries.{column_is}
use uk_jamaat_directory.Schedules.Prefetch.{is_active}
use uk_jamaat_directory.Schedules.Approval.{save_candidate}
use uk_jamaat_directory.Schedules.Candidates.{
  Upsert, is_for, matches, is_unchanged, superseded, updated, new_candidate, add_candidate,
  columns_fit, upsert_found, upsert_schedule_candidate,
}
use uk_jamaat_directory.Schedules.Candidates.Single.{other_session, IsSettled}

pub select_within :
    {A : Type 0} (p q : A → Bool) (xs : List A)
    → ((x : A) → p x ≡ true → q x ≡ true)
    → select p (select q xs) ≡ select p xs
select_within p q [] h = refl
select_within p q (x ∷ xs) h = elim (Bool-cases (p x)) [
  | inl t ↦ rw (h x t, t) (ap (λ l. x ∷ l) (select_within p q xs h))
  | inr f ↦ elim (Bool-cases (q x)) [
    | inl t ↦ rw (t, f) (select_within p q xs h)
    | inr n ↦ rw (n, f) (select_within p q xs h)
  ]
]

-- Ids that are distinct and given out.
pub record IsNumbered (db : Db) : Type 0 where
  pub distinct : Distinct (λ (c : ScheduleCandidate). c.id) db.candidates
  pub given : All (λ (c : ScheduleCandidate). c.id < db.next_id) db.candidates

id_of : ScheduleCandidate → Uuid
id_of c = c.id

put : ScheduleCandidate → List ScheduleCandidate → List ScheduleCandidate
put c cs = update_where (λ (r : ScheduleCandidate). r.id == c.id) (λ r. c) cs

any-put :
    (c : ScheduleCandidate) (k : Uuid) (cs : List ScheduleCandidate)
    → any (λ (r : ScheduleCandidate). r.id == k) (put c cs)
      ≡ any (λ (r : ScheduleCandidate). r.id == k) cs
unfolding put
any-put c k [] = refl
any-put c k (x ∷ xs) = elim (Bool-cases (x.id == c.id)) [
  | inl t ↦
      let q : x.id ≡ c.id = beq-eq t in rw (t, q) (ap (λ b. (c.id == k) || b) (any-put c k xs))
  | inr f ↦ rw f (ap (λ b. (x.id == k) || b) (any-put c k xs))
]

Distinct-put :
    (c : ScheduleCandidate) (cs : List ScheduleCandidate)
    → Distinct (λ (r : ScheduleCandidate). r.id) cs
    → Distinct (λ (r : ScheduleCandidate). r.id) (put c cs)
unfolding put
Distinct-put c [] d = tt
Distinct-put c (x ∷ xs) d = elim (Bool-cases (x.id == c.id)) [
  | inl t ↦
      let q : x.id ≡ c.id = beq-eq t in
      rw t (any-put c c.id xs ∙ (rw q at d.0), Distinct-put c xs d.1)
  | inr f ↦ rw f (any-put c x.id xs ∙ d.0, Distinct-put c xs d.1)
]

given-put :
    (c : ScheduleCandidate) (k : Uuid) (cs : List ScheduleCandidate)
    → All (λ (r : ScheduleCandidate). r.id < k) cs
    → All (λ (r : ScheduleCandidate). r.id < k) (put c cs)
unfolding put
given-put c k [] h = tt
given-put c k (x ∷ xs) h = elim (Bool-cases (x.id == c.id)) [
  | inl t ↦
      let q : x.id ≡ c.id = beq-eq t in rw t (let n = h.0 in omega (arith, q), given-put c k xs h.1)
  | inr f ↦ rw f (h.0, given-put c k xs h.1)
]

saved-IsNumbered :
    (c : ScheduleCandidate) (db : Db) → IsNumbered db → IsNumbered (save_candidate c db)
unfolding put
saved-IsNumbered c db n = record {
  distinct = Distinct-put c db.candidates n.distinct;
  given = given-put c db.next_id db.candidates n.given;
}

Distinct-behind :
    (cs : List ScheduleCandidate) (c : ScheduleCandidate)
    → Distinct (λ (r : ScheduleCandidate). r.id) cs
    → All (λ (r : ScheduleCandidate). r.id < c.id) cs
    → Distinct (λ (r : ScheduleCandidate). r.id) (cs ++ c ∷ [])
Distinct-behind [] c d h = (refl, tt)
Distinct-behind (x ∷ xs) c d h = (
  any-append (λ (r : ScheduleCandidate). r.id == x.id) xs (c ∷ [])
      ∙ (let e = d.0 in let n = h.0 in ground arith),
  Distinct-behind xs c d.1 h.1,
)

added-IsNumbered : (u : Upsert) (db : Db) → IsNumbered db → IsNumbered (add_candidate u db)
unfolding add_candidate new_candidate
added-IsNumbered u db n = record {
  distinct = Distinct-behind db.candidates (new_candidate u db.next_id) n.distinct n.given;
  given =
      All-append _ db.candidates _ (All-map _ _ db.candidates (λ c h. omega arith) n.given)
        (omega arith, tt);
}

found-IsNumbered :
    (u : Upsert) (o : Option ScheduleCandidate) (db : Db)
    → IsNumbered db
    → Ensures (λ flags db'. IsNumbered db') (upsert_found u o db)
unfolding upsert_found Ensures
found-IsNumbered u none db n = elim (Bool-cases (columns_fit u)) [
  | inl fit ↦ rw fit (added-IsNumbered u db n)
  | inr m ↦ rw m tt
]
found-IsNumbered u (some c) db n = elim (Bool-cases (is_unchanged u c)) [
  | inl same ↦ rw same n
  | inr changed ↦ elim (Bool-cases (columns_fit u)) [
    | inl fit ↦ elim (Bool-cases (c.extraction_run_id == u.extraction_run_id)) [
      | inl same_run ↦ rw (changed, same_run, fit) (saved-IsNumbered (updated u c) db n)
      | inr other ↦
          rw (changed, other, fit)
            (added-IsNumbered u (save_candidate (superseded c) db)
              (saved-IsNumbered (superseded c) db n))
    ]
    | inr m ↦ elim (Bool-cases (c.extraction_run_id == u.extraction_run_id)) [
      | inl same_run ↦ rw (changed, same_run, m) tt
      | inr other ↦ rw (changed, other, m) tt
    ]
  ]
]

pub upsert_schedule_candidate-IsNumbered :
    (newest : List ScheduleCandidate → Option ScheduleCandidate) (u : Upsert) (db : Db)
    → IsNumbered db
    → Ensures (λ flags db'. IsNumbered db') (upsert_schedule_candidate newest u db)
unfolding upsert_schedule_candidate Ensures
upsert_schedule_candidate-IsNumbered newest u db n =
    elim (Bool-cases (fits_integer u.row.session_number)) [
      | inl f ↦ rw f (found-IsNumbered u (newest (select (matches u) db.candidates)) db n)
      | inr m ↦ rw m tt
    ]

-- Rows for one session of the mosque and source.
abbrev pub same_session : Upsert → Upsert → Bool
same_session v u =
    v.row.date == u.row.date
    && (v.row.prayer == u.row.prayer && v.row.session_number == u.row.session_number)

module _ (u v : Upsert) (mosque : v.mosque.id ≡ u.mosque.id)
    (source : v.source.id ≡ u.source.id) where
  is_for_same : (x : ScheduleCandidate) → same_session v u ≡ true → is_for v x ≡ is_for u x
  unfolding is_for
  is_for_same x h =
      let (d, h1) = &&-eq-true (v.row.date == u.row.date) _ h in
      let (p, n) = &&-eq-true (v.row.prayer == u.row.prayer) _ h1 in
      let d' : v.row.date ≡ u.row.date = beq-eq d in
      let p' : v.row.prayer ≡ u.row.prayer = beq-eq p in
      let n' : v.row.session_number ≡ u.row.session_number = beq-eq n in
      rw (mosque, source, d', p', n') refl

  matches_same : (x : ScheduleCandidate) → same_session v u ≡ true → matches v x ≡ matches u x
  unfolding matches
  matches_same x h = rw (is_for_same x h) refl

  both_same :
      (x : ScheduleCandidate) → is_for v x ≡ true → is_for u x ≡ true → same_session v u ≡ true
  unfolding is_for
  both_same x a b =
      let (a1, a2) = &&-eq-true (column_is x.mosque_id v.mosque.id) _ a in
      let (a3, a4) = &&-eq-true (x.source_id == v.source.id) _ a2 in
      let (ad, a5) = &&-eq-true (x.date == v.row.date) _ a4 in
      let (ap', an) = &&-eq-true (x.prayer == v.row.prayer) _ a5 in
      let (b1, b2) = &&-eq-true (column_is x.mosque_id u.mosque.id) _ b in
      let (b3, b4) = &&-eq-true (x.source_id == u.source.id) _ b2 in
      let (bd, b5) = &&-eq-true (x.date == u.row.date) _ b4 in
      let (bp, bn) = &&-eq-true (x.prayer == u.row.prayer) _ b5 in
      let d : v.row.date ≡ u.row.date = sym (beq-eq ad) ∙ beq-eq bd in
      let p : v.row.prayer ≡ u.row.prayer = sym (beq-eq ap') ∙ beq-eq bp in
      let n : v.row.session_number ≡ u.row.session_number = sym (beq-eq an) ∙ beq-eq bn in
      rw (d, p, n, beq_refl u.row.date, beq_refl u.row.prayer, beq_refl u.row.session_number) refl

  matches-other :
      same_session v u ≡ false
      → (x : ScheduleCandidate) → matches v x ≡ true
      → other_session u x ≡ true
  unfolding matches
  matches-other f x m =
      let a = (&&-eq-true (is_for v x) (is_active x) m).0 in
      elim (Bool-cases (is_for u x)) [ inl b ↦ let s = both_same x a b in cc | inr n ↦ ap not n ]

  -- An upsert leaves the candidates for another session of its source.
  pub settled_other :
      (db db' : Db) (c : ScheduleCandidate)
      → IsSettled u db db' c
      → same_session v u ≡ false
      → select (matches v) db'.candidates ≡ select (matches v) db.candidates
  settled_other db db' c s f =
      sym (select_within (matches v) (other_session u) db'.candidates (matches-other f))
      ∙ (ap (select (matches v)) s.others
          ∙ select_within (matches v) (other_session u) db.candidates (matches-other f))

  pub settled_few :
      (db db' : Db) (c : ScheduleCandidate)
      → IsSettled u db db' c
      → length (select (matches v) db.candidates) ≤ 1
      → length (select (matches v) db'.candidates) ≤ 1
  settled_few db db' c s few = elim (Bool-cases (same_session v u)) [
    | inl t ↦
        rw (select_eq (matches v) (matches u) db'.candidates (λ x. matches_same x t) ∙ s.one)
          (omega arith)
    | inr f ↦ rw (settled_other db db' c s f) few
  ]
