-- ===== src/Services/Identity/Moved.antt =====
-- Tables before and after a merge (services/admin_identity.py): rows that change hands or are dropped.
use uk_jamaat_directory.Prelude.{
  map, ◌||◌, true, sym, any-append, beq_refl, ◌≡◌, ◌≢◌, refl, ap, ◌∙◌, Bool, false, not, ◌==◌,
  nat_eq, Option, none, some, List, [], ◌∷◌, any, select, first, append-nil, arith, Bool-cases, inl,
  inr, if◌then◌else◌,
}
use uk_jamaat_directory.Prelude.Tables.{select-append}
use uk_jamaat_directory.Models.Rows.{Uuid, MosqueAttribute}
use uk_jamaat_directory.Schedules.Queries.{column_is}
use uk_jamaat_directory.Services.Identity.{reown, taken_attributes, moved_attributes}
use uk_jamaat_directory.Services.Identity.Owners.{
  reown_leaves_none, reown_spares_others, reown_gathers,
}

-- A table before and after its rows went from one mosque to another.
pub record IsMoved {A : Type 0} (owner : A → Option Uuid) (from new : Uuid) (rows rows' : List A)
    : Type 0 where
  pub leaves_none : any (λ a. column_is (owner a) from) rows' ≡ false
  pub spares_others :
      (m : Uuid)
      → m ≢ from
      → m ≢ new
      → select (λ a. column_is (owner a) m) rows' ≡ select (λ a. column_is (owner a) m) rows

pub reown-IsMoved :
    {A : Type 0} (owner : A → Option Uuid) (give : A → A) (from new : Uuid) (rows : List A)
    → ((a : A) → owner (give a) ≡ some new)
    → from ≢ new
    → IsMoved owner from new rows (reown owner give from rows)
reown-IsMoved owner give from new rows gives d = record {
  leaves_none = reown_leaves_none owner give from new gives rows d;
  spares_others = λ m e f. reown_spares_others owner give from new gives m rows e f;
}

-- A table whose rows all went over: the new owner has those of both, in their order and with every
-- other column as it was.
pub record IsGiven {A : Type 0} (owner : A → Option Uuid) (give : A → A) (from new : Uuid)
    (rows rows' : List A) : Type 0 where
  pub moved : IsMoved owner from new rows rows'
  pub gathers :
      map give (select (λ a. column_is (owner a) new) rows')
      ≡ map give (select (λ a. column_is (owner a) new || column_is (owner a) from) rows)

pub reown-IsGiven :
    {A : Type 0} (owner : A → Option Uuid) (give : A → A) (from new : Uuid) (rows : List A)
    → ((a : A) → owner (give a) ≡ some new)
    → ((a : A) → give (give a) ≡ give a)
    → from ≢ new
    → IsGiven owner give from new rows (reown owner give from rows)
reown-IsGiven owner give from new rows gives again d = record {
  moved = reown-IsMoved owner give from new rows gives d;
  gathers = reown_gathers owner give from new gives rows again;
}

module _ {A : Type 0} (key : A → Uuid) (from : Uuid) where
  pub dropped_none :
      (rows : List A) → any (λ a. key a == from) (select (λ a. not (key a == from)) rows) ≡ false
  dropped_none [] = refl
  dropped_none (a ∷ rows) = elim (Bool-cases (key a == from)) [
    | inl t ↦ rw t (dropped_none rows)
    | inr f ↦ rw f (rw f (dropped_none rows))
  ]

  pub dropped_spares :
      (m : Uuid) (rows : List A)
      → m ≢ from
      → select (λ a. key a == m) (select (λ a. not (key a == from)) rows)
        ≡ select (λ a. key a == m) rows
  dropped_spares m [] d = refl
  dropped_spares m (a ∷ rows) d = elim (Bool-cases (key a == from)) [
    | inl t ↦
        let off : (key a == m) ≡ false = ground (arith, d) in rw (t, off) (dropped_spares m rows d)
    | inr f ↦ rw f (ap (λ l. if key a == m then a ∷ l else l) (dropped_spares m rows d))
  ]

  dropped_any :
      (m : Uuid) (rows : List A)
      → m ≢ from
      → any (λ a. key a == m) (select (λ a. not (key a == from)) rows) ≡ any (λ a. key a == m) rows
  dropped_any m [] d = refl
  dropped_any m (a ∷ rows) d = elim (Bool-cases (key a == from)) [
    | inl t ↦
        let off : (key a == m) ≡ false = ground (arith, d) in rw (t, off) (dropped_any m rows d)
    | inr f ↦ rw f (ap (λ b. key a == m || b) (dropped_any m rows d))
  ]

  first-any-some :
      (rows : List A) {x : A}
      → first (λ a. key a == from) rows ≡ some x
      → any (λ a. key a == from) rows ≡ true
  first-any-some [] h = cc
  first-any-some (a ∷ rows) {x} h = elim (Bool-cases (key a == from)) [
    | inl t ↦ rw t refl
    | inr f ↦ rw f (first-any-some rows {x = x} (rw f at h))
  ]

  first-any-none :
      (rows : List A)
      → first (λ a. key a == from) rows ≡ none
      → any (λ a. key a == from) rows ≡ false
  first-any-none [] h = refl
  first-any-none (a ∷ rows) h = ground (arith, first-any-none rows)

pub moved_attributes-IsMoved :
    (canonical duplicate : Uuid) (own dup : Option MosqueAttribute) (rows : List MosqueAttribute)
    → first (λ a. a.mosque_id == duplicate) rows ≡ dup
    → duplicate ≢ canonical
    → IsMoved
        (λ a. some a.mosque_id)
        duplicate
        canonical
        rows
        (moved_attributes canonical duplicate dup own rows)
moved_attributes-IsMoved canonical duplicate own none rows h d = record {
  leaves_none = first-any-none (λ (a : MosqueAttribute). a.mosque_id) duplicate rows h;
  spares_others = λ m e f. refl;
}
moved_attributes-IsMoved canonical duplicate (some own) (some dup) rows h d = record {
  leaves_none = dropped_none (λ (a : MosqueAttribute). a.mosque_id) duplicate rows;
  spares_others = λ m e f. dropped_spares (λ (a : MosqueAttribute). a.mosque_id) duplicate m rows e;
}
moved_attributes-IsMoved canonical duplicate none (some dup) rows h d = record {
  leaves_none =
      dropped_none (λ (a : MosqueAttribute). a.mosque_id) duplicate
        (taken_attributes canonical dup none rows);
  spares_others = λ m e f.
      let off : (canonical == m) ≡ false = ground (arith, f) in
      dropped_spares (λ (a : MosqueAttribute). a.mosque_id) duplicate m
        (taken_attributes canonical dup none rows) e
      ∙ (rw
          (
            select-append (λ (a : MosqueAttribute). a.mosque_id == m) rows
                (record dup { mosque_id = canonical } ∷ []),
            off,
          )
          (append-nil (select (λ a. a.mosque_id == m) rows)));
}

-- The canonical mosque has attributes if one of both had.
pub moved_attributes_kept :
    (canonical duplicate : Uuid) (own dup : Option MosqueAttribute) (rows : List MosqueAttribute)
    → first (λ a. a.mosque_id == duplicate) rows ≡ dup
    → first (λ a. a.mosque_id == canonical) rows ≡ own
    → duplicate ≢ canonical
    → any (λ a. a.mosque_id == canonical) (moved_attributes canonical duplicate dup own rows)
      ≡ (any (λ a. a.mosque_id == canonical) rows || any (λ a. a.mosque_id == duplicate) rows)
moved_attributes_kept canonical duplicate own none rows h k d =
    let gone = first-any-none (λ (a : MosqueAttribute). a.mosque_id) duplicate rows h in
    ground arith
moved_attributes_kept canonical duplicate (some own) (some dup) rows h k d =
    let there = first-any-some (λ (a : MosqueAttribute). a.mosque_id) canonical rows {x = own} k in
    dropped_any (λ (a : MosqueAttribute). a.mosque_id) duplicate canonical rows (λ q. d (sym q))
    ∙ ground arith
moved_attributes_kept canonical duplicate none (some dup) rows h k d =
    let there = first-any-some (λ (a : MosqueAttribute). a.mosque_id) duplicate rows {x = dup} h in
    let taken = record dup { mosque_id = canonical } ∷ [] in
    dropped_any (λ (a : MosqueAttribute). a.mosque_id) duplicate canonical
      (taken_attributes canonical dup none rows) (λ q. d (sym q))
    ∙ any-append (λ (a : MosqueAttribute). a.mosque_id == canonical) rows taken
    ∙ ground (arith, beq_refl canonical)

pub none_selected :
    {A : Type 0} (p : A → Bool) (rows : List A) → any p rows ≡ false → select p rows ≡ []
none_selected p [] h = refl
none_selected p (a ∷ rows) h =
    let f : p a ≡ false = ground arith in rw f (none_selected p rows (ground arith))

pub selected_none :
    {A : Type 0} (p : A → Bool) (rows : List A) → select p rows ≡ [] → any p rows ≡ false
selected_none p [] h = refl
selected_none p (a ∷ rows) h = elim (Bool-cases (p a)) [
  | inl t ↦ let q : a ∷ select p rows ≡ [] = rw t at h in cc
  | inr f ↦ rw f (selected_none p rows (rw f at h))
]
