-- ===== src/Prelude/Dict.antt =====
-- A Python dict in insertion order, with keys compared by `==`, and the dict that a comprehension
-- builds from the rows of a query.
use mathlib.Core.Path.{◌≡◌, refl, sym, ◌∙◌}
use mathlib.Core.Bool.{Bool, true, false}
use mathlib.Core.Option.{Option, none, some}
use mathlib.Core.List.{List, [], ◌∷◌}
use native.Mathlib.Omega.{arith}
use uk_jamaat_directory.Prelude.Tests.{if◌then◌else◌, Bool-cases}
use uk_jamaat_directory.Prelude.Equality.{Eq, ◌==◌, beq_refl, beq_sym}
use uk_jamaat_directory.Prelude.Lists.{
  any, any-select-false, first, select, Member, here, there, any-Member, any-false-Member,
}
use mathlib.Core.Logic.{inl, inr}

abbrev pub Dict {ℓ} : Type ℓ → Type ℓ → Type ℓ
Dict K V = List (K × V)

module _ {ℓ} {K V : Type ℓ} ⦃e : Eq K⦄ where
  abbrev pub lookup : K → Dict K V → Option V
  lookup key [] = none
  lookup key ((j, v) ∷ d) = if j == key then some v else lookup key d

  -- `d[k] = v`
  abbrev pub insert : K → V → Dict K V → Dict K V
  insert k v [] = (k, v) ∷ []
  insert k v ((j, w) ∷ d) = if j == k then (j, v) ∷ d else (j, w) ∷ insert k v d

  pub lookup-insert :
      (k j : K) (v : V) (d : Dict K V)
      → lookup j (insert k v d) ≡ (if k == j then some v else lookup j d)
  lookup-insert k j v [] = refl
  lookup-insert k j v ((i, w) ∷ d) =
      ground (arith, e.beq_iff k j, e.beq_iff i k, e.beq_iff i j, lookup-insert k j v d)

module _ {ℓ} {A K V : Type ℓ} ⦃e : Eq K⦄ where
  -- `{key(x): value(x) for x in rows}`, added to a dict: the last row of a key wins.
  abbrev pub from_rows : (A → K) → (A → V) → List A → Dict K V → Dict K V
  from_rows key value [] d = d
  from_rows key value (x ∷ rows) d = from_rows key value rows (insert (key x) (value x) d)

-- No two rows have the same key.
module _ {ℓ} {A K : Type ℓ} ⦃e : Eq K⦄ where
  abbrev pub Distinct : (A → K) → List A → Type 0
  Distinct key [] = Unit
  Distinct key (x ∷ xs) = (any (λ y. key y == key x) xs ≡ false) × Distinct key xs

  abbrev pub find : (A → K) → K → List A → Option A
  find key k xs = first (λ x. key x == k) xs

  pub find-none :
      (key : A → K) (k : K) (xs : List A) → any (λ y. key y == k) xs ≡ false → find key k xs ≡ none
  find-none key k [] h = refl
  find-none key k (x ∷ xs) h = ground (arith, find-none key k xs)

  pub Distinct-select :
      (key : A → K) (p : A → Bool) (xs : List A) → Distinct key xs → Distinct key (select p xs)
  Distinct-select key p [] h = tt
  Distinct-select key p (x ∷ xs) h = elim (Bool-cases (p x)) [
    | inl t ↦ rw t (any-select-false _ p xs h.0, Distinct-select key p xs h.1)
    | inr t ↦ rw t (Distinct-select key p xs h.1)
  ]

  -- A lookup by key among the rows of a query finds what it finds in the table, if the query keeps
  -- the rows with that key.
  pub find-select :
      (key : A → K) (k : K) (p : A → Bool) (xs : List A)
      → ((x : A) → key x ≡ k → p x ≡ true)
      → find key k (select p xs) ≡ find key k xs
  find-select key k p [] keep = refl
  find-select key k p (x ∷ xs) keep = elim (Bool-cases (key x == k)) [
    | inl t ↦ rw (keep x ((e.beq_iff (key x) k).0 t)) (rw t)
    | inr f ↦ elim (Bool-cases (p x)) [
      | inl t ↦ rw t (rw f (find-select key k p xs keep))
      | inr t ↦ rw t (rw f (find-select key k p xs keep))
    ]
  ]

abbrev pub or_else {ℓ} : {V : Type ℓ} → Option V → Option V → Option V
or_else (some v) other = some v
or_else none other = other

abbrev pub value_of {ℓ} : {A V : Type ℓ} → (A → V) → Option A → Option V
value_of value none = none
value_of value (some x) = some (value x)

pub or_else-none {ℓ} : {V : Type ℓ} (o : Option V) → or_else o none ≡ o
or_else-none none = refl
or_else-none (some v) = refl

pub value_of_id {ℓ} : {V : Type ℓ} (o : Option V) → or_else (value_of (λ v. v) o) none ≡ o
value_of_id none = refl
value_of_id (some v) = refl

module _ {ℓ} {A K V : Type ℓ} ⦃e : Eq K⦄ where
  -- With distinct keys the comprehension's dict finds the row of a key.
  pub lookup-from_rows :
      (key : A → K) (value : A → V) (k : K) (rows : List A) (d : Dict K V)
      → Distinct key rows
      → lookup k (from_rows key value rows d)
        ≡ or_else (value_of value (find key k rows)) (lookup k d)
  lookup-from_rows key value k [] d h = refl
  lookup-from_rows key value k (x ∷ rows) d h =
      rw (lookup-from_rows key value k rows (insert (key x) (value x) d) h.1) (
        rw (lookup-insert (key x) k (value x) d) (elim (Bool-cases (key x == k)) [
          | inl t ↦ rw (find-none key k rows (rw ((e.beq_iff (key x) k).0 t) at h.0), t)
          | inr f ↦ rw f
        ]))

module _ {ℓ} {A K : Type ℓ} ⦃e : Eq K⦄ (key : A → K) where
  pub find-Member :
      {a : A} {xs : List A} → Distinct key xs → Member a xs → find key (key a) xs ≡ some a
  find-Member {a} d (here q) = rw (q, beq_refl (key a))
  find-Member {a} d (there {x = x} {xs = xs} m) = elim (Bool-cases (key x == key a)) [
    | inl t ↦
        let q : (key a == key x) ≡ true =
          (e.beq_iff (key a) (key x)).1 (sym ((e.beq_iff (key x) (key a)).0 t)) in
        let r : any (λ y. key y == key x) xs ≡ true = any-Member (λ y. key y == key x) m q in cc
    | inr f ↦ rw f (find-Member d.1 m)
  ]

  -- A query that drops a row of a table with distinct keys drops its key.
  pub key_dropped :
      (p : A → Bool) {a : A} {xs : List A}
      → Distinct key xs
      → Member a xs
      → p a ≡ false
      → any (λ y. key y == key a) (select p xs) ≡ false
  key_dropped p {a} d (here {x = x} {xs = xs} q) h =
      let gone : any (λ y. key y == key a) xs ≡ false = rw q at d.0 in
      let f : p x ≡ false = rw q h in rw f (any-select-false (λ y. key y == key a) p xs gone)
  key_dropped p {a} d (there {x = x} {xs = xs} m) h =
      let ih = key_dropped p d.1 m h in
      let other : (key a == key x) ≡ false = any-false-Member (λ y. key y == key x) m d.0 in
      elim (Bool-cases (p x)) [
        | inl t ↦ rw t (rw (beq_sym (key x) (key a) ∙ other) ih)
        | inr f ↦ rw f ih
      ]

  -- The dict of a query's rows finds the row that the table holds, if the query keeps its key.
  pub lookup-query :
      (p : A → Bool) (k : K) (rows : List A)
      → Distinct key rows
      → ((x : A) → key x ≡ k → p x ≡ true)
      → lookup k (from_rows key (λ x. x) (select p rows) []) ≡ find key k rows
  lookup-query p k rows d keep =
      rw (lookup-from_rows key (λ x. x) k (select p rows) [] (Distinct-select key p rows d))
        (rw (find-select key k p rows keep) (value_of_id (find key k rows)))
