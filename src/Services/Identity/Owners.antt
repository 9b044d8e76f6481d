-- ===== src/Services/Identity/Owners.antt =====
-- Rows that change hands (services/admin_identity.py): the old owner has none left, and those of a
-- third are untouched.
use uk_jamaat_directory.Prelude.{
  map, ◌||◌, beq_refl, ◌≡◌, ◌≢◌, refl, ap, Bool, true, false, ◌==◌, nat_eq, Option, none, some,
  List, [], ◌∷◌, any, select, arith, Bool-cases, inl, inr, if◌then◌else◌,
}
use uk_jamaat_directory.Models.Rows.{Uuid}
use uk_jamaat_directory.Schedules.Queries.{column_is}
use uk_jamaat_directory.Services.Identity.{reown}

column_is-other :
    (o : Option Uuid) (m n : Uuid) → column_is o m ≡ true → m ≢ n → column_is o n ≡ false
column_is-other none m n h d = cc
column_is-other (some k) m n h d = ground (arith, d)

module _ {A : Type 0} (owner : A → Option Uuid) (give : A → A) (from new : Uuid)
    (gives : (a : A) → owner (give a) ≡ some new) where
  abbrev pub owned_by : Uuid → A → Bool
  owned_by m a = column_is (owner a) m

  pub reown_leaves_none :
      (rows : List A) → from ≢ new → any (owned_by from) (reown owner give from rows) ≡ false
  unfolding reown
  reown_leaves_none [] d = refl
  reown_leaves_none (a ∷ rows) d = elim (Bool-cases (owned_by from a)) [
    | inl t ↦ rw (t, gives a) (ground (arith, reown_leaves_none rows d))
    | inr f ↦ rw (f, f) (reown_leaves_none rows d)
  ]

  pub reown_spares_others :
      (m : Uuid) (rows : List A)
      → m ≢ from
      → m ≢ new
      → select (owned_by m) (reown owner give from rows) ≡ select (owned_by m) rows
  unfolding reown
  reown_spares_others m [] d e = refl
  reown_spares_others m (a ∷ rows) d e = elim (Bool-cases (owned_by from a)) [
    | inl t ↦
        let other : owned_by m a ≡ false = column_is-other (owner a) from m t (λ q. d (cc)) in
        let off : (new == m) ≡ false = ground (arith, e) in
        rw (t, gives a, off, other) (reown_spares_others m rows d e)
    | inr f ↦ rw f (ap (λ l. if owned_by m a then a ∷ l else l) (reown_spares_others m rows d e))
  ]

  -- The new owner has the rows of both, in their order, which differ in nothing but the owner.
  pub reown_gathers :
      (rows : List A)
      → ((a : A) → give (give a) ≡ give a)
      → map give (select (owned_by new) (reown owner give from rows))
        ≡ map give (select (λ a. owned_by new a || owned_by from a) rows)
  unfolding reown
  reown_gathers [] i = refl
  reown_gathers (a ∷ rows) i = elim (Bool-cases (owned_by from a)) [
    | inl t ↦
        let both : (owned_by new a || owned_by from a) ≡ true = ground (arith, t) in
        rw (both, t)
          (rw (gives a, beq_refl new) (rw (i a) (ap (λ l. give a ∷ l) (reown_gathers rows i))))
    | inr f ↦ elim (Bool-cases (owned_by new a)) [
      | inl t ↦
          let both : (owned_by new a || owned_by from a) ≡ true = ground (arith, t) in
          rw (both, f) (rw t (ap (λ l. give a ∷ l) (reown_gathers rows i)))
      | inr n ↦
          let neither : (owned_by new a || owned_by from a) ≡ false = ground (arith, n, f) in
          rw (neither, f) (rw n (reown_gathers rows i))
    ]
  ]
