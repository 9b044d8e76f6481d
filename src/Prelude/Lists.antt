-- ===== src/Prelude/Lists.antt =====
-- Lists as tables and sets: the queries and updates that the components share, and their laws.
use Prim.Native.Nat.{ℕ, zero, suc, ◌+◌}
use mathlib.Core.Path.{◌≡◌, refl, ap}
use mathlib.Core.Logic.{◌⊎◌, inl, inr}
use mathlib.Core.Bool.{Bool, true, false, ◌&&◌, ◌||◌}
use mathlib.Core.Option.{Option, none, some}
use mathlib.Core.List.{List, [], ◌∷◌, ◌++◌, map}
use native.Mathlib.Omega.{arith}
use uk_jamaat_directory.Prelude.Tests.{if◌then◌else◌, Bool-cases}
use uk_jamaat_directory.Prelude.Equality.{Eq, ◌==◌, beq_refl}

module _ {ℓ} {A : Type ℓ} where
  abbrev pub length : List A → ℕ
  length [] = 0
  length (x ∷ xs) = suc (length xs)

  -- SELECT ... WHERE p, in the order of the table; a comprehension with an `if`.
  abbrev pub select : (A → Bool) → List A → List A
  select p [] = []
  select p (x ∷ xs) = if p x then x ∷ select p xs else select p xs

  -- The first row that meets the condition.
  abbrev pub first : (A → Bool) → List A → Option A
  first p [] = none
  first p (x ∷ xs) = if p x then some x else first p xs

  abbrev pub any : (A → Bool) → List A → Bool
  any p [] = false
  any p (x ∷ xs) = p x || any p xs

  abbrev pub all : (A → Bool) → List A → Bool
  all p [] = true
  all p (x ∷ xs) = p x && all p xs

  -- Assignments to the attributes of the rows that meet the condition.
  abbrev pub update_where : (A → Bool) → (A → A) → List A → List A
  update_where p f [] = []
  update_where p f (x ∷ xs) = (if p x then f x else x) ∷ update_where p f xs

  abbrev pub All {κ} : (A → Type κ) → List A → Type κ
  All P [] = Unit
  All P (x ∷ xs) = P x × All P xs

  pub All-append {κ} :
      (P : A → Type κ) (front back : List A) → All P front → All P back → All P (front ++ back)
  All-append P [] back a b = b
  All-append P (x ∷ front) back a b = (a.0, All-append P front back a.1 b)

  pub All-map {κ μ} :
      (P : A → Type κ) (Q : A → Type μ) (xs : List A) → ((x : A) → P x → Q x) → All P xs → All Q xs
  All-map P Q [] f h = tt
  All-map P Q (x ∷ xs) f h = (f x h.0, All-map P Q xs f h.1)

  pub All-zip {κ μ ν} :
      (P : A → Type κ) (Q : A → Type μ) (R : A → Type ν) (xs : List A)
      → ((x : A) → P x → Q x → R x)
      → All P xs
      → All Q xs
      → All R xs
  All-zip P Q R [] f h k = tt
  All-zip P Q R (x ∷ xs) f h k = (f x h.0 k.0, All-zip P Q R xs f h.1 k.1)

  pub All-select {κ} :
      (P : A → Type κ) (p : A → Bool) (xs : List A) → All P xs → All P (select p xs)
  All-select P p [] h = tt
  All-select P p (x ∷ xs) h = elim (Bool-cases (p x)) [
    | inl e ↦ rw e (h.0, All-select P p xs h.1)
    | inr e ↦ rw e (All-select P p xs h.1)
  ]

  -- What a query returns meets its condition.
  pub select-All : (p : A → Bool) (xs : List A) → All (λ x. p x ≡ true) (select p xs)
  select-All p [] = tt
  select-All p (x ∷ xs) = elim (Bool-cases (p x)) [
    | inl e ↦ rw e (e, select-All p xs)
    | inr e ↦ rw e (select-All p xs)
  ]

  pub first-eq-some : (p : A → Bool) (xs : List A) {x : A} → first p xs ≡ some x → p x ≡ true
  first-eq-some p [] h = cc
  first-eq-some p (y ∷ xs) {x} h = ground (arith, first-eq-some p xs {x = x})

  pub first-All {κ} :
      (P : A → Type κ) (p : A → Bool) (xs : List A) {x : A} → All P xs → first p xs ≡ some x → P x
  first-All P p [] a h = cc
  first-All P p (y ∷ xs) {x} a h = elim (Bool-cases (p y)) [
    | inl e ↦ let q : some y ≡ some x = rw e at h in let r : y ≡ x = cc in rw r at a.0
    | inr e ↦ first-All P p xs a.1 (rw e at h)
  ]

  pub length-append : (xs ys : List A) → length (xs ++ ys) ≡ length xs + length ys
  length-append [] ys = omega arith
  length-append (x ∷ xs) ys = omega (arith, length-append xs ys)

  pub any-append : (p : A → Bool) (xs ys : List A) → any p (xs ++ ys) ≡ (any p xs || any p ys)
  any-append p [] ys = refl
  any-append p (x ∷ xs) ys = ground (arith, any-append p xs ys)

  pub any-select-false :
      (q p : A → Bool) (xs : List A) → any q xs ≡ false → any q (select p xs) ≡ false
  any-select-false q p [] h = refl
  any-select-false q p (x ∷ xs) h = ground (arith, any-select-false q p xs)

  pub select_eq : (p q : A → Bool) (xs : List A) → ((x : A) → p x ≡ q x) → select p xs ≡ select q xs
  select_eq p q [] h = refl
  select_eq p q (x ∷ xs) h = rw (h x, select_eq p q xs h)

  pub any-false-and :
      (p q : A → Bool) (xs : List A) → any p xs ≡ false → any (λ x. p x && q x) xs ≡ false
  any-false-and p q [] h = refl
  any-false-and p q (x ∷ xs) h = ground (arith, any-false-and p q xs)

  select_cons :
      (q : A → Bool) (b : Bool) (x : A) (xs : List A)
      → select q (if b then x ∷ xs else xs) ≡ (if b && q x then x ∷ select q xs else select q xs)
  select_cons q true x xs = refl
  select_cons q false x xs = refl

  -- Under a query, two queries are one that agree where the outer condition holds.
  pub select-select_eq :
      (q p p' : A → Bool) (xs : List A)
      → ((x : A) → q x ≡ true → p x ≡ p' x)
      → select q (select p xs) ≡ select q (select p' xs)
  select-select_eq q p p' [] h = refl
  select-select_eq q p p' (x ∷ xs) h =
      rw (select_cons q (p x) x (select p xs), select_cons q (p' x) x (select p' xs))
        (ground (arith, h x, select-select_eq q p p' xs h))

  pub update_where_none :
      (p : A → Bool) (f : A → A) (xs : List A) → any p xs ≡ false → update_where p f xs ≡ xs
  update_where_none p f [] h = refl
  update_where_none p f (x ∷ xs) h = ground (arith, update_where_none p f xs)

  pub update_where-append :
      (p : A → Bool) (f : A → A) (xs ys : List A)
      → update_where p f (xs ++ ys) ≡ update_where p f xs ++ update_where p f ys
  update_where-append p f [] ys = refl
  update_where-append p f (x ∷ xs) ys =
      ap (λ l. (if p x then f x else x) ∷ l) (update_where-append p f xs ys)

  pub All-update_where {κ} :
      (P : A → Type κ) (p : A → Bool) (f : A → A) (xs : List A)
      → ((x : A) → P x → P (f x))
      → All P xs
      → All P (update_where p f xs)
  All-update_where P p f [] keep h = tt
  All-update_where P p f (x ∷ xs) keep h = elim (Bool-cases (p x)) [
    | inl t ↦ rw t (keep x h.0, All-update_where P p f xs keep h.1)
    | inr n ↦ rw n (h.0, All-update_where P p f xs keep h.1)
  ]

  -- Of rows none of which meets a condition, anything holds if they meet it.
  pub All-vacuous {κ} :
      (P : A → Type κ) (p : A → Bool) (xs : List A)
      → any p xs ≡ false
      → All (λ x. p x ≡ true → P x) xs
  All-vacuous P p [] h = tt
  All-vacuous P p (x ∷ xs) h =
      ((λ t. absurd (ground (arith, t))), All-vacuous P p xs (ground arith))

  pub length-update_where :
      (p : A → Bool) (f : A → A) (xs : List A) → length (update_where p f xs) ≡ length xs
  length-update_where p f [] = refl
  length-update_where p f (x ∷ xs) = ap suc (length-update_where p f xs)

-- `xs[n:]` and `xs[:n]`; OFFSET and LIMIT.
abbrev pub skip {ℓ} : {A : Type ℓ} → ℕ → List A → List A
skip zero xs = xs
skip (suc n) [] = []
skip (suc n) (x ∷ xs) = skip n xs

abbrev pub take {ℓ} : {A : Type ℓ} → ℕ → List A → List A
take zero xs = []
take (suc n) [] = []
take (suc n) (x ∷ xs) = x ∷ take n xs

-- `x in s`, for a set or a list.
module _ {ℓ} {A : Type ℓ} ⦃e : Eq A⦄ where
  abbrev pub contains : A → List A → Bool
  contains a [] = false
  contains a (x ∷ xs) = a == x || contains a xs

  -- `s.add(x)` on a set kept without repetitions.
  abbrev pub add : A → List A → List A
  add a xs = if contains a xs then xs else a ∷ xs

-- Membership, as the place of the element.
pub data Member {ℓ} {A : Type ℓ} (a : A) : List A → Type ℓ where
  here : {x : A} {xs : List A} → x ≡ a → Member a (x ∷ xs)
  there : {x : A} {xs : List A} → Member a xs → Member a (x ∷ xs)

module _ {ℓ} {A : Type ℓ} where
  pub Member-All {κ} : (P : A → Type κ) {a : A} {xs : List A} → Member a xs → All P xs → P a
  Member-All P (here e) h = rw e at h.0
  Member-All P (there m) h = Member-All P m h.1

  pub any-Member : (p : A → Bool) {a : A} {xs : List A} → Member a xs → p a ≡ true → any p xs ≡ true
  any-Member p (here e) h = rw (e, h)
  any-Member p (there {x = x} m) h = ground (arith, any-Member p m h)

  pub Member-append : {a : A} (xs ys : List A) → Member a (xs ++ ys) → Member a xs ⊎ Member a ys
  Member-append [] ys m = inr m
  Member-append (x ∷ xs) ys (here q) = inl (here q)
  Member-append (x ∷ xs) ys (there m) = elim (Member-append xs ys m) [
    | inl a ↦ inl (there a)
    | inr b ↦ inr b
  ]

  pub All-Member : (xs : List A) → All (λ a. Member a xs) xs
  All-Member [] = tt
  All-Member (x ∷ xs) = (
    here refl,
    All-map (λ a. Member a xs) (λ a. Member a (x ∷ xs)) xs (λ a m. there m) (All-Member xs),
  )

  pub any-false-Member :
      (p : A → Bool) {a : A} {xs : List A} → Member a xs → any p xs ≡ false → p a ≡ false
  any-false-Member p {a} m h = elim (Bool-cases (p a)) [
    | inl t ↦ let s = any-Member p m t in cc
    | inr f ↦ f
  ]

  pub Member-select :
      (p : A → Bool) {a : A} {xs : List A} → Member a xs → p a ≡ true → Member a (select p xs)
  Member-select p {a} (here {x = x} q) h = let t : p x ≡ true = rw q h in rw t (here q)
  Member-select p {a} (there {x = x} m) h = elim (Bool-cases (p x)) [
    | inl t ↦ rw t (there (Member-select p m h))
    | inr t ↦ rw t (Member-select p m h)
  ]

module _ {ℓ} {A B : Type ℓ} where
  pub map-Member :
      {f g : A → B} (xs : List A) → ((x : A) → Member x xs → f x ≡ g x) → map f xs ≡ map g xs
  map-Member [] h = refl
  map-Member {f} {g} (x ∷ xs) h =
      rw (h x (here refl)) (ap (λ l. g x ∷ l) (map-Member xs (λ y m. h y (there m))))

module _ {ℓ} {A B : Type ℓ} ⦃e : Eq B⦄ where
  pub contains-map :
      (f : A → B) {a : A} {xs : List A} → Member a xs → contains (f a) (map f xs) ≡ true
  contains-map f {a} (here {x = x} q) = rw (q, beq_refl (f a))
  contains-map f {a} (there {x = x} m) = ground (arith, contains-map f m)

module _ {ℓ} {B : Type ℓ} ⦃e : Eq B⦄ where
  pub contains-eq : {a b : B} (xs : List B) → a ≡ b → contains b xs ≡ true → contains a xs ≡ true
  contains-eq xs q h = rw q h
