-- ===== src/Prelude/Equality.antt =====
-- Equality tests. A class with one operator, and its instances for numbers, texts, options, and
-- every type whose equality the library decides.
use Prim.Native.Nat.{ℕ}
use Prim.Native.String.{String}
use mathlib.Core.Path.{◌≡◌, refl, sym}
use mathlib.Core.Logic.{◌↔◌, ◌≢◌, inl, inr}
use mathlib.Core.Bool.{Bool, true, false}
use mathlib.Core.Option.{Option, none, some}
use text.Mathlib.Text.{◌==◌ as str_eq}
use text.Mathlib.TextEquality.{eq_iff}
use uk_jamaat_directory.Prelude.Tests.{nat_beq, nat_beq_iff, Bool-cases}

-- A test that is true of equal things and of no others.
pub record Eq {ℓ} (T : Type ℓ) : Type ℓ where
  pub beq : T → T → Bool
  pub beq_iff : (x y : T) → (beq x y ≡ true) ↔ (x ≡ y)

-- Python's `==`.
infix 50 ◌==◌
abbrev pub ◌==◌ {ℓ} : {T : Type ℓ} ⦃test : Eq T⦄ (x y : T) → Bool
◌==◌ ⦃test⦄ x y = test.beq x y

instance abbrev pub string_eq : Eq String
string_eq = record { beq = str_eq; beq_iff = eq_iff }

instance abbrev pub nat_eq : Eq ℕ
nat_eq = record { beq_iff = nat_beq_iff; beq = nat_beq }

abbrev pub decides {ℓ} : {P : Type ℓ} → Dec P → Bool
decides (yes _) = true
decides (no _) = false

pub decides_iff {ℓ} : {P : Type ℓ} (d : Dec P) → (decides d ≡ true) ↔ P
decides_iff (yes p) = (λ _. p, λ _. refl)
decides_iff (no n) = (λ h. cc, λ p. absurd (n p))

-- The test that a decision procedure gives.
abbrev pub discrete_eq {ℓ} : {A : Type ℓ} → Discrete A → Eq A
discrete_eq d = record { beq = λ a b. decides (d a b); beq_iff = λ a b. decides_iff (d a b) }

abbrev pub option_beq {ℓ} : {A : Type ℓ} ⦃e : Eq A⦄ → Option A → Option A → Bool
option_beq none none = true
option_beq none (some b) = false
option_beq (some a) none = false
option_beq (some a) (some b) = a == b

pub option_beq_iff {ℓ} :
    {A : Type ℓ} ⦃e : Eq A⦄ (a b : Option A) → (option_beq a b ≡ true) ↔ (a ≡ b)
option_beq_iff none none = (λ _. refl, λ _. refl)
option_beq_iff none (some b) = (λ h. cc, λ h. cc)
option_beq_iff (some a) none = (λ h. cc, λ h. cc)
option_beq_iff ⦃e⦄ (some a) (some b) = (λ h. cc ((e.beq_iff a b).0 h), λ h. (e.beq_iff a b).1 (cc))

-- `x == y` where either may be None.
instance abbrev pub option_eq {ℓ} : {A : Type ℓ} ⦃e : Eq A⦄ → Eq (Option A)
option_eq = record { beq = option_beq; beq_iff = option_beq_iff }

pub beq_refl {ℓ} : {A : Type ℓ} ⦃e : Eq A⦄ (a : A) → (a == a) ≡ true
beq_refl ⦃e⦄ a = (e.beq_iff a a).1 refl

-- What a test that holds says.
pub beq-eq {ℓ} : {A : Type ℓ} ⦃e : Eq A⦄ {a b : A} → (a == b) ≡ true → a ≡ b
beq-eq ⦃e⦄ {a} {b} h = (e.beq_iff a b).0 h

pub not_beq-ne {ℓ} : {A : Type ℓ} ⦃e : Eq A⦄ (a b : A) → (a == b) ≡ false → a ≢ b
not_beq-ne ⦃e⦄ a b h p = cc (h, (e.beq_iff a b).1 p)

pub beq_sym {ℓ} : {A : Type ℓ} ⦃e : Eq A⦄ (a b : A) → (a == b) ≡ (b == a)
beq_sym ⦃e⦄ a b = elim (Bool-cases (a == b)) [
  | inl h ↦ rw h (sym ((e.beq_iff b a).1 (sym ((e.beq_iff a b).0 h))))
  | inr h ↦ elim (Bool-cases (b == a)) [
    | inl k ↦ absurd (not_beq-ne a b h (sym ((e.beq_iff b a).0 k)))
    | inr k ↦ rw (h, k)
  ]
]
