-- ===== src/Common/Equality.antt =====
-- `===` as an interface: a Boolean test that decides equality, with its instances.
use Prim.Native.String.{String}
use mathlib.Core.Path.{◌≡◌, refl, ap}
use mathlib.Core.Logic.{◌↔◌, ◌⊎◌, ◌≢◌, inl, inr}
use mathlib.Core.Bool.{Bool, true, false, ◌||◌}
use mathlib.Core.List.{List, [], ◌∷◌}
use Prim.Native.Nat.{ℕ}
use native.Mathlib.Omega.{arith}
use text.Mathlib.Text.{◌==◌ as str_eq}
use text.Mathlib.TextEquality.{eq_iff}
use kerf_app.Common.Tests.{Bool-cases, nat_beq, nat_beq_iff}

-- The test and what it decides.
pub record HasEq {ℓ} (A : Type ℓ) : Type ℓ where
  pub eqb : A → A → Bool
  pub eqb_iff : (x y : A) → (eqb x y ≡ true) ↔ (x ≡ y)

instance abbrev pub text_eq : HasEq String
text_eq = record { eqb = str_eq; eqb_iff = eq_iff }

instance abbrev pub number_eq : HasEq ℕ
number_eq = record { eqb = nat_beq; eqb_iff = nat_beq_iff }

-- `x === y`
infix 50 ◌==◌
abbrev pub ◌==◌ {ℓ} : {A : Type ℓ} ⦃q : HasEq A⦄ → A → A → Bool
◌==◌ ⦃q⦄ x y = q.eqb x y

pub index_eqb_iff {ℓ} :
    {A : Type ℓ} (index : A → ℕ) (injective : (a b : A) → index a ≡ index b → a ≡ b) (a b : A)
    → (nat_beq (index a) (index b) ≡ true) ↔ (a ≡ b)
index_eqb_iff index injective a b =
    (λ h. injective a b ((nat_beq_iff _ _).0 h), λ h. (nat_beq_iff _ _).1 (ap index h))

-- The instance of an enumeration whose values are numbered.
abbrev pub index_eq {ℓ} :
    {A : Type ℓ} (index : A → ℕ) → ((a b : A) → index a ≡ index b → a ≡ b) → HasEq A
index_eq index injective = record {
  eqb = λ a b. nat_beq (index a) (index b);
  eqb_iff = index_eqb_iff index injective;
}

module _ {ℓ} {A : Type ℓ} ⦃e : HasEq A⦄ where
  -- `xs.includes(a)`
  abbrev pub includes : List A → A → Bool
  includes [] a = false
  includes (x ∷ xs) a = x == a || includes xs a

  pub eqb_refl : (a : A) → (a == a) ≡ true
  eqb_refl a = (e.eqb_iff a a).1 refl

pub eq-cases : {A : Type 0} ⦃e : HasEq A⦄ (x y : A) → (x ≡ y) ⊎ (x ≢ y)
eq-cases ⦃e⦄ x y = elim (Bool-cases (x == y)) [
  | inl h ↦ inl ((e.eqb_iff x y).0 h)
  | inr h ↦ inr (λ same. let t : (x == y) ≡ true = (e.eqb_iff x y).1 same in cc)
]

-- An implication from an equation, as an alternative.
pub unless : {A P : Type 0} ⦃e : HasEq A⦄ (x y : A) → (x ≡ y → P) → (x ≢ y) ⊎ P
unless x y f = elim (eq-cases x y) [ inl h ↦ inr (f h) | inr h ↦ inl h ]

pub unless_not : {A P : Type 0} ⦃e : HasEq A⦄ (x y : A) → (x ≢ y → P) → (x ≡ y) ⊎ P
unless_not x y f = elim (eq-cases x y) [ inl h ↦ inl h | inr h ↦ inr (f h) ]

-- Membership, as a proposition by recursion.
abbrev pub Member : {A : Type 0} → A → List A → Type 0
Member a [] = ⊥
Member a (x ∷ xs) = (x ≡ a) ⊎ Member a xs

module _ {A : Type 0} ⦃e : HasEq A⦄ where
  pub includes→Member : (xs : List A) (a : A) → includes xs a ≡ true → Member a xs
  includes→Member [] a h = cc
  includes→Member (x ∷ xs) a h = ground (arith, e.eqb_iff x a, includes→Member xs a)

  pub Member→includes : (xs : List A) (a : A) → Member a xs → includes xs a ≡ true
  Member→includes [] a h = absurd h
  Member→includes (x ∷ xs) a h = ground (arith, e.eqb_iff x a, Member→includes xs a)
