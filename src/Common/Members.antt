-- ===== src/Common/Members.antt =====
-- Membership, and what the list functions of `Lists` find.
use mathlib.Core.Path.{◌≡◌, refl, sym, ap, subst}
use mathlib.Core.Logic.{◌↔◌, ◌⊎◌, inl, inr}
use mathlib.Core.Bool.{Bool, true, ◌&&◌}
use mathlib.Core.Option.{some}
use mathlib.Core.List.{List, [], ◌∷◌, ◌++◌, map}
use native.Mathlib.Omega.{arith}
use kerf_app.Common.Tests.{Bool-cases, and_split}
use kerf_app.Common.Equality.{Member}
use kerf_app.Common.Lists.{all, any, find, insert_ordered, keep, sort_ordered}

pub ↔-trans : {A B C : Type 0} → A ↔ B → B ↔ C → A ↔ C
↔-trans f g = (λ a. g.0 (f.0 a), λ c. f.1 (g.1 c))

module _ {A : Type 0} where
  -- `filter` and `some` in one pass.
  pub any-keep : (p q : A → Bool) (xs : List A) → any p (keep q xs) ≡ any (λ x. q x && p x) xs
  any-keep p q [] = refl
  any-keep p q (x ∷ xs) = ground (arith, any-keep p q xs)

  pub any_iff :
      {P : A → Type 0} (p : A → Bool)
      → ((x : A) → (p x ≡ true) ↔ P x)
      → (xs : List A) → (any p xs ≡ true) ↔ ((x : A) × Member x xs × P x)
  any_iff p h [] = (λ e. cc, λ (x, m, x-P). absurd m)
  any_iff {P} p h (x ∷ xs) = (
    λ e. elim (Bool-cases (p x)) [
      | inl holds ↦ (x, inl refl, (h x).0 holds)
      | inr fails ↦ let (y, m, y-P) = (any_iff p h xs).0 (ground arith) in (y, inr m, y-P)
    ],
    λ (y, m, y-P). elim m [
      | inl e ↦ let holds : p x ≡ true = (h x).1 (subst P (sym e) y-P) in ground arith
      | inr m ↦ let rest : any p xs ≡ true = (any_iff p h xs).1 (y, m, y-P) in ground arith
    ],
  )

  pub Member-append_iff :
      (a : A) (xs ys : List A) → Member a (xs ++ ys) ↔ (Member a xs ⊎ Member a ys)
  Member-append_iff a [] ys = ground arith
  Member-append_iff a (x ∷ xs) ys = ground (arith, Member-append_iff a xs ys)

  pub Member-keep_iff :
      (p : A → Bool) (a : A) (xs : List A) → Member a (keep p xs) ↔ (Member a xs × (p a ≡ true))
  Member-keep_iff p a [] = ground arith
  Member-keep_iff p a (x ∷ xs) =
      let same : x ≡ a → p x ≡ p a = λ e. ap p e in
      let rest = Member-keep_iff p a xs in
      elim (Bool-cases (p x)) [ inl holds ↦ ground arith | inr fails ↦ ground arith ]

  -- What a test holds of, it holds of each member.
  pub all-Member : (p : A → Bool) (a : A) (xs : List A) → all p xs ≡ true → Member a xs → p a ≡ true
  all-Member p a [] h m = absurd m
  all-Member p a (x ∷ xs) h m =
      let (here, rest) = and_split (p x) (all p xs) h in
      elim m [ inl e ↦ subst (λ y. p y ≡ true) e here | inr later ↦ all-Member p a xs rest later ]

  -- What `find` returns is a member that passes the test.
  pub find-Member :
      (p : A → Bool) (a : A) (xs : List A) → find p xs ≡ some a → Member a xs × (p a ≡ true)
  find-Member p a [] h = cc
  find-Member p a (x ∷ xs) h = elim (Bool-cases (p x)) [
    | inl holds ↦ let e : x ≡ a = ground arith in (inl e, subst (λ y. p y ≡ true) e holds)
    | inr fails ↦ let (m, holds) = find-Member p a xs (ground arith) in (inr m, holds)
  ]

  pub Member-insert_iff :
      (first : A → A → Bool) (x a : A) (ys : List A)
      → Member a (insert_ordered first x ys) ↔ ((x ≡ a) ⊎ Member a ys)
  Member-insert_iff first x a [] = ground arith
  Member-insert_iff first x a (y ∷ ys) =
      let deeper = Member-insert_iff first x a ys in
      elim (Bool-cases (first x y)) [ inl f ↦ ground arith | inr f ↦ ground arith ]

  pub Member-sort_iff :
      (first : A → A → Bool) (a : A) (xs : List A) → Member a (sort_ordered first xs) ↔ Member a xs
  Member-sort_iff first a [] = ground arith
  Member-sort_iff first a (x ∷ xs) =
      ground
        (arith, Member-insert_iff first x a (sort_ordered first xs), Member-sort_iff first a xs)

-- The first member of which P holds.
abbrev pub First : {A : Type 0} → (A → Type 0) → A → List A → Type 0
First P a [] = ⊥
First P a (x ∷ xs) = ((x ≡ a) × P x) ⊎ ((¬ P x) × First P a xs)

pub First-Member : {A : Type 0} (P : A → Type 0) (a : A) (xs : List A) → First P a xs → Member a xs
First-Member P a [] f = f
First-Member P a (x ∷ xs) (inl (e, h)) = inl e
First-Member P a (x ∷ xs) (inr (n, later)) = inr (First-Member P a xs later)

-- `find` is the first member of which the test holds.
pub find_iff :
    {A : Type 0} {P : A → Type 0} (p : A → Bool)
    → ((x : A) → (p x ≡ true) ↔ P x)
    → (a : A) (xs : List A) → (find p xs ≡ some a) ↔ First P a xs
find_iff p h a [] = (λ e. cc, λ f. absurd f)
find_iff p h a (x ∷ xs) =
    let deeper = find_iff p h a xs in
    elim (Bool-cases (p x)) [
      | inl holds ↦
          let x-P = (h x).0 holds in
          (
            λ e. let same : x ≡ a = ground arith in inl (same, x-P),
            λ f. elim f [
              | inl (same, q) ↦ rw holds (ap some same)
              | inr (n, later) ↦ absurd (n x-P)
            ],
          )
      | inr fails ↦ (
        λ e. inr (λ q. let holds = (h x).1 q in cc, deeper.0 (ground arith)),
        λ f. elim f [
          | inl (same, q) ↦ let holds = (h x).1 q in cc
          | inr (n, later) ↦ rw fails (deeper.1 later)
        ],
      )
    ]

pub Member-map :
    {A B : Type 0} (f : A → B) (a : A) (xs : List A) → Member a xs → Member (f a) (map f xs)
Member-map f a [] m = absurd m
Member-map f a (x ∷ xs) (inl e) = inl (ap f e)
Member-map f a (x ∷ xs) (inr m) = inr (Member-map f a xs m)
