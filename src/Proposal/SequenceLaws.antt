-- ===== src/Proposal/SequenceLaws.antt =====
-- How one number raises the maximum (src/proposal/numbering.ts).
use mathlib.Core.Path.{ap₂}
use kerf_app.Common.{
  Bool-cases, List, Option, [], and_split, arith, inl, inr, ltb, nat_beq, nat_beq_iff, none, refl,
  some, subst, true, ℕ, ◌&&◌, ◌∷◌, ◌≡◌, ◌≢◌, ◌≤◌, ◌⊎◌,
}
use kerf_app.Proposal.Numbering.{ParsedNumber, raise, same_codes}

same_codes_refl : (s : List ℕ) → same_codes s s ≡ true
same_codes_refl [] = refl
same_codes_refl (c ∷ s) = ground (arith, same_codes_refl s)

same_codes-eq : (s t : List ℕ) → same_codes s t ≡ true → s ≡ t
same_codes-eq [] [] h = refl
same_codes-eq [] (d ∷ t) h = cc
same_codes-eq (c ∷ s) [] h = cc
same_codes-eq (c ∷ s) (d ∷ t) h =
    let (first, rest) = and_split _ _ h in
    ap₂ ◌∷◌ ((nat_beq_iff c d).0 first) (same_codes-eq s t rest)

-- What a number may be if it is not above a bound in the sequence of a prefix and a year.
abbrev pub IsUnder : List ℕ → ℕ → ℕ → Option ParsedNumber → Type 0
IsUnder prefix year bound none = Unit
IsUnder prefix year bound (some p) = (p.prefix ≢ prefix) ⊎ (p.year ≢ year) ⊎ (p.sequence ≤ bound)

pub raise-cases :
    (prefix : List ℕ) (year highest : ℕ) (parsed : Option ParsedNumber)
    → (raise prefix year highest parsed ≡ highest)
      ⊎ (parsed
          ≡ some (record {
            prefix = prefix;
            year = year;
            sequence = raise prefix year highest parsed;
          }))
raise-cases prefix year highest none = inl refl
raise-cases prefix year highest (some p) =
    elim (Bool-cases
      (same_codes p.prefix prefix && nat_beq p.year year && ltb highest p.sequence)) [
        | inl counts ↦
            let (both, above) = and_split _ _ counts in
            let (prefixes, years) = and_split _ _ both in
            inr (
              rw counts (
                ap₂ (λ x y. some (record { prefix = x; year = y; sequence = p.sequence }))
                  (same_codes-eq p.prefix prefix prefixes) ((nat_beq_iff p.year year).0 years)))
        | inr stays ↦ inl (rw stays refl)
      ]

pub raise-IsUnder :
    (prefix : List ℕ) (year highest : ℕ) (parsed : Option ParsedNumber)
    → IsUnder prefix year (raise prefix year highest parsed) parsed
raise-IsUnder prefix year highest none = tt
raise-IsUnder prefix year highest (some p) = elim (Bool-cases (same_codes p.prefix prefix)) [
  | inl prefixes ↦ elim (Bool-cases (nat_beq p.year year)) [
    | inl years ↦ inr (inr (rw prefixes (rw years (ground arith))))
    | inr other ↦ inr (inl (λ e. let same = (nat_beq_iff p.year year).1 e in cc))
  ]
  | inr other ↦
      inl (λ e.
        let same = subst (λ q. same_codes p.prefix q ≡ true) e (same_codes_refl p.prefix) in cc)
]

pub IsUnder-weaken :
    (prefix : List ℕ) (year a b : ℕ) (parsed : Option ParsedNumber)
    → a ≤ b
    → IsUnder prefix year a parsed
    → IsUnder prefix year b parsed
IsUnder-weaken prefix year a b none l h = tt
IsUnder-weaken prefix year a b (some p) l (inl other) = inl other
IsUnder-weaken prefix year a b (some p) l (inr (inl other)) = inr (inl other)
IsUnder-weaken prefix year a b (some p) l (inr (inr under)) = inr (inr (omega arith))

pub raise-grows :
    (prefix : List ℕ) (year highest : ℕ) (parsed : Option ParsedNumber)
    → highest ≤ raise prefix year highest parsed
raise-grows prefix year highest none = omega arith
raise-grows prefix year highest (some parsed) = ground arith
