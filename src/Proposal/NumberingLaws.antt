-- ===== src/Proposal/NumberingLaws.antt =====
-- Writing and reading the numbers of proposals, and the next number (src/proposal/numbering.ts).
use kerf_app.Common.{
  All, List, Member, [], ap, arith, inl, inr, is_some, refl, some, subst, sym, true, ℕ, ◌+◌, ◌<◌,
  ◌∙◌, ◌∷◌, ◌≡◌, ◌≤◌, ◌⊎◌,
}
use kerf_app.Proposal.Numbering.{
  Doubles, ProposalTenantId, format_number, max_sequence, next_proposal_number,
  parse_proposal_number, raise, read_groups, tenant_ggr, tenant_hpg, tenant_number_prefix,
  tenant_valle,
}
use kerf_app.Proposal.NumberLaws.{
  IsPrefix, read_groups-format_number, value-decimal_codes, value-sequence_codes,
}
use kerf_app.Proposal.SequenceLaws.{
  IsUnder, IsUnder-weaken, raise-IsUnder, raise-cases, raise-grows,
}

-- The integers up to which a floating-point number is exact: 2 ^ 53.
abbrev pub max_exact : ℕ
max_exact = 9007199254740992

pub record IsDouble (doubles : Doubles) : Type 0 where
  pub exact : (n : ℕ) → n ≤ max_exact → doubles.nearest n ≡ n
  pub finite : (n : ℕ) → n ≤ max_exact → doubles.is_finite n ≡ true

-- The text of a well-formed number.
abbrev pub IsWellFormed : List ℕ → Type 0
IsWellFormed number = is_some (read_groups number) ≡ true

prefix-IsPrefix : (tenant : ProposalTenantId) → IsPrefix (tenant_number_prefix tenant)
prefix-IsPrefix tenant_ggr = (refl, omega arith, omega arith)
prefix-IsPrefix tenant_valle = (refl, omega arith, omega arith)
prefix-IsPrefix tenant_hpg = (refl, omega arith, omega arith)

module _ (doubles : Doubles) (is_double : IsDouble doubles) where
  -- A number is read back as it was written: for a prefix of one to four capital letters, a year of
  -- four digits and a sequence of at most 2 ^ 53, the text that joins them is well formed and parses
  -- to the same prefix, year and sequence.
  pub parse_proposal_number-format_number :
      (prefix : List ℕ) (year sequence : ℕ)
      → IsPrefix prefix
      → 1000 ≤ year
      → year ≤ 9999
      → sequence ≤ max_exact
      → IsWellFormed (format_number prefix year sequence)
        × (parse_proposal_number doubles (format_number prefix year sequence)
            ≡ some (record { prefix = prefix; year = year; sequence = sequence }))
  unfolding parse_proposal_number
  parse_proposal_number-format_number prefix year sequence is_prefix low high exact =
      let read = read_groups-format_number prefix year sequence is_prefix low high in
      let year_value = value-decimal_codes year in
      let value = value-sequence_codes sequence in
      (
        rw read,
        rw (
          read,
          value,
          is_double.finite sequence exact,
          year_value,
          is_double.exact sequence exact,
        ),
      )

  max_sequence-grows :
      (prefix : List ℕ) (year highest : ℕ) (existing : List (List ℕ))
      → highest ≤ max_sequence doubles prefix year highest existing
  unfolding max_sequence
  max_sequence-grows prefix year highest [] = omega arith
  max_sequence-grows prefix year highest (number ∷ rest) =
      let first = raise-grows prefix year highest (parse_proposal_number doubles number) in
      let later =
        max_sequence-grows prefix year
          (raise prefix year highest (parse_proposal_number doubles number)) rest in
      omega arith

  -- The maximum is the start, or the sequence of one of the numbers.
  max_sequence-cases :
      (prefix : List ℕ) (year highest : ℕ) (existing : List (List ℕ))
      → (max_sequence doubles prefix year highest existing ≡ highest)
        ⊎ ((number : List ℕ) × Member number existing
            × (parse_proposal_number doubles number
                ≡ some (record {
                  prefix = prefix;
                  year = year;
                  sequence = max_sequence doubles prefix year highest existing;
                })))
  unfolding max_sequence
  max_sequence-cases prefix year highest [] = inl refl
  max_sequence-cases prefix year highest (first ∷ rest) =
      let parsed = parse_proposal_number doubles first in
      elim (max_sequence-cases prefix year (raise prefix year highest parsed) rest) [
        | inl stays ↦ elim (raise-cases prefix year highest parsed) [
          | inl same ↦ inl (stays ∙ same)
          | inr counts ↦ inr (
            first,
            inl refl,
            subst (λ n. parsed ≡ some (record { prefix = prefix; year = year; sequence = n }))
                (sym stays) counts,
          )
        ]
        | inr (number, m, e) ↦ inr (number, inr m, e)
      ]

  -- None of the numbers is above the maximum.
  max_sequence-IsUnder :
      (prefix : List ℕ) (year highest : ℕ) (existing : List (List ℕ))
      → All
          (λ number.
            IsUnder prefix year
              (max_sequence doubles prefix year highest existing)
              (parse_proposal_number doubles number))
          existing
  unfolding max_sequence
  max_sequence-IsUnder prefix year highest [] = tt
  max_sequence-IsUnder prefix year highest (first ∷ rest) =
      let parsed = parse_proposal_number doubles first in
      (
        IsUnder-weaken prefix year _ _ parsed
            (max_sequence-grows prefix year (raise prefix year highest parsed) rest)
            (raise-IsUnder prefix year highest parsed),
        max_sequence-IsUnder prefix year (raise prefix year highest parsed) rest,
      )

  -- The highest sequence in use: none is above it, and it is in use, unless it is 0.
  pub record IsHighest (prefix : List ℕ) (year : ℕ) (existing : List (List ℕ)) (highest : ℕ)
      : Type 0 where
    pub above :
        All (λ number. IsUnder prefix year highest (parse_proposal_number doubles number)) existing
    pub in_use :
        (highest ≡ 0)
        ⊎ ((number : List ℕ) × Member number existing
            × (parse_proposal_number doubles number
                ≡ some (record { prefix = prefix; year = year; sequence = highest })))

  highest-exact :
      (prefix : List ℕ) (year n : ℕ) (existing : List (List ℕ)) (number : List ℕ)
      → All (λ x. IsUnder prefix year n (parse_proposal_number doubles x)) existing
      → Member number existing
      → (s : ℕ)
      → parse_proposal_number doubles number
        ≡ some (record { prefix = prefix; year = year; sequence = s })
      → s ≤ n
  highest-exact prefix year n [] number h m s e = absurd m
  highest-exact prefix year n (first ∷ rest) number h m s e = elim m [
    | inl same ↦
        elim (subst (IsUnder prefix year n) (ap (parse_proposal_number doubles) same ∙ e) h.0) [
          | inl other ↦ absurd (other refl)
          | inr (inl other) ↦ absurd (other refl)
          | inr (inr under) ↦ under
        ]
    | inr later ↦ highest-exact prefix year n rest number h.1 later s e
  ]

  max_sequence-exact :
      (prefix : List ℕ) (year : ℕ) (existing : List (List ℕ))
      → All
          (λ number. IsUnder prefix year 9007199254740991 (parse_proposal_number doubles number))
          existing
      → max_sequence doubles prefix year 0 existing < max_exact
  max_sequence-exact prefix year existing h = elim (max_sequence-cases prefix year 0 existing) [
    | inl none_used ↦ omega arith
    | inr (number, m, e) ↦
        let under = highest-exact prefix year 9007199254740991 existing number h m _ e in
        omega arith
  ]

  -- The next number of a tenant in a year of four digits is well formed, is one above the highest
  -- number in use in the tenant's sequence for that year, or the first if none is in use, and is not
  -- among the existing numbers, if each number in that sequence is below 2 ^ 53.
  pub next_proposal_number-fresh :
      (tenant : ProposalTenantId) (year : ℕ) (existing : List (List ℕ))
      → 1000 ≤ year
      → year ≤ 9999
      → All
          (λ number.
            IsUnder
              (tenant_number_prefix tenant)
              year
              9007199254740991
              (parse_proposal_number doubles number))
          existing
      → let next = next_proposal_number doubles tenant year existing in
        (highest : ℕ) × IsHighest (tenant_number_prefix tenant) year existing highest
        × IsWellFormed next
        × (parse_proposal_number doubles next
            ≡ some (record {
              prefix = tenant_number_prefix tenant;
              year = year;
              sequence = highest + 1;
            }))
        × (¬ Member next existing)
  unfolding next_proposal_number
  next_proposal_number-fresh tenant year existing low high exact =
      let prefix = tenant_number_prefix tenant in
      let highest = max_sequence doubles prefix year 0 existing in
      let below = max_sequence-exact prefix year existing exact in
      let next = is_double.exact (highest + 1) (omega arith) in
      let (well_formed, parsed) =
        parse_proposal_number-format_number prefix year (highest + 1) (prefix-IsPrefix tenant) low
          high (omega arith) in
      rw next (
        highest,
        record {
          above = max_sequence-IsUnder prefix year 0 existing;
          in_use = max_sequence-cases prefix year 0 existing;
        },
        well_formed,
        parsed,
        λ m.
            let counted =
              highest-exact prefix year highest existing (format_number prefix year (highest + 1))
                (max_sequence-IsUnder prefix year 0 existing) m (highest + 1) parsed in
            absurd (omega arith),
      )
