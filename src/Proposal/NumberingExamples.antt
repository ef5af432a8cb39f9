-- ===== src/Proposal/NumberingExamples.antt =====
-- Numbers of proposals, src/proposal/numbering.ts, on concrete texts.
use kerf_app.Common.{All, List, Member, [], arith, false, inr, refl, some, true, ℕ, ◌+◌, ◌∷◌, ◌≡◌}
use kerf_app.Common.Text.{codes}
use kerf_app.Common.Json.{text}
use kerf_app.Proposal.Numbering.{
  Doubles, decimal_codes, digits_from, drop_while, format_number, is_well_formed_proposal_number,
  max_sequence, next_proposal_number, parse_proposal_number, read_groups, sequence_codes,
  take_while, tenant_ggr, tenant_hpg, tenant_number_prefix, value_from,
}
use kerf_app.Proposal.NumberingLaws.{
  IsDouble, IsHighest, IsWellFormed, next_proposal_number-fresh,
  parse_proposal_number-format_number,
}
use kerf_app.Proposal.SequenceLaws.{IsUnder}

-- Numbers that are all exact.
abbrev exact_doubles : Doubles
exact_doubles = record { nearest = λ n. n; is_finite = λ n. true }

exact_doubles-IsDouble : IsDouble exact_doubles
exact_doubles-IsDouble = record { exact = λ n h. refl; finite = λ n h. refl }

abbrev existing : List (List ℕ)
existing = codes "GGR-2026-514" ∷ codes "V-2026-900" ∷ codes "GGR-2025-700" ∷ codes "Dunne" ∷ []

-- Opens the numbering with all that it calls.
numbering : Unit {0}
unfolding next_proposal_number max_sequence parse_proposal_number read_groups take_while drop_while
    value_from digits_from decimal_codes sequence_codes is_well_formed_proposal_number
numbering = tt

next_number : next_proposal_number exact_doubles tenant_ggr 2026 existing ≡ codes "GGR-2026-515"
unfolding numbering
next_number = refl

first_number : next_proposal_number exact_doubles tenant_hpg 2026 existing ≡ codes "HPG-2026-001"
unfolding numbering
first_number = refl

no_number : is_well_formed_proposal_number (text "GGR-26-514") ≡ false
unfolding numbering
no_number = refl

all_below :
    All
      (λ number.
        IsUnder
          (tenant_number_prefix tenant_ggr)
          2026
          9007199254740991
          (parse_proposal_number exact_doubles number))
      existing
unfolding numbering
all_below =
    (inr (inr (omega arith)), (inr (inr (omega arith)), (inr (inr (omega arith)), (tt, tt))))

next_proposal_number-fresh_example :
    let next = next_proposal_number exact_doubles tenant_ggr 2026 existing in
    (highest : ℕ) × IsHighest exact_doubles exact_doubles-IsDouble
      (tenant_number_prefix tenant_ggr)
      2026
      existing
      highest
    × IsWellFormed next
    × (parse_proposal_number exact_doubles next
        ≡ some (record {
          prefix = tenant_number_prefix tenant_ggr;
          year = 2026;
          sequence = highest + 1;
        }))
    × (¬ Member next existing)
next_proposal_number-fresh_example =
    next_proposal_number-fresh exact_doubles exact_doubles-IsDouble tenant_ggr 2026 existing
      (omega arith) (omega arith) all_below

parse_proposal_number-format_number_example :
    IsWellFormed (format_number (codes "GGR") 2026 7)
    × (parse_proposal_number exact_doubles (format_number (codes "GGR") 2026 7)
        ≡ some (record { prefix = codes "GGR"; year = 2026; sequence = 7 }))
parse_proposal_number-format_number_example =
    parse_proposal_number-format_number exact_doubles exact_doubles-IsDouble (codes "GGR") 2026 7
      (refl, omega arith, omega arith) (omega arith) (omega arith) (omega arith)
