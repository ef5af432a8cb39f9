-- ===== src/Proposal/Numbering.antt =====
-- src/proposal/numbering.ts: the numbers of proposals, as code points. A floating-point number is
-- exact up to 2 ^ 53; beyond, the number that is nearest to an integer is an argument.
use kerf_app.Common.{
  Bool, List, Option, [], false, if◌then◌else◌, is_empty, is_some, leb, length, ltb, nat_beq, none,
  not, some, suc, true, zero, ℕ, ◌%◌, ◌&&◌, ◌*◌, ◌++◌, ◌+◌, ◌-◌, ◌/◌, ◌>?◌, ◌∷◌,
}
use kerf_app.Common.Text.{codes}
use kerf_app.Common.Json.{Value, text}
use kerf_app.Checks.Patterns.{is_digit}

pub record Doubles : Type 0 where
  pub nearest : ℕ → ℕ
  pub is_finite : ℕ → Bool

pub data ProposalTenantId : Type 0 where
  tenant_ggr tenant_valle tenant_hpg : ProposalTenantId

abbrev pub tenant_number_prefix : ProposalTenantId → List ℕ
tenant_number_prefix tenant_ggr = b'G' ∷ b'G' ∷ b'R' ∷ []
tenant_number_prefix tenant_valle = b'V' ∷ []
tenant_number_prefix tenant_hpg = b'H' ∷ b'P' ∷ b'G' ∷ []

pub record ParsedNumber : Type 0 where
  pub prefix : List ℕ
  pub year : ℕ
  pub sequence : ℕ

abbrev pub is_capital : ℕ → Bool
is_capital c = leb b'A' c && leb c b'Z'

unfoldable pub take_while : (ℕ → Bool) → List ℕ → List ℕ
take_while p [] = []
take_while p (c ∷ s) = let rest = take_while p s in if p c then c ∷ rest else []

unfoldable pub drop_while : (ℕ → Bool) → List ℕ → List ℕ
drop_while p [] = []
drop_while p (c ∷ s) = let rest = drop_while p s in if p c then rest else c ∷ s

abbrev pub eat_dash : List ℕ → Option (List ℕ)
eat_dash [] = none
eat_dash (c ∷ s) = if nat_beq c b'-' then some s else none

-- The groups of `PROPOSAL_NUMBER_REGEX`: since no separator belongs to a class, each class takes all
-- that it can.
pub record Groups : Type 0 where
  pub prefix_text : List ℕ
  pub year_text : List ℕ
  pub sequence_text : List ℕ

abbrev pub read_sequence : List ℕ → List ℕ → List ℕ → Option Groups
read_sequence prefix year s =
    if not (is_empty (take_while is_digit s)) && is_empty (drop_while is_digit s)
    then some
        (record { prefix_text = prefix; year_text = year; sequence_text = take_while is_digit s })
    else none

abbrev pub read_year : List ℕ → List ℕ → Option Groups
read_year prefix s =
    if nat_beq (length (take_while is_digit s)) 4
    then eat_dash (drop_while is_digit s) >? read_sequence prefix (take_while is_digit s)
    else none

unfoldable pub read_groups : List ℕ → Option Groups
read_groups s =
    let prefix = take_while is_capital s in
    if leb 1 (length prefix) && leb (length prefix) 4
    then eat_dash (drop_while is_capital s) >? read_year prefix
    else none

-- The integer that digits stand for.
unfoldable pub value_from : ℕ → List ℕ → ℕ
value_from acc [] = acc
value_from acc (c ∷ s) = value_from (acc * 10 + (c - 48)) s

-- `String(n)`, as code points
unfoldable pub digits_from : ℕ → ℕ → List ℕ → List ℕ
digits_from zero n acc = acc
digits_from (suc fuel) n acc =
    let more = digits_from fuel (n / 10) ((48 + n % 10) ∷ acc) in
    if ltb n 10 then (48 + n) ∷ acc else more

unfoldable pub decimal_codes : ℕ → List ℕ
unfolding digits_from
decimal_codes n = digits_from (suc n) n []

-- `.padStart(3, '0')`
abbrev pub pad_start : List ℕ → List ℕ
pad_start [] = b'0' ∷ b'0' ∷ b'0' ∷ []
pad_start (a ∷ []) = b'0' ∷ b'0' ∷ a ∷ []
pad_start (a ∷ b ∷ []) = b'0' ∷ a ∷ b ∷ []
pad_start (a ∷ b ∷ c ∷ s) = a ∷ b ∷ c ∷ s

unfoldable pub sequence_codes : ℕ → List ℕ
unfolding decimal_codes
sequence_codes n = if ltb n 1000 then pad_start (decimal_codes n) else decimal_codes n

abbrev pub same_codes : List ℕ → List ℕ → Bool
same_codes [] [] = true
same_codes [] (d ∷ t) = false
same_codes (c ∷ s) [] = false
same_codes (c ∷ s) (d ∷ t) = nat_beq c d && same_codes s t

-- `${prefix}-${year}-${seqStr}`
abbrev pub format_number : List ℕ → ℕ → ℕ → List ℕ
format_number prefix year sequence =
    prefix ++ (b'-' ∷ (decimal_codes year ++ (b'-' ∷ sequence_codes sequence)))

-- The number raises the maximum if it has the prefix and the year.
abbrev pub raise : List ℕ → ℕ → ℕ → Option ParsedNumber → ℕ
raise prefix year highest none = highest
raise prefix year highest (some parsed) =
    if same_codes parsed.prefix prefix && nat_beq parsed.year year && ltb highest parsed.sequence
    then parsed.sequence
    else highest

module _ (doubles : Doubles) where
  abbrev pub parsed_groups : Groups → Option ParsedNumber
  parsed_groups g =
      if doubles.is_finite (value_from 0 g.sequence_text)
      then some (record {
        prefix = g.prefix_text;
        year = value_from 0 g.year_text;
        sequence = doubles.nearest (value_from 0 g.sequence_text);
      })
      else none

  unfoldable pub parse_proposal_number : List ℕ → Option ParsedNumber
  unfolding read_groups
  parse_proposal_number number = read_groups number >? parsed_groups

  unfoldable pub max_sequence : List ℕ → ℕ → ℕ → List (List ℕ) → ℕ
  max_sequence prefix year highest [] = highest
  max_sequence prefix year highest (number ∷ rest) =
      max_sequence prefix year (raise prefix year highest (parse_proposal_number number)) rest

  unfoldable pub next_proposal_number : ProposalTenantId → ℕ → List (List ℕ) → List ℕ
  unfolding max_sequence
  next_proposal_number tenant year existing_numbers =
      let prefix = tenant_number_prefix tenant in
      format_number prefix year (doubles.nearest (max_sequence prefix year 0 existing_numbers + 1))

unfoldable pub is_well_formed_proposal_number : Value → Bool
unfolding read_groups
is_well_formed_proposal_number (text s) = is_some (read_groups (codes s))
is_well_formed_proposal_number _ = false
