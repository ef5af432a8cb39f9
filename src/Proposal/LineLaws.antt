-- ===== src/Proposal/LineLaws.antt =====
-- Divisions without errors add up (src/proposal/validation.ts).
use kerf_app.Common.{
  All, Bool, List, String, [], arith, false, inl, inr, ltb, ltb_iff, nat_beq_iff, not, refl, some,
  subst, true, ℕ, ◌+◌, ◌<◌, ◌||◌, ◌∷◌, ◌≡◌, ◌⊎◌,
}
use kerf_app.Common.Int.{negsuc, pos, ℤ}
use kerf_app.Common.Json.{Number, Value, array, as_finite, is_object, is_positive, member}
use kerf_app.Checks.Guards.{integer_cents}
use kerf_app.Proposal.Lines.{
  Numerics, is_cents, sum_of_sections, validate_division, validate_line, validate_section,
}
use kerf_app.Checks.Errors.{
  >?-some, HasCents, NoErrors, SumsTo, both_met, check_met, given_met, map-All, object_met,
  require_met, sum_cents-given, validate_each-All,
}

-- The amount of a line is the rounded product of its quantity and its price, which are positive where
-- the check is strict.
abbrev pub LineAdds : Numerics → Bool → Value → Type 0
LineAdds js strict line =
    (q : Number) × (u : ℕ) × (e : ℕ) × (as_finite (member line "quantity") ≡ some q)
    × (integer_cents (member line "unit_cents") ≡ some u)
    × (integer_cents (member line "extended_cents") ≡ some e)
    × (js.rounded_product q u ≡ pos e)
    × ((strict ≡ false) ⊎ ((is_positive q ≡ true) × (0 < u)))

-- The lines of the sections add up to a number, and each line adds up.
abbrev pub SectionsAdd : Numerics → Bool → List Value → ℕ → Type 0
SectionsAdd js strict [] n = n ≡ 0
SectionsAdd js strict (section ∷ rest) n =
    (lines : List Value) × (a : ℕ) × (m : ℕ) × (array (member section "lines") ≡ some lines)
    × All (LineAdds js strict) lines
    × SumsTo "extended_cents" lines a
    × (n ≡ a + m)
    × SectionsAdd js strict rest m

-- A division has a subtotal, to which the lines of its sections add up.
abbrev pub DivisionAdds : Numerics → Bool → Value → Type 0
DivisionAdds js strict division =
    (sections : List Value) × (n : ℕ) × (array (member division "sections") ≡ some sections)
    × (integer_cents (member division "subtotal_cents") ≡ some n)
    × SectionsAdd js strict sections n

strict_met :
    (strict : Bool) (q : Number) (u : ℕ)
    → (not strict || is_positive q) ≡ true
    → (not strict || ltb 0 u) ≡ true
    → (strict ≡ false) ⊎ ((is_positive q ≡ true) × (0 < u))
strict_met false q u hq hu = inl refl
strict_met true q u hq hu = inr (hq, (ltb_iff 0 u).0 hu)

is_cents_lem : (n : ℕ) (z : ℤ) → is_cents n z ≡ true → z ≡ pos n
is_cents_lem n (pos m) h = ground arith
is_cents_lem n (negsuc m) h = cc

module _ (js : Numerics) where
  pub validate_line-LineAdds :
      (strict : Bool) (line : Value) (path : String)
      → NoErrors (validate_line js strict line path)
      → (is_object line ≡ true) × LineAdds js strict line
  unfolding validate_line
  validate_line-LineAdds strict line path h =
      let (object, h0) = object_met _ _ _ h in
      let (_, h1) = both_met h0 in
      let (_, h2) = both_met h1 in
      let (quantity, h3) = both_met h2 in
      let (_, h4) = both_met h3 in
      let (price, h5) = both_met h4 in
      let (product, _) = both_met h5 in
      let (q, hq, q_positive) = given_met _ _ _ quantity in
      let (u, hu, u_positive) = given_met _ _ _ price in
      let (e, he, after_amount) = given_met _ _ _ product in
      let after_quantity = check_met _ _ q hq after_amount in
      let equal = require_met _ _ (check_met _ _ u hu after_quantity) in
      let positive =
        strict_met strict q u (require_met _ _ q_positive) (require_met _ _ u_positive) in
      (object, (q, u, e, hq, hu, he, is_cents_lem e _ equal, positive))

  -- A section whose lines can be read, and each of them adds up.
  SectionReads : Bool → Value → Type 0
  SectionReads strict section =
      (is_object section ≡ true)
      × (lines : List Value) × (array (member section "lines") ≡ some lines)
      × All (λ line. (is_object line ≡ true) × LineAdds js strict line) lines

  validate_section-SectionReads :
      (strict : Bool) (section : Value) (path : String)
      → NoErrors (validate_section js strict section path)
      → SectionReads strict section
  unfolding validate_section SectionReads
  validate_section-SectionReads strict section path h =
      let (object, h0) = object_met _ _ _ h in
      let (_, h1) = both_met h0 in
      let (_, h2) = both_met h1 in
      let (lines, e, each) = given_met _ _ _ h2 in
      (
        object,
        lines,
        e,
        validate_each-All (validate_line js strict) (validate_line-LineAdds strict) _ _ _ each,
      )

  sections-add :
      (strict : Bool) (sections : List Value)
      → All (SectionReads strict) sections
      → (n : ℕ) × (sum_of_sections sections ≡ some n) × SectionsAdd js strict sections n
  unfolding sum_of_sections SectionReads
  sections-add strict [] h = (0, refl, refl)
  sections-add strict (section ∷ rest) h =
      let (object, lines, e, each) = h.0 in
      let (m, more, add) = sections-add strict rest h.1 in
      let priced =
        map-All {Q = HasCents "extended_cents"} (λ line g. (g.0, g.1.2, g.1.5)) lines each in
      let (a, sum, adds) = sum_cents-given "extended_cents" lines priced in
      (
        a + m,
        rw (object, e, sum, more),
        (lines, a, m, e, map-All (λ line g. g.1) lines each, adds, refl, add),
      )

  pub validate_division-DivisionAdds :
      (strict : Bool) (division : Value) (path : String)
      → NoErrors (validate_division js strict division path)
      → (is_object division ≡ true) × DivisionAdds js strict division
  unfolding validate_division
  validate_division-DivisionAdds strict division path h =
      let (object, h0) = object_met _ _ _ h in
      let (_, h1) = both_met h0 in
      let (_, h2) = both_met h1 in
      let (read, subtotal) = both_met h2 in
      let (sections, e, each) = given_met _ _ _ read in
      let reads =
        validate_each-All (validate_section js strict) (validate_section-SectionReads strict) _ _ _
          each in
      let (sum, sums, add) = sections-add strict sections reads in
      let (n, amount, after_amount) = given_met _ _ _ subtotal in
      let known = >?-some (array (member division "sections")) sum_of_sections e sums in
      let equal = require_met _ _ (check_met _ _ sum known after_amount) in
      (
        object,
        (
          sections,
          n,
          e,
          amount,
          subst (SectionsAdd js strict sections) ((nat_beq_iff sum n).0 equal) add,
        ),
      )
