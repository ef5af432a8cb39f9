-- ===== src/Proposal/TotalLaws.antt =====
-- The amounts of a valid proposal are those that the program computes (src/proposal/validation.ts).
use kerf_app.Common.{
  All, Bool, List, String, [], ap, arith, some, subst, sym, ℕ, ◌+◌, ◌∙◌, ◌∷◌, ◌≡◌,
}
use kerf_app.Common.Int.{pos}
use kerf_app.Common.Json.{Value, arr, array, member, obj}
use kerf_app.Checks.Guards.{integer_cents, valid}
use kerf_app.Proposal.Lines.{Numerics}
use kerf_app.Proposal.Acceptance.{elements, has_status, validate_proposal}
use kerf_app.Proposal.Totals.{
  compute_division_subtotal, compute_extended_cents, compute_proposal_subtotal,
  compute_proposal_total, sum_of_lines, total_of,
}
use kerf_app.Checks.Errors.{SumsTo, map-All}
use kerf_app.Proposal.LineLaws.{DivisionAdds, LineAdds, SectionsAdd}
use kerf_app.Proposal.MoneyLaws.{validate_proposal-AddsUp}

-- Each amount of the line is the one computed from its quantity and its price.
abbrev pub LineIsComputed : Numerics → Value → Type 0
LineIsComputed js line =
    (e : ℕ) × (integer_cents (member line "extended_cents") ≡ some e)
    × (compute_extended_cents js (member line "quantity") (member line "unit_cents") ≡ pos e)

abbrev pub DivisionIsComputed : Numerics → Value → Type 0
DivisionIsComputed js division =
    (integer_cents (member division "subtotal_cents") ≡ some (compute_division_subtotal division))
    × All (λ section. All (LineIsComputed js) (elements section "lines"))
        (elements division "sections")

pub record IsComputed (js : Numerics) (proposal : Value) : Type 0 where
  pub tax : ℕ
  pub has_tax : integer_cents (member proposal "tax_cents") ≡ some tax
  pub subtotal_computed :
      integer_cents (member proposal "subtotal_cents")
      ≡ some (compute_proposal_subtotal (elements proposal "divisions"))
  pub total_computed :
      integer_cents (member proposal "total_cents")
      ≡ some
          (compute_proposal_total (compute_proposal_subtotal (elements proposal "divisions")) tax)
  pub divisions_computed : All (DivisionIsComputed js) (elements proposal "divisions")

-- Only an object has an array under a key.
elements-array :
    (v : Value) (key : String) (vs : List Value)
    → array (member v key) ≡ some vs
    → elements v key ≡ vs
elements-array (arr items) key vs h = cc
elements-array (obj fields) key vs h = rw h
elements-array _ key vs h = cc

pub total_of-SumsTo :
    (key : String) (vs : List Value) (n : ℕ) → SumsTo key vs n → total_of key vs ≡ n
unfolding total_of
total_of-SumsTo key [] n h = sym h
total_of-SumsTo key (v ∷ rest) n (a, m, e, sum, more) =
    let tail = total_of-SumsTo key rest m more in rw e (omega arith)

module _ (js : Numerics) where
  line-computed : (strict : Bool) (line : Value) → LineAdds js strict line → LineIsComputed js line
  unfolding compute_extended_cents
  line-computed strict line (q, u, e, hq, hu, he, product, _) = (e, he, rw (hq, hu) product)

  sections-computed :
      (strict : Bool) (sections : List Value) (n : ℕ)
      → SectionsAdd js strict sections n
      → (sum_of_lines sections ≡ n)
        × All (λ section. All (LineIsComputed js) (elements section "lines")) sections
  unfolding sum_of_lines
  sections-computed strict [] n h = (sym h, tt)
  sections-computed strict (section ∷ rest) n (lines, a, m, e, each, adds, sum, more) =
      let read = elements-array section "lines" lines e in
      let (tail, computed) = sections-computed strict rest m more in
      let lines_sum = total_of-SumsTo "extended_cents" lines a adds in
      (
        rw (read, lines_sum, tail) (sym sum),
        (
          subst (All (LineIsComputed js)) (sym read) (map-All (line-computed strict) lines each),
          computed,
        ),
      )

  division-computed :
      (strict : Bool) (division : Value)
      → DivisionAdds js strict division
      → DivisionIsComputed js division
  unfolding compute_division_subtotal
  division-computed strict division (sections, n, e, subtotal, add) =
      let read = elements-array division "sections" sections e in
      let (sum, computed) = sections-computed strict sections n add in
      (
        subtotal ∙ ap some (sym sum ∙ ap sum_of_lines (sym read)),
        subst (All (λ section. All (LineIsComputed js) (elements section "lines"))) (sym read)
            computed,
      )

  -- A proposal that is valid has the amounts that the program computes for a draft: the amount of
  -- each line from its quantity and its price, the subtotal of each division from the amounts of its
  -- lines, the subtotal from the divisions, and the total from the subtotal and the tax.
  pub validate_proposal-IsComputed :
      (input proposal : Value)
      → validate_proposal js input ≡ valid proposal
      → IsComputed js proposal
  unfolding compute_proposal_subtotal
  validate_proposal-IsComputed input proposal h =
      let (same, money) = validate_proposal-AddsUp js input proposal h in
      let read = elements-array input "divisions" money.divisions money.has_divisions in
      let sum =
        ap (total_of "subtotal_cents") read
        ∙ total_of-SumsTo "subtotal_cents" money.divisions money.subtotal money.subtotal_adds in
      subst (IsComputed js) (sym same) (record {
        tax = money.tax;
        has_tax = money.has_tax;
        subtotal_computed = money.has_subtotal ∙ ap some (sym sum);
        total_computed =
            money.has_total ∙ ap some (money.total_adds ∙ ap (λ n. n + money.tax) (sym sum));
        divisions_computed = subst (All (DivisionIsComputed js)) (sym read) (
            map-All (division-computed (has_status input "accepted")) money.divisions
              money.divisions_add);
      })
