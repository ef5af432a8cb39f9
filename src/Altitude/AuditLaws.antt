-- ===== src/Altitude/AuditLaws.antt =====
-- What V12 (src/altitude/gate.ts) accepts.
use mathlib.Core.Path.{ap₂}
use kerf_app.Common.{
  All, Bool, List, Option, String, [], ap, arith, false, if◌then◌else◌, none, number_eq, refl, some,
  text_eq, true, ℕ, ◌++◌, ◌+◌, ◌==◌, ◌↔◌, ◌∙◌, ◌∷◌, ◌≡◌, ◌≢◌,
}
use kerf_app.Common.Int.{pos, ◌≤ℤ◌}
use kerf_app.Common.Text.{is_nonempty}
use kerf_app.Altitude.Types.{
  ValidatorId, ValidatorResult, flag_eq, role_visibility_eq, v1, validator_id_eq,
}
use kerf_app.Altitude.AuditTrail.{
  duplicate_reason, expected_order, field_reason, ids, missing_reason, order_reason,
  unexpected_reason, validate_w1_audit_trail, ◌<|>◌,
}

<|>-eq-none : (a b : Option String) → (a <|> b) ≡ none → (a ≡ none) × (b ≡ none)
<|>-eq-none none b h = (refl, h)
<|>-eq-none (some r) b h = cc

if-eq-none :
    (test : Bool) (later : Option String) (reason : String)
    → (if test then later else some reason) ≡ none
    → (test ≡ true) × (later ≡ none)
if-eq-none true later reason h = (refl, h)
if-eq-none false later reason h = cc

-- A result that the fifth loop passes.
pub record IsAudited (r : ValidatorResult) : Type 0 where
  pub named : is_nonempty r.validator_name ≡ true
  pub timed : pos 0 ≤ℤ r.duration_ms

pub field_reason_sound : (rs : List ValidatorResult) → field_reason rs ≡ none → All IsAudited rs
unfolding field_reason
field_reason_sound [] h = tt
field_reason_sound (r ∷ rs) h =
    (record { named = ground arith; timed = ground arith }, field_reason_sound rs (ground arith))

field_reason_complete : (rs : List ValidatorResult) → All IsAudited rs → field_reason rs ≡ none
unfolding field_reason
field_reason_complete [] h = refl
field_reason_complete (r ∷ rs) (a, h) = ground (arith, field_reason_complete rs h)

order_reason_sound :
    (k : ℕ) (expected actual : List ValidatorId)
    → order_reason k expected actual ≡ none
    → (rest : List ValidatorId) × (actual ≡ expected ++ rest)
unfolding order_reason
order_reason_sound k [] actual h = (actual, refl)
order_reason_sound k (e ∷ es) [] h = cc
order_reason_sound k (e ∷ es) (a ∷ others) h =
    let (same, later) = if-eq-none (a == e) _ _ h in
    let (rest, q) = order_reason_sound (k + 1) es others later in
    (rest, ap₂ ◌∷◌ ((validator_id_eq.eqb_iff a e).0 same) q)

-- A tenth result repeats one of the nine expected ones, or is unexpected.
extra_result_refused :
    (x : ValidatorId) (xs : List ValidatorId)
    → unexpected_reason (expected_order ++ x ∷ xs) ≡ none
    → duplicate_reason [] (expected_order ++ x ∷ xs) ≢ none
unfolding unexpected_reason duplicate_reason
extra_result_refused v1 xs h = ground arith
extra_result_refused _ xs h = ground arith

exact_order :
    (rest : List ValidatorId)
    → duplicate_reason [] (expected_order ++ rest) ≡ none
    → unexpected_reason (expected_order ++ rest) ≡ none
    → rest ≡ []
exact_order [] d u = refl
exact_order (x ∷ xs) d u = absurd (extra_result_refused x xs u d)

expected_order_passes :
    (duplicate_reason [] expected_order ≡ none)
    × (missing_reason expected_order expected_order ≡ none)
    × (unexpected_reason expected_order ≡ none)
    × (order_reason 1 expected_order expected_order ≡ none)
unfolding duplicate_reason missing_reason unexpected_reason order_reason
expected_order_passes = (refl, refl, refl, refl)

-- What passes the first, third and fourth loop is the expected order.
pub in_order :
    (actual : List ValidatorId)
    → duplicate_reason [] actual ≡ none
    → unexpected_reason actual ≡ none
    → order_reason 1 expected_order actual ≡ none
    → actual ≡ expected_order
in_order actual d u o =
    let (rest, e) = order_reason_sound 1 expected_order actual o in
    e ∙ ap (λ l. expected_order ++ l) (exact_order rest (rw e at d) (rw e at u))

-- V12 finds nothing to report exactly when the results are those of the nine other validators, each
-- once and in the expected order, each with a name and with a duration that is not negative.
pub validate_w1_audit_trail_iff :
    (rs : List ValidatorResult)
    → (validate_w1_audit_trail rs ≡ none) ↔ ((ids rs ≡ expected_order) × All IsAudited rs)
unfolding validate_w1_audit_trail
validate_w1_audit_trail_iff rs = (to, from)
  where
    to : validate_w1_audit_trail rs ≡ none → (ids rs ≡ expected_order) × All IsAudited rs
    to h =
        let (d, h1) = <|>-eq-none (duplicate_reason [] (ids rs)) _ h in
        let (m, h2) = <|>-eq-none (missing_reason expected_order (ids rs)) _ h1 in
        let (u, h3) = <|>-eq-none (unexpected_reason (ids rs)) _ h2 in
        let (o, f) = <|>-eq-none _ _ h3 in (in_order (ids rs) d u o, field_reason_sound rs f)

    from : (ids rs ≡ expected_order) × All IsAudited rs → validate_w1_audit_trail rs ≡ none
    from (e, a) =
        let (d, m, u, o) = expected_order_passes in
        rw e (rw (d, m, u, o) (field_reason_complete rs a))
