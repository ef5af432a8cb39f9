-- ===== src/Altitude/AuditReasons.antt =====
-- What V12 (src/altitude/gate.ts) reports of a trail, with the validators that it names.
use kerf_app.Common.{
  All, First, List, Member, Option, String, [], false, inl, inr, none, refl, some, subst, sym, true,
  ℕ, ◌≡◌,
}
use kerf_app.Common.Int.{pos, ◌<ℤ◌}
use kerf_app.Common.Text.{decimal, is_nonempty, ◌+++◌}
use kerf_app.Altitude.Types.{
  ValidatorId, ValidatorResult, id_text, v1, v10, v11, v12, v13, v14, v15, v16, v17, v18, v2, v3,
  v4, v5, v6, v7, v8, v9,
}
use kerf_app.Altitude.AuditTrail.{expected_order, ids, validate_w1_audit_trail}
use kerf_app.Altitude.AuditLaws.{IsAudited, field_reason_sound, in_order}
use kerf_app.Altitude.AuditCases.{
  FieldFault, FirstMismatch, FirstRepeat, HasNoRepeat, duplicate_cases, field_cases, got_text,
  missing_cases, order_cases, unexpected_cases,
}

-- The names of the validators.
abbrev name_text : ValidatorId → String
name_text v1 = "V1"
name_text v2 = "V2"
name_text v3 = "V3"
name_text v4 = "V4"
name_text v5 = "V5"
name_text v6 = "V6"
name_text v7 = "V7"
name_text v8 = "V8"
name_text v9 = "V9"
name_text v10 = "V10"
name_text v11 = "V11"
name_text v12 = "V12"
name_text v13 = "V13"
name_text v14 = "V14"
name_text v15 = "V15"
name_text v16 = "V16"
name_text v17 = "V17"
name_text v18 = "V18"

abbrev got_name : Option ValidatorId → String
got_name none = "undefined"
got_name (some id) = name_text id

-- What is reported of the results, in the order in which V12 looks.
pub data Reports (rs : List ValidatorResult) : Option String → Type 0 where
  complete : ids rs ≡ expected_order → All IsAudited rs → Reports rs none
  repeated :
      (id : ValidatorId)
      → FirstRepeat [] id (ids rs)
      → Reports rs (some ("audit_trail_duplicate: " +++ name_text id))
  missing :
      (id : ValidatorId)
      → HasNoRepeat [] (ids rs)
      → First (λ e. ¬ Member e (ids rs)) id expected_order
      → Reports rs (some ("audit_trail_incomplete: missing " +++ name_text id))
  unexpected :
      (id : ValidatorId)
      → HasNoRepeat [] (ids rs)
      → All (λ e. Member e (ids rs)) expected_order
      → First (λ i. ¬ Member i expected_order) id (ids rs)
      → Reports rs (some ("audit_trail_incomplete: unexpected " +++ name_text id))
  misplaced :
      (e : ValidatorId) (a : Option ValidatorId) (place : ℕ)
      → HasNoRepeat [] (ids rs)
      → All (λ e. Member e (ids rs)) expected_order
      → All (λ i. Member i expected_order) (ids rs)
      → FirstMismatch 1 expected_order (ids rs) e a place
      → Reports rs (
          some (
            "audit_trail_out_of_order: expected "
            +++ name_text e
            +++ "@"
            +++ decimal place
            +++ " got "
            +++ got_name a
            +++ "@"
            +++ decimal place))
  unnamed :
      (r : ValidatorResult)
      → ids rs ≡ expected_order
      → First (λ x. ¬ IsAudited x) r rs
      → is_nonempty r.validator_name ≡ false
      → Reports rs
          (some ("audit_trail_field_missing: " +++ name_text r.validator_id +++ ".validator_name"))
  untimed :
      (r : ValidatorResult)
      → ids rs ≡ expected_order
      → First (λ x. ¬ IsAudited x) r rs
      → is_nonempty r.validator_name ≡ true
      → r.duration_ms <ℤ pos 0
      → Reports rs
          (some ("audit_trail_field_missing: " +++ name_text r.validator_id +++ ".duration_ms"))

id_text-name_text : (id : ValidatorId) → id_text id ≡ name_text id
unfolding decimal
id_text-name_text v1 = refl
id_text-name_text v2 = refl
id_text-name_text v3 = refl
id_text-name_text v4 = refl
id_text-name_text v5 = refl
id_text-name_text v6 = refl
id_text-name_text v7 = refl
id_text-name_text v8 = refl
id_text-name_text v9 = refl
id_text-name_text v10 = refl
id_text-name_text v11 = refl
id_text-name_text v12 = refl
id_text-name_text v13 = refl
id_text-name_text v14 = refl
id_text-name_text v15 = refl
id_text-name_text v16 = refl
id_text-name_text v17 = refl
id_text-name_text v18 = refl

got_text-got_name : (a : Option ValidatorId) → got_text a ≡ got_name a
got_text-got_name none = refl
got_text-got_name (some id) = id_text-name_text id

-- A report by the names of the validators is one by their ids.
named :
    {rs : List ValidatorResult} (text : String → String) (id : ValidatorId)
    → Reports rs (some (text (name_text id)))
    → Reports rs (some (text (id_text id)))
named {rs} text id r = subst (λ t. Reports rs (some (text t))) (sym (id_text-name_text id)) r

-- What V12 reports of the results of the other validators, in the order in which it looks: the first
-- id that is repeated, the first expected one that is missing, the first one that is not expected, the
-- first place where the expected one is not there, with the one that is, and the first result without
-- a name or with a negative duration; each by the id of that validator. It reports nothing only if the
-- results are the nine expected ones in their order, each with a name and no negative duration.
pub validate_w1_audit_trail-Reports :
    (rs : List ValidatorResult) → Reports rs (validate_w1_audit_trail rs)
unfolding validate_w1_audit_trail FieldFault
validate_w1_audit_trail-Reports rs = elim (duplicate_cases [] (ids rs)) [
  | inr (id, e, first) ↦ rw e (named (λ t. "audit_trail_duplicate: " +++ t) id (repeated id first))
  | inl (d, distinct) ↦ elim (missing_cases expected_order (ids rs)) [
    | inr (id, e, first) ↦ rw d (
        rw e (named (λ t. "audit_trail_incomplete: missing " +++ t) id (missing id distinct first)))
    | inl (m, present) ↦ elim (unexpected_cases (ids rs)) [
      | inr (id, e, first) ↦ rw d (
          rw m (
            rw e (
              named (λ t. "audit_trail_incomplete: unexpected " +++ t) id
                (unexpected id distinct present first))))
      | inl (u, known) ↦ elim (order_cases 1 expected_order (ids rs)) [
        | inr (x, a, place, e, first) ↦ rw d (
            rw m (
              rw u (
                rw e (
                  named
                    (λ t.
                      "audit_trail_out_of_order: expected "
                      +++ t
                      +++ "@"
                      +++ decimal place
                      +++ " got "
                      +++ got_text a
                      +++ "@"
                      +++ decimal place)
                    x
                    (subst
                      (λ t. Reports rs (
                        some (
                          "audit_trail_out_of_order: expected "
                          +++ name_text x
                          +++ "@"
                          +++ decimal place
                          +++ " got "
                          +++ t
                          +++ "@"
                          +++ decimal place)))
                      (sym (got_text-got_name a))
                      (misplaced x a place distinct present known first))))))
        | inl o ↦
            let order = in_order (ids rs) d u o in
            elim (field_cases rs) [
              | inl f ↦ rw d (rw m (rw u (rw o (rw f (complete order (field_reason_sound rs f))))))
              | inr (r, first, fault) ↦ elim fault [
                | inl (empty, e) ↦ rw d (
                    rw m (
                      rw u (
                        rw o (
                          rw e (
                            named (λ t. "audit_trail_field_missing: " +++ t +++ ".validator_name")
                              r.validator_id (unnamed r order first empty))))))
                | inr (full, early, e) ↦ rw d (
                    rw m (
                      rw u (
                        rw o (
                          rw e (
                            named (λ t. "audit_trail_field_missing: " +++ t +++ ".duration_ms")
                              r.validator_id (untimed r order first full early))))))
              ]
            ]
      ]
    ]
  ]
]
