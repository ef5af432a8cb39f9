-- ===== src/Altitude/AuditCases.antt =====
-- Where each loop of V12 (src/altitude/gate.ts) stops, by relations on the list that it walks.
use kerf_app.Common.{
  All, Bool-cases, First, List, Member, Member→includes, Option, String, [], arith, false, includes,
  includes→Member, inl, inr, none, number_eq, refl, some, text_eq, true, ℕ, ◌+◌, ◌==◌, ◌∷◌, ◌≡◌,
  ◌≢◌, ◌⊎◌,
}
use kerf_app.Common.Int.{ltb_ℤ, pos, ◌<ℤ◌}
use kerf_app.Common.Text.{decimal, is_nonempty, ◌+++◌}
use kerf_app.Altitude.Types.{
  ValidatorId, ValidatorResult, flag_eq, id_text, role_visibility_eq, validator_id_eq,
}
use kerf_app.Altitude.AuditTrail.{
  duplicate_reason, expected_order, field_reason, missing_reason, order_reason, unexpected_reason,
}
use kerf_app.Altitude.AuditLaws.{IsAudited}

-- The first id that is among those before it or among those already seen.
abbrev pub FirstRepeat : List ValidatorId → ValidatorId → List ValidatorId → Type 0
FirstRepeat seen id [] = ⊥
FirstRepeat seen id (x ∷ xs) =
    ((x ≡ id) × Member x seen) ⊎ ((¬ Member x seen) × FirstRepeat (x ∷ seen) id xs)

abbrev pub HasNoRepeat : List ValidatorId → List ValidatorId → Type 0
HasNoRepeat seen [] = Unit
HasNoRepeat seen (x ∷ xs) = (¬ Member x seen) × HasNoRepeat (x ∷ seen) xs

-- The first place, counted from k, where the ids are not the expected ones, with what is expected and
-- what is there, if anything.
abbrev pub FirstMismatch :
    ℕ → List ValidatorId → List ValidatorId → ValidatorId → Option ValidatorId → ℕ → Type 0
FirstMismatch k [] actual e a place = ⊥
FirstMismatch k (x ∷ xs) [] e a place = (x ≡ e) × (a ≡ none) × (place ≡ k)
FirstMismatch k (x ∷ xs) (y ∷ ys) e a place =
    ((y ≢ x) × (x ≡ e) × (a ≡ some y) × (place ≡ k))
    ⊎ ((y ≡ x) × FirstMismatch (k + 1) xs ys e a place)

abbrev pub got_text : Option ValidatorId → String
got_text none = "undefined"
got_text (some id) = id_text id

includes_cases :
    (xs : List ValidatorId) (a : ValidatorId)
    → ((includes xs a ≡ true) × Member a xs) ⊎ ((includes xs a ≡ false) × (¬ Member a xs))
includes_cases xs a = elim (Bool-cases (includes xs a)) [
  | inl holds ↦ inl (holds, includes→Member xs a holds)
  | inr fails ↦ inr (fails, λ m. let holds = Member→includes xs a m in cc)
]

pub duplicate_cases :
    (seen xs : List ValidatorId)
    → ((duplicate_reason seen xs ≡ none) × HasNoRepeat seen xs)
      ⊎ ((id : ValidatorId) × (duplicate_reason seen xs
            ≡ some ("audit_trail_duplicate: " +++ id_text id))
          × FirstRepeat seen id xs)
unfolding duplicate_reason
duplicate_cases seen [] = inl (refl, tt)
duplicate_cases seen (x ∷ xs) = elim (includes_cases seen x) [
  | inl (here, m) ↦ inr (x, rw here refl, inl (refl, m))
  | inr (here, n) ↦ elim (duplicate_cases (x ∷ seen) xs) [
    | inl (clean, distinct) ↦ inl (rw here clean, (n, distinct))
    | inr (id, e, first) ↦ inr (id, rw here e, inr (n, first))
  ]
]

pub missing_cases :
    (expected seen : List ValidatorId)
    → ((missing_reason expected seen ≡ none) × All (λ e. Member e seen) expected)
      ⊎ ((id : ValidatorId) × (missing_reason expected seen
            ≡ some ("audit_trail_incomplete: missing " +++ id_text id))
          × First (λ e. ¬ Member e seen) id expected)
unfolding missing_reason
missing_cases [] seen = inl (refl, tt)
missing_cases (x ∷ xs) seen = elim (includes_cases seen x) [
  | inl (here, m) ↦ elim (missing_cases xs seen) [
    | inl (clean, each) ↦ inl (rw here clean, (m, each))
    | inr (id, e, first) ↦ inr (id, rw here e, inr (λ n. n m, first))
  ]
  | inr (here, n) ↦ inr (x, rw here refl, inl (refl, n))
]

pub unexpected_cases :
    (xs : List ValidatorId)
    → ((unexpected_reason xs ≡ none) × All (λ i. Member i expected_order) xs)
      ⊎ ((id : ValidatorId) × (unexpected_reason xs
            ≡ some ("audit_trail_incomplete: unexpected " +++ id_text id))
          × First (λ i. ¬ Member i expected_order) id xs)
unfolding unexpected_reason
unexpected_cases [] = inl (refl, tt)
unexpected_cases (x ∷ xs) = elim (includes_cases expected_order x) [
  | inl (here, m) ↦ elim (unexpected_cases xs) [
    | inl (clean, each) ↦ inl (rw here clean, (m, each))
    | inr (id, e, first) ↦ inr (id, rw here e, inr (λ n. n m, first))
  ]
  | inr (here, n) ↦ inr (x, rw here refl, inl (refl, n))
]

pub order_cases :
    (k : ℕ) (expected actual : List ValidatorId)
    → (order_reason k expected actual ≡ none)
      ⊎ ((e : ValidatorId) × (a : Option ValidatorId) × (place : ℕ) × (order_reason k expected
              actual
            ≡ some (
                "audit_trail_out_of_order: expected "
                +++ id_text e
                +++ "@"
                +++ decimal place
                +++ " got "
                +++ got_text a
                +++ "@"
                +++ decimal place))
          × FirstMismatch k expected actual e a place)
unfolding order_reason
order_cases k [] actual = inl refl
order_cases k (x ∷ xs) [] = inr (x, none, k, refl, (refl, refl, refl))
order_cases k (x ∷ xs) (y ∷ ys) = elim (Bool-cases (y == x)) [
  | inl same ↦ elim (order_cases (k + 1) xs ys) [
    | inl clean ↦ inl (rw same clean)
    | inr (e, a, place, q, first) ↦
        inr (e, a, place, rw same q, inr ((validator_id_eq.eqb_iff y x).0 same, first))
  ]
  | inr differs ↦ inr (
    x,
    some y,
    k,
    rw differs refl,
    inl (λ e. let same = (validator_id_eq.eqb_iff y x).1 e in cc, refl, refl, refl),
  )
]

not-IsAudited_name : (r : ValidatorResult) → is_nonempty r.validator_name ≡ false → ¬ IsAudited r
not-IsAudited_name r e a = let named = a.named in cc

not-IsAudited_time : (r : ValidatorResult) → ltb_ℤ r.duration_ms (pos 0) ≡ true → ¬ IsAudited r
not-IsAudited_time r e a = let timed = a.timed in ground arith

unfoldable pub FieldFault : List ValidatorResult → Type 0
FieldFault rs =
    (r : ValidatorResult) × First (λ x. ¬ IsAudited x) r rs
    × (((is_nonempty r.validator_name ≡ false)
          × (field_reason rs
              ≡ some
                  ("audit_trail_field_missing: " +++ id_text r.validator_id +++ ".validator_name")))
        ⊎ ((is_nonempty r.validator_name ≡ true)
            × (r.duration_ms <ℤ pos 0)
            × (field_reason rs
                ≡ some
                    ("audit_trail_field_missing: " +++ id_text r.validator_id +++ ".duration_ms"))))

pub field_cases : (rs : List ValidatorResult) → (field_reason rs ≡ none) ⊎ FieldFault rs
unfolding field_reason FieldFault
field_cases [] = inl refl
field_cases (r ∷ rest) = elim (Bool-cases (is_nonempty r.validator_name)) [
  | inr empty ↦ inr (r, inl (refl, not-IsAudited_name r empty), inl (empty, rw empty refl))
  | inl named ↦ elim (Bool-cases (ltb_ℤ r.duration_ms (pos 0))) [
    | inl early ↦ inr (
      r,
      inl (refl, not-IsAudited_time r early),
      inr (named, ground arith, rw named (rw early refl)),
    )
    | inr timed ↦
        let audited : IsAudited r = record { named = named; timed = ground arith } in
        elim (field_cases rest) [
          | inl clean ↦ inl (rw named (rw timed clean))
          | inr (s, first, fault) ↦ inr (
            s,
            inr (λ n. n audited, first),
            elim fault [
              | inl (empty, e) ↦ inl (empty, rw named (rw timed e))
              | inr (full, early, e) ↦ inr (full, early, rw named (rw timed e))
            ],
          )
        ]
  ]
]
