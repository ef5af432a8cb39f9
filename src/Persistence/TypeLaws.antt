-- ===== src/Persistence/TypeLaws.antt =====
-- What a valid event has by its type (src/persistence/events.ts): its money, and the rules that bind
-- several of its fields.
use kerf_app.Common.{
  All, Bool, Bool-cases, List, String, [], arith, false, if◌then◌else◌, inl, inr, is_some, refl,
  some, subst, true, ◌||◌, ◌∷◌, ◌≡◌, ◌≢◌, ◌⊎◌,
}
use kerf_app.Common.Json.{Value, bool, is_null, is_object, member, null, text, undefined}
use kerf_app.Checks.Guards.{
  integer_cents, is_bool, is_false, is_nonempty_text, is_true, is_undefined, is_word, require,
  valid,
}
use kerf_app.Checks.Errors.{
  HasCents, NoErrors, both_met, is_some_met, is_word-eq, is_word-ne, nth_met, require_met,
}
use kerf_app.Persistence.Vocabulary.{
  PersistenceEventType, actuals_recorded, allowance_exception_opened, ap_invoice_approved,
  ap_invoice_scheduled, calibration_answered, client_approval_confirmed, daily_log_entry_captured,
  export_requested, invoice_created, is_one_of, payment_recorded, proposal_accepted,
  proposal_drafted, valid_clock_sub_kinds,
}
use kerf_app.Persistence.WorkEvents.{
  validate_actuals_recorded, validate_client_approval_confirmed, validate_proposal_accepted,
  validate_proposal_drafted,
}
use kerf_app.Persistence.FieldEvents.{clock_errors, validate_daily_log_entry_captured}
use kerf_app.Persistence.LearningEvents.{validate_calibration_answered, validate_export_requested}
use kerf_app.Persistence.MoneyEvents.{
  validate_allowance_exception_opened, validate_ap_invoice_approved, validate_ap_invoice_scheduled,
  validate_invoice_created, validate_payment_recorded,
}
use kerf_app.Persistence.Events.{event_errors, event_type, type_errors, validate_persistence_event}
use kerf_app.Persistence.EventLaws.{validate_persistence_event-NoErrors}

-- The amounts that an event of a type carries.
abbrev pub money_keys : PersistenceEventType → List String
money_keys client_approval_confirmed = "client_visible_total_cents" ∷ []
money_keys actuals_recorded = "actual_cents" ∷ []
money_keys proposal_drafted = "total_cents" ∷ []
money_keys proposal_accepted = "total_cents" ∷ []
money_keys invoice_created = "total_cents" ∷ []
money_keys ap_invoice_scheduled = "total_cents" ∷ []
money_keys ap_invoice_approved = "total_cents" ∷ []
money_keys payment_recorded = "amount_cents" ∷ []
money_keys allowance_exception_opened = "delta_cents" ∷ "threshold_cents" ∷ []
money_keys _ = []

-- A private export is for reading only.
abbrev pub IsReadOnlyExport : Value → Type 0
IsReadOnlyExport event =
    (is_true (member event "owner_private") ≡ false)
    ⊎ (member event "format" ≡ text "pdf")
    ⊎ (member event "format" ≡ text "print")

-- An entry of the daily log has a kind of clock event exactly when it is one.
abbrev pub IsClocked : Value → Type 0
IsClocked event =
    ((member event "entry_kind" ≡ text "clock_event")
      × (is_one_of valid_clock_sub_kinds (member event "clock_sub_kind") ≡ true))
    ⊎ ((member event "entry_kind" ≢ text "clock_event")
        × ((member event "clock_sub_kind" ≡ null) ⊎ (member event "clock_sub_kind" ≡ undefined)))

-- A question is skipped and has no answer, or it has one.
abbrev pub IsAnswered : Value → Type 0
IsAnswered event =
    ((is_true (member event "skipped") ≡ true) × (member event "answer" ≡ null))
    ⊎ ((is_false (member event "skipped") ≡ true)
        × (is_nonempty_text (member event "answer") ≡ true))

abbrev pub FieldsAgree : PersistenceEventType → Value → Type 0
FieldsAgree export_requested event = IsReadOnlyExport event
FieldsAgree daily_log_entry_captured event = IsClocked event
FieldsAgree calibration_answered event = IsAnswered event
FieldsAgree _ event = Unit

null_eq : (v : Value) → is_null v ≡ true → v ≡ null
null_eq null h = refl
null_eq _ h = cc

null_or_undefined :
    (v : Value) → (is_null v || is_undefined v) ≡ true → (v ≡ null) ⊎ (v ≡ undefined)
null_or_undefined null h = inl refl
null_or_undefined undefined h = inr refl
null_or_undefined _ h = cc

amount_met :
    (r : Value) (key m : String)
    → is_object r ≡ true
    → NoErrors (require (is_some (integer_cents (member r key))) m)
    → HasCents key r
amount_met r key m object h = let (a, e) = is_some_met _ (require_met _ _ h) in (object, a, e)

clock_split :
    (clock unset kind : Bool) (m n k : String)
    → NoErrors (if clock then if unset then m ∷ [] else require kind n else require unset k)
    → ((clock ≡ true) × (kind ≡ true)) ⊎ ((clock ≡ false) × (unset ≡ true))
clock_split true true kind m n k h = let e = h.none_left in cc
clock_split true false kind m n k h = inl (refl, require_met _ _ h)
clock_split false unset kind m n k h = inr (refl, require_met _ _ h)

answer_split :
    (skipped asked unset given : Bool) (m n : String)
    → (skipped || asked) ≡ true
    → NoErrors (if skipped then require unset m else if asked then require given n else [])
    → ((skipped ≡ true) × (unset ≡ true)) ⊎ ((asked ≡ true) × (given ≡ true))
answer_split true asked unset given m n b h = inl (refl, require_met _ _ h)
answer_split false true unset given m n b h = inr (refl, require_met _ _ h)
answer_split false false unset given m n b h = cc

true_or_false : (v : Value) → is_bool v ≡ true → (is_true v || is_false v) ≡ true
true_or_false (bool true) h = refl
true_or_false (bool false) h = refl
true_or_false _ h = cc

module _ (text_of : Value → String) (r : Value) (object : is_object r ≡ true) where
  -- The amounts are whole numbers of cents.
  type-HasCents :
      (t : PersistenceEventType)
      → NoErrors (type_errors text_of t r)
      → All (λ key. HasCents key r) (money_keys t)
  unfolding type_errors validate_client_approval_confirmed validate_actuals_recorded
      validate_proposal_drafted validate_proposal_accepted validate_invoice_created
      validate_ap_invoice_scheduled validate_ap_invoice_approved validate_payment_recorded
      validate_allowance_exception_opened
  type-HasCents client_approval_confirmed h = (amount_met r _ _ object (nth_met 5 _ h), tt)
  type-HasCents actuals_recorded h = (amount_met r _ _ object (nth_met 2 _ h), tt)
  type-HasCents proposal_drafted h = (amount_met r _ _ object (nth_met 5 _ h), tt)
  type-HasCents proposal_accepted h = (amount_met r _ _ object (nth_met 3 _ h), tt)
  type-HasCents invoice_created h = (amount_met r _ _ object (nth_met 4 _ h), tt)
  type-HasCents ap_invoice_scheduled h = (amount_met r _ _ object (nth_met 3 _ h), tt)
  type-HasCents ap_invoice_approved h = (amount_met r _ _ object (nth_met 3 _ h), tt)
  type-HasCents payment_recorded h = (amount_met r _ _ object (nth_met 2 _ h), tt)
  type-HasCents allowance_exception_opened h =
      (amount_met r _ _ object (nth_met 4 _ h), (amount_met r _ _ object (nth_met 5 _ h), tt))
  type-HasCents _ h = tt

  export-IsReadOnlyExport : NoErrors (validate_export_requested r) → IsReadOnlyExport r
  unfolding validate_export_requested
  export-IsReadOnlyExport h =
      let rule = require_met _ _ (nth_met 5 _ h) in
      elim (Bool-cases (is_true (member r "owner_private"))) [
        | inr public ↦ inl public
        | inl private ↦ elim (Bool-cases (is_word (member r "format") "pdf")) [
          | inl pdf ↦ inr (inl (is_word-eq _ "pdf" pdf))
          | inr other ↦ inr (inr (is_word-eq _ "print" (ground arith)))
        ]
      ]

  clock-IsClocked : NoErrors (validate_daily_log_entry_captured text_of r) → IsClocked r
  unfolding validate_daily_log_entry_captured clock_errors
  clock-IsClocked h =
      elim (clock_split (is_word (member r "entry_kind") "clock_event")
        (is_null (member r "clock_sub_kind") || is_undefined (member r "clock_sub_kind"))
        (is_one_of valid_clock_sub_kinds (member r "clock_sub_kind")) _ _ _ (nth_met 5 _ h)) [
          | inl (clock, kind) ↦ inl (is_word-eq _ "clock_event" clock, kind)
          | inr (other, unset) ↦ inr (is_word-ne _ "clock_event" other, null_or_undefined _ unset)
        ]

  answer-IsAnswered : NoErrors (validate_calibration_answered r) → IsAnswered r
  unfolding validate_calibration_answered
  answer-IsAnswered h =
      elim (answer_split (is_true (member r "skipped")) (is_false (member r "skipped"))
        (is_null (member r "answer")) (is_nonempty_text (member r "answer")) _ _
        (true_or_false _ (require_met _ _ (nth_met 2 _ h))) (nth_met 3 _ h)) [
          | inl (skipped, none_given) ↦ inl (skipped, null_eq _ none_given)
          | inr answered ↦ inr answered
        ]

  type-FieldsAgree :
      (t : PersistenceEventType) → NoErrors (type_errors text_of t r) → FieldsAgree t r
  unfolding type_errors
  type-FieldsAgree export_requested h = export-IsReadOnlyExport h
  type-FieldsAgree daily_log_entry_captured h = clock-IsClocked h
  type-FieldsAgree calibration_answered h = answer-IsAnswered h
  type-FieldsAgree _ h = tt

-- In a valid event every amount that its type carries is a whole number of cents, not negative. A
-- private export is a PDF or a print, an entry of the daily log has a kind of clock event exactly when
-- it is a clock event, and an answer is there exactly when its question is not skipped.
pub validate_persistence_event-by_type :
    (text_of : Value → String) (input event : Value) (t : PersistenceEventType)
    → validate_persistence_event text_of input ≡ valid event
    → event_type input ≡ some t
    → All (λ key. HasCents key input) (money_keys t) × FieldsAgree t input
unfolding event_errors
validate_persistence_event-by_type text_of input event t h known =
    let (_, object, u, is_u, clean) = validate_persistence_event-NoErrors text_of input event h in
    let same : u ≡ t = cc in
    let errors = subst (λ t. NoErrors (type_errors text_of t input)) same (both_met clean).1 in
    (type-HasCents text_of input object t errors, type-FieldsAgree text_of input object t errors)
