-- ===== src/Persistence/Examples.antt =====
-- The events and their store, src/persistence, on concrete events.
use kerf_app.Common.{
  All, List, Member, Option, String, [], if◌then◌else◌, none, refl, some, ℕ, ◌++◌, ◌↔◌, ◌∷◌, ◌≡◌,
}
use kerf_app.Common.Int.{pos}
use kerf_app.Common.Text.{codes, decimal, starts_with}
use kerf_app.Common.Json.{
  Fields, Value, arr, end, field, int, item, member, nil, null, num, obj, text,
}
use kerf_app.Checks.Patterns.{eat, eat_digits, is_iso8601_text, skip_digits}
use kerf_app.Checks.Guards.{
  check_given, errors_of, invalid, is_iso8601, is_word, require, require_given, require_object,
  require_one_of, valid, validate_each,
}
use kerf_app.Checks.Errors.{HasCents}
use kerf_app.Persistence.Vocabulary.{event_type_of, payment_recorded, type_text}
use kerf_app.Persistence.WorkEvents.{validate_project_created}
use kerf_app.Persistence.LearningEvents.{validate_export_requested}
use kerf_app.Persistence.MoneyEvents.{validate_payment_recorded}
use kerf_app.Persistence.Events.{
  event_errors, event_type, require_sources, type_errors, type_name_errors, validate_base,
  validate_event_actor, validate_persistence_event, validate_source_ref, validate_source_refs,
}
use kerf_app.Persistence.EventLaws.{IsTraceable, validate_persistence_event-IsTraceable}
use kerf_app.Persistence.TypeLaws.{FieldsAgree, money_keys, validate_persistence_event-by_type}
use kerf_app.Persistence.EventStore.{
  Codec, append_event, events_in, file_text, read_all, read_by_correlation, read_by_type, read_line,
  split_lines, trim_codes_end, trim_codes_start, warnings_in,
}
use kerf_app.Persistence.StoreLaws.{IsWritable, accepted, append_all, append_all-read_all}
use kerf_app.Persistence.TenantReads.{
  read_events_by_type_for_tenant, read_events_for_project, read_events_for_tenant,
}
use kerf_app.Persistence.TenantLaws.{Bears, reads_iff}

-- Opens the checks of events with all that they call.
checks : Unit {0}
unfolding validate_persistence_event event_errors validate_base type_errors event_type_of
    type_name_errors validate_event_actor validate_source_refs require_sources validate_source_ref
    validate_project_created validate_payment_recorded validate_export_requested validate_each
    require require_given check_given require_object require_one_of errors_of is_iso8601
    is_iso8601_text eat eat_digits skip_digits decimal
checks = tt

abbrev plain_text : Value → String
plain_text v = "a value"

abbrev event_of : String → String → String → Fields → Value
event_of id type tenant rest = obj (
    field "event_id" (text id) (
      field "type" (text type) (
        field "tenant_id" (text tenant) (
          field "correlation_id" (text "project_1") (
            field "actor" (obj (field "id" (text "u_1") (field "role" (text "owner") end)))
              (field "at" (text "2026-05-15T12:00:00Z") rest))))))

abbrev payment : Value
payment = event_of "a" "payment.recorded" "tenant_ggr" (
    field "source_refs" (arr (item (obj (field "kind" (text "doc") end)) nil)) (
      field "payment_id" (text "pay_1") (
        field "invoice_id" null (
          field "amount_cents" (num (int (pos 5000))) (
            field "received_at" (text "2026-05-15T12:00:00Z")
              (field "payment_method" (text "check") end))))))

abbrev project : String → Value
project name = event_of "b" "project.created" "tenant_valle" (
    field "source_refs" (arr nil) (
      field "project_id" (text "project_1")
        (field "project_name" (text name) (field "client_name" (text "Lee") end))))

payment-valid : validate_persistence_event plain_text payment ≡ valid payment
unfolding checks
payment-valid = refl

project-valid : validate_persistence_event plain_text (project "Deck") ≡ valid (project "Deck")
unfolding checks
project-valid = refl

project-invalid :
    validate_persistence_event plain_text (project "")
    ≡ invalid ("project_name must be a non-empty string" ∷ [])
unfolding checks
project-invalid = refl

validate_persistence_event-IsTraceable_example : (payment ≡ payment) × IsTraceable payment
validate_persistence_event-IsTraceable_example =
    validate_persistence_event-IsTraceable plain_text payment payment payment-valid

payment_type : event_type payment ≡ some payment_recorded
unfolding checks
payment_type = refl

validate_persistence_event-by_type_example :
    All (λ key. HasCents key payment) (money_keys payment_recorded)
    × FieldsAgree payment_recorded payment
validate_persistence_event-by_type_example =
    validate_persistence_event-by_type plain_text payment payment payment_recorded payment-valid
      payment_type

-- A letter for each of the two events.
abbrev letters : Codec
letters = record {
  parse = λ s. if starts_with (codes "a") s then some payment else some (project "Deck");
  stringify = λ e. if is_word (member e "event_id") "a" then codes "a" else codes "b";
  text_of = plain_text;
}

abbrev file : Option (List ℕ)
file = some (codes "a" ++ (10 ∷ (codes "b" ++ (10 ∷ []))))

-- Opens the store with all that it calls.
store : Unit {0}
unfolding checks append_event read_line events_in warnings_in read_all split_lines trim_codes_end
    trim_codes_start file_text read_by_correlation read_by_type append_all read_events_for_tenant
    read_events_for_project
store = tt

file-appended : append_all letters (payment ∷ project "" ∷ project "Deck" ∷ []) none ≡ file
unfolding store
file-appended = refl

file-of_tenant : read_events_for_tenant letters file "tenant_ggr" ≡ payment ∷ []
unfolding store
file-of_tenant = refl

payment-IsWritable : IsWritable letters payment
unfolding store
payment-IsWritable = record { on_a_line = refl; visible = refl; read_back = refl }

project-IsWritable : IsWritable letters (project "Deck")
unfolding store
project-IsWritable = record { on_a_line = refl; visible = refl; read_back = refl }

append_all-read_all_example :
    ((read_all letters (append_all letters (payment ∷ project "Deck" ∷ []) none)).events
      ≡ accepted letters (payment ∷ project "Deck" ∷ []))
    × ((read_all letters (append_all letters (payment ∷ project "Deck" ∷ []) none)).warnings ≡ [])
append_all-read_all_example =
    append_all-read_all letters (payment ∷ project "Deck" ∷ [])
      (payment-IsWritable, (project-IsWritable, tt))

reads_iff_example :
    (Member payment (read_events_for_tenant letters file "tenant_ggr")
      ↔ Bears letters file "tenant_id" "tenant_ggr" payment)
    × (Member payment (read_events_for_project letters file "tenant_ggr" "project_1") ↔ (
        Bears letters file "correlation_id" "project_1" payment
        × (member payment "tenant_id" ≡ text "tenant_ggr")))
    × (Member payment (read_events_by_type_for_tenant letters file "tenant_ggr" payment_recorded)
        ↔ (Bears letters file "type" (type_text payment_recorded) payment
            × (member payment "tenant_id" ≡ text "tenant_ggr")))
reads_iff_example = reads_iff letters file "tenant_ggr" "project_1" payment_recorded payment
