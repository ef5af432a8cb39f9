-- ===== src/Persistence/TenantReads.antt =====
-- src/persistence/tenantScopedReads.ts: the reads of the store that keep to one tenant.
use kerf_app.Common.{Bool, List, Option, String, [], if◌then◌else◌, keep, none, some, ℕ, ◌&&◌, ◌∷◌}
use kerf_app.Common.Json.{Value, is_object, member}
use kerf_app.Checks.Guards.{is_word}
use kerf_app.Persistence.Vocabulary.{PersistenceEventType, is_one_of}
use kerf_app.Persistence.EventStore.{Codec, read_all, read_by_correlation, read_by_type}

abbrev pub valid_cross_tenant_reasons : List String
valid_cross_tenant_reasons =
    "bounded_single_project_lookup" ∷ "audit_log_review" ∷ "admin_diagnostic"
    ∷ "eval_replay_or_test_fixture" ∷ []

unfoldable pub is_cross_tenant_rationale : Value → Bool
is_cross_tenant_rationale v =
    is_object v && is_one_of valid_cross_tenant_reasons (member v "reason")

abbrev pub is_of_tenant : String → Value → Bool
is_of_tenant tenant e = is_word (member e "tenant_id") tenant

module _ (codec : Codec) (file : Option (List ℕ)) where
  unfoldable pub read_events_for_tenant : String → List Value
  read_events_for_tenant tenant = keep (is_of_tenant tenant) (read_all codec file).events

  unfoldable pub read_events_for_project : String → String → List Value
  read_events_for_project tenant project_id =
      keep (is_of_tenant tenant) (read_by_correlation codec project_id file)

  unfoldable pub read_events_by_type_for_tenant : String → PersistenceEventType → List Value
  read_events_by_type_for_tenant tenant type =
      keep (is_of_tenant tenant) (read_by_type codec type file)

  -- None where the rationale is no rationale and the read throws.
  unfoldable pub read_events_across_tenants : Value → Option (List Value)
  read_events_across_tenants rationale =
      if is_cross_tenant_rationale rationale then some (read_all codec file).events else none
