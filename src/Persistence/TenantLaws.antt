-- ===== src/Persistence/TenantLaws.antt =====
-- The reads for a tenant keep to the tenant (src/persistence/tenantScopedReads.ts).
use kerf_app.Common.{
  List, Member, Member-keep_iff, Option, String, [], ap, eqb_refl, inl, inr, keep, number_eq,
  or_else, refl, subst, suc, text_eq, true, ℕ, ◌↔◌, ◌∙◌, ◌∷◌, ◌≡◌,
}
use kerf_app.Common.Json.{Value, member, text}
use kerf_app.Checks.Guards.{is_word, valid}
use kerf_app.Checks.Errors.{is_word-eq}
use kerf_app.Persistence.Vocabulary.{PersistenceEventType, type_text}
use kerf_app.Persistence.EventLaws.{IsTraceable, validate_persistence_event-IsTraceable}
use kerf_app.Persistence.EventStore.{
  Codec, LineResult, add_event, blank, events_in, read, read_all, read_by_correlation, read_by_type,
  read_line, skipped, split_lines, validate,
}
use kerf_app.Persistence.StoreLaws.{read_all-or_else, read_line-valid}
use kerf_app.Persistence.TenantReads.{
  is_of_tenant, read_events_by_type_for_tenant, read_events_for_project, read_events_for_tenant,
}

-- A traceable event of the store that bears a text under a key.
abbrev pub Bears : Codec → Option (List ℕ) → String → String → Value → Type 0
Bears codec file key word e =
    Member e (read_all codec file).events × IsTraceable e × (member e key ≡ text word)

is_word_iff : (v : Value) (word : String) → (is_word v word ≡ true) ↔ (v ≡ text word)
is_word_iff v word = (is_word-eq v word, λ e. rw e (eqb_refl word))

keep-word_iff :
    (key word : String) (e : Value) (es : List Value)
    → Member e (keep (λ x. is_word (member x key) word) es)
      ↔ (Member e es × (member e key ≡ text word))
keep-word_iff key word e es =
    let kept = Member-keep_iff (λ x. is_word (member x key) word) e es in
    let named = is_word_iff (member e key) word in
    (λ m. ((kept.0 m).0, named.0 (kept.0 m).1), λ (m, is). kept.1 (m, named.1 is))

module _ (codec : Codec) (file : Option (List ℕ)) where
  line-valid :
      (i : ℕ) (lines : List (List ℕ)) (e : Value)
      → Member e (events_in codec i lines)
      → validate codec e ≡ valid e
  unfolding events_in
  line-valid i [] e m = absurd m
  line-valid i (line ∷ rest) e m =
      by_result (read_line codec i line) refl m (line-valid (suc i) rest e)
    where
      by_result :
          (r : LineResult)
          → read_line codec i line ≡ r
          → Member e (add_event r (events_in codec (suc i) rest))
          → (Member e (events_in codec (suc i) rest) → validate codec e ≡ valid e)
          → validate codec e ≡ valid e
      by_result blank q m later = later m
      by_result (skipped w) q m later = later m
      by_result (read v) q (inl same) later = read_line-valid codec i line e (q ∙ ap read same)
      by_result (read v) q (inr m) later = later m

  -- Whatever the file holds, only valid events are read from it.
  read_all-valid : (e : Value) → Member e (read_all codec file).events → validate codec e ≡ valid e
  read_all-valid e m =
      line-valid 1 (split_lines (or_else file [])) e
        (subst (Member e) (read_all-or_else codec file).0 m)

  all-IsTraceable : (e : Value) → Member e (read_all codec file).events → IsTraceable e
  all-IsTraceable e m =
      (validate_persistence_event-IsTraceable codec.text_of e e (read_all-valid e m)).1

  Bears-iff :
      (key word : String) (e : Value)
      → Member e (keep (λ x. is_word (member x key) word) (read_all codec file).events)
        ↔ Bears codec file key word e
  Bears-iff key word e =
      let kept = keep-word_iff key word e (read_all codec file).events in
      (
        λ m. ((kept.0 m).0, all-IsTraceable e (kept.0 m).0, (kept.0 m).1),
        λ (m, traceable, is). kept.1 (m, is),
      )

  -- A key and then the tenant.
  scoped_iff :
      (key word tenant : String) (e : Value)
      → Member e (
          keep
            (is_of_tenant tenant)
            (keep (λ x. is_word (member x key) word) (read_all codec file).events))
        ↔ (Bears codec file key word e × (member e "tenant_id" ≡ text tenant))
  scoped_iff key word tenant e =
      let outer =
        keep-word_iff "tenant_id" tenant e
          (keep (λ x. is_word (member x key) word) (read_all codec file).events) in
      let inner = Bears-iff key word e in
      (λ m. (inner.0 (outer.0 m).0, (outer.0 m).1), λ (m, is). outer.1 (inner.1 m, is))

  -- Whatever the file of the store holds, the three reads for a tenant return exactly the events of
  -- the store that are of this tenant and, for a project or a type, of that project or type; and each
  -- of these events is traceable.
  pub reads_iff :
      (tenant project_id : String) (type : PersistenceEventType) (e : Value)
      → (Member e (read_events_for_tenant codec file tenant)
          ↔ Bears codec file "tenant_id" tenant e)
        × (Member e (read_events_for_project codec file tenant project_id) ↔ (
            Bears codec file "correlation_id" project_id e × (member e "tenant_id" ≡ text tenant)))
        × (Member e (read_events_by_type_for_tenant codec file tenant type)
            ↔ (Bears codec file "type" (type_text type) e × (member e "tenant_id" ≡ text tenant)))
  unfolding read_events_for_tenant read_events_for_project read_events_by_type_for_tenant
      read_by_correlation read_by_type
  reads_iff tenant project_id type e = (
    Bears-iff "tenant_id" tenant e,
    scoped_iff "correlation_id" project_id tenant e,
    scoped_iff "type" (type_text type) tenant e,
  )
