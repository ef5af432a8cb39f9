-- ===== src/Persistence/EventLaws.antt =====
-- What every valid event has (src/persistence/events.ts).
use kerf_app.Common.{
  Bool, List, Member, Option, String, [], ap, arith, false, find-Member, if◌then◌else◌, inl, inr,
  is_empty, none, not, number_eq, refl, some, sym, text_eq, true, ◌==◌, ◌>?◌, ◌||◌, ◌∙◌, ◌∷◌, ◌≡◌,
  ◌≢◌, ◌⊎◌,
}
use kerf_app.Common.Json.{Value, array, is_object, member, text}
use kerf_app.Checks.Guards.{invalid, is_iso8601, is_nonempty_text, nonempty_string, valid}
use kerf_app.Checks.Errors.{
  NoErrors, both_met, check_met, given_met, nonempty_string-text, nth_met, object_met, one_of_met,
  require_met,
}
use kerf_app.Persistence.Vocabulary.{
  PersistenceEventType, event_type_of, is_source_refs_optional, type_text, valid_actor_roles,
  valid_event_types, valid_tenant_ids,
}
use kerf_app.Persistence.Events.{
  event_errors, event_type, require_sources, validate_base, validate_event_actor,
  validate_persistence_event, validate_source_refs,
}

-- Who did what for which tenant, when, and from which sources.
pub record IsTraceable (event : Value) : Type 0 where
  pub type : PersistenceEventType
  pub tenant : String
  pub role : String
  pub refs : List Value
  pub has_type : member event "type" ≡ text (type_text type)
  pub has_tenant : (member event "tenant_id" ≡ text tenant) × Member tenant valid_tenant_ids
  pub has_role : (member (member event "actor") "role" ≡ text role) × Member role valid_actor_roles
  pub has_ids :
      (is_nonempty_text (member event "event_id") ≡ true)
      × (is_nonempty_text (member event "correlation_id") ≡ true)
      × (is_nonempty_text (member (member event "actor") "id") ≡ true)
  pub has_time : is_iso8601 (member event "at") ≡ true
  pub has_refs : array (member event "source_refs") ≡ some refs
  pub has_sources : (is_source_refs_optional type ≡ true) ⊎ (refs ≢ [])

judged :
    {A : Type 0} (b : Bool) (o : Option A) (base message : List String) (errors : A → List String)
    (input event : Value)
    → (if b
        then elim o [
          | none ↦ invalid base
          | some t ↦ if is_empty (errors t) then valid input else invalid (errors t)
        ]
        else invalid message)
      ≡ valid event
    → (event ≡ input) × (b ≡ true) × (t : A) × (o ≡ some t) × NoErrors (errors t)
judged false o base message errors input event h = cc
judged true none base message errors input event h = cc
judged true (some t) base message errors input event h = by_test (is_empty (errors t)) refl h
  where
    by_test :
        (c : Bool)
        → is_empty (errors t) ≡ c
        → (if c then valid input else invalid (errors t)) ≡ valid event
        → (event ≡ input) × (true ≡ true) × (u : _) × (some t ≡ some u) × NoErrors (errors u)
    by_test true e g = (cc, refl, t, refl, record { none_left = e })
    by_test false e g = cc

-- A valid event is the input, an object of a known type, and has no errors.
pub validate_persistence_event-NoErrors :
    (text_of : Value → String) (input event : Value)
    → validate_persistence_event text_of input ≡ valid event
    → (event ≡ input)
      × (is_object input ≡ true)
      × (t : PersistenceEventType) × (event_type input ≡ some t)
      × NoErrors (event_errors text_of t input)
unfolding validate_persistence_event
validate_persistence_event-NoErrors text_of input event h =
    judged (is_object input) (event_type input) (validate_base input) _
      (λ t. event_errors text_of t input) input event h

event_type_of-text :
    (s : String) (t : PersistenceEventType) → event_type_of s ≡ some t → type_text t ≡ s
unfolding event_type_of
event_type_of-text s t h =
    let (_, same) = find-Member (λ t. type_text t == s) t valid_event_types h in
    (text_eq.eqb_iff (type_text t) s).0 same

>?-split :
    {A B : Type 0} (o : Option A) (f : A → Option B) (b : B)
    → (o >? f) ≡ some b
    → (a : A) × (o ≡ some a) × (f a ≡ some b)
>?-split none f b h = cc
>?-split (some a) f b h = (a, refl, h)

-- The type is the text under its key.
pub event_type-text :
    (r : Value) (t : PersistenceEventType)
    → event_type r ≡ some t
    → member r "type" ≡ text (type_text t)
event_type-text r t h =
    let (s, e, named) = >?-split (nonempty_string (member r "type")) event_type_of t h in
    nonempty_string-text _ s e ∙ ap text (sym (event_type_of-text s t named))

sources_met :
    (t : PersistenceEventType) (refs : List Value)
    → (is_source_refs_optional t || not (is_empty refs)) ≡ true
    → (is_source_refs_optional t ≡ true) ⊎ (refs ≢ [])
sources_met t [] h = inl (ground arith)
sources_met t (ref ∷ rest) h = inr (λ e. cc)

base-IsTraceable :
    (r : Value) (t : PersistenceEventType)
    → event_type r ≡ some t
    → NoErrors (validate_base r)
    → IsTraceable r
unfolding validate_base validate_event_actor validate_source_refs require_sources
base-IsTraceable r t known h =
    let (tenant, is_tenant, known_tenant) = one_of_met _ _ _ _ (nth_met 2 _ h) in
    let (_, actor) = object_met _ _ _ (nth_met 4 _ h) in
    let (actor_id, actor_role) = both_met actor in
    let (role, is_role, known_role) = one_of_met _ _ _ _ actor_role in
    let (refs, has_refs, sources) = given_met _ _ _ (nth_met 6 _ h) in
    let (some_source, _) = both_met sources in
    record {
      type = t;
      tenant = tenant;
      role = role;
      refs = refs;
      has_type = event_type-text r t known;
      has_tenant = (is_tenant, known_tenant);
      has_role = (is_role, known_role);
      has_ids = (
        require_met _ _ (nth_met 0 _ h),
        require_met _ _ (nth_met 3 _ h),
        require_met _ _ actor_id,
      );
      has_time = require_met _ _ (nth_met 5 _ h);
      has_refs = has_refs;
      has_sources = sources_met t refs (require_met _ _ (check_met _ _ t known some_source));
    }

-- Every event that passes the validation is the input as it was given, and can be traced: it is of a
-- known type, for one of the tenants and under ids that are not empty, its actor has an id and one of
-- the roles, it is dated, and it names a source unless its type is one of the four that need none.
pub validate_persistence_event-IsTraceable :
    (text_of : Value → String) (input event : Value)
    → validate_persistence_event text_of input ≡ valid event
    → (event ≡ input) × IsTraceable input
unfolding event_errors
validate_persistence_event-IsTraceable text_of input event h =
    let (same, _, t, known, clean) = validate_persistence_event-NoErrors text_of input event h in
    (same, base-IsTraceable input t known (both_met clean).0)
