-- ===== src/Persistence/ProjectionLaws.antt =====
-- What the projection of a project shows of its events (src/persistence/projections.ts).
use kerf_app.Common.{
  All, Bool, First, First-Member, List, Member, Member-map, Member-sort_iff, Option, String, [], ap,
  arith, inl, inr, length, map, none, refl, some, sort_ordered, subst, sym, ↔-trans, ◌↔◌, ◌∙◌, ◌∷◌,
  ◌≡◌, ◌⊎◌,
}
use kerf_app.Persistence.ProjectionTypes.{
  ProjectCaptureSummary, ProjectCreated, ProjectDecisionSummary, ProjectEvent, ProjectPayload,
  ProjectProjection, ProjectScaffoldSummary, decision_approved, project_created, scaffold_refined,
  transcript_reviewed,
}
use kerf_app.Persistence.Projection.{
  find_created, or_created, project_summary, rebuild_project_projection, start_at, summarize, walk,
}
use kerf_app.Persistence.EntryLaws.{Change, KeepsKey, changes_iff, do_changes, follow}
use kerf_app.Persistence.ProjectionSteps.{
  IsLastOf, IsLatest, actuals_in, actuals_total, capture_change, capture_key, changes_by,
  decision_change, decision_key, scaffold_change, scaffold_key, walk-IsLastOf, walk-Moves,
}

-- The entries of a list, each under its own key, are what the events make of their keys.
abbrev pub Follows :
    {A : Type 0}
    → (A → String)
    → (String → ProjectPayload → Change A)
    → List ProjectEvent
    → List A
    → Type 0
Follows {A} key change events entries =
    (a : A) → Member a entries ↔ (follow key (key a) (changes_by change events) none ≡ some a)

abbrev pub IsCreation : ProjectEvent → ProjectCreated → Type 0
IsCreation e c = e.payload ≡ project_created c

pub record IsProjectionOf (events : List ProjectEvent) (p : ProjectProjection) : Type 0 where
  pub counted : p.event_count ≡ length events
  pub writebacks : p.actuals.writeback_count ≡ length (actuals_in events)
  pub actual_total : p.actuals.total_actual_cents ≡ actuals_total (actuals_in events)
  pub latest : IsLatest p.last_activity_at events
  pub at_event : Member p.last_activity_at (map (λ (e : ProjectEvent). e.at) events)
  pub captures_follow : Follows capture_key capture_change events p.captures
  pub scaffolds_follow : Follows scaffold_key scaffold_change events p.scaffolds
  pub decisions_follow : Follows decision_key decision_change events p.decisions

pub record Created (events : List ProjectEvent) (p : ProjectProjection) : Type 0 where
  pub event : ProjectEvent
  pub project : ProjectCreated
  pub is_first : First (λ (e : ProjectEvent). (c : ProjectCreated) × IsCreation e c) event events
  pub is_creation : IsCreation event project
  pub same_project : p.project_id ≡ project.project_id
  pub same_tenant : p.tenant_id ≡ event.tenant_id
  pub same_start : p.created_at ≡ event.at

keeps_all :
    {A : Type 0} (key : A → String) (change : String → ProjectPayload → Change A)
    → ((at : String) (pl : ProjectPayload) → KeepsKey key (change at pl))
    → (events : List ProjectEvent) → All (KeepsKey key) (changes_by change events)
keeps_all key change keeps [] = tt
keeps_all key change keeps (e ∷ es) = (keeps e.at e.payload, keeps_all key change keeps es)

capture_keeps : (at : String) (pl : ProjectPayload) → KeepsKey capture_key (capture_change at pl)
capture_keeps at (transcript_reviewed id) = λ c. refl
capture_keeps at _ = tt

scaffold_keeps : (at : String) (pl : ProjectPayload) → KeepsKey scaffold_key (scaffold_change at pl)
scaffold_keeps at (scaffold_refined id) = λ s. refl
scaffold_keeps at _ = tt

decision_keeps : (at : String) (pl : ProjectPayload) → KeepsKey decision_key (decision_change at pl)
decision_keeps at (decision_approved e) = λ d. refl
decision_keeps at _ = tt

-- Sorting the entries changes none of them.
Follows-sort :
    {A : Type 0} (key : A → String) (change : String → ProjectPayload → Change A)
    (first : A → A → Bool)
    → ((at : String) (pl : ProjectPayload) → KeepsKey key (change at pl))
    → (events : List ProjectEvent) (entries : List A)
    → entries ≡ do_changes key (changes_by change events) []
    → Follows key change events (sort_ordered first entries)
Follows-sort key change first keeps events entries e a = ↔-trans (Member-sort_iff first a entries) (
    subst (λ es. Member a es ↔ (follow key (key a) (changes_by change events) none ≡ some a))
      (sym e) (changes_iff key (changes_by change events) (keeps_all key change keeps events) a))

abbrev pub IsNoCreation : ProjectPayload → Type 0
IsNoCreation (project_created c) = ⊥
IsNoCreation _ = Unit

abbrev Found : List ProjectEvent → Option (ProjectEvent × ProjectCreated) → Type 0
Found events none = All (λ (e : ProjectEvent). IsNoCreation e.payload) events
Found events (some (e, c)) =
    First (λ (x : ProjectEvent). (d : ProjectCreated) × IsCreation x d) e events × IsCreation e c

find_created-Found : (events : List ProjectEvent) → Found events (find_created events)
unfolding find_created
find_created-Found [] = tt
find_created-Found (x ∷ xs) = by_payload x.payload refl (find_created xs) (find_created-Found xs)
  where
    by_payload :
        (pl : ProjectPayload)
        → x.payload ≡ pl
        → (o : Option (ProjectEvent × ProjectCreated)) → Found xs o
        → Found (x ∷ xs) (or_created x pl o)
    by_payload (project_created c) q o f = (inl (refl, (c, q)), q)
    by_payload _ q none f = (subst IsNoCreation (sym q) tt, f)
    by_payload _ q (some (e, c)) f =
        (inr (λ (d, is). absurd (subst IsNoCreation (sym q ∙ is) tt), f.0), f.1)

module _ (is_ordered : String → String → Bool) where
  project_summary-IsProjectionOf :
      (events : List ProjectEvent) (e : ProjectEvent) (c : ProjectCreated)
      → Member e events
      → IsProjectionOf events (project_summary is_ordered events e c (walk events (start_at e.at)))
  unfolding IsLastOf
  project_summary-IsProjectionOf events e c m =
      let (captures, scaffolds, decisions, count, sum) = walk-Moves events (start_at e.at) in
      let (above, latest, among) = walk-IsLastOf events (start_at e.at) in
      let p = walk events (start_at e.at) in
      record {
        counted = refl;
        writebacks = omega arith;
        actual_total = omega arith;
        latest = latest;
        at_event = elim among [
          | inl same ↦
              subst (λ t. Member t (map (λ (x : ProjectEvent). x.at) events)) same
                (Member-map (λ (x : ProjectEvent). x.at) e events m)
          | inr m ↦ m
        ];
        captures_follow =
            Follows-sort capture_key capture_change
              (λ (a b : ProjectCaptureSummary). is_ordered a.captured_at b.captured_at)
              capture_keeps events p.captures captures;
        scaffolds_follow =
            Follows-sort scaffold_key scaffold_change
              (λ (a b : ProjectScaffoldSummary). is_ordered a.generated_at b.generated_at)
              scaffold_keeps events p.scaffolds scaffolds;
        decisions_follow =
            Follows-sort decision_key decision_change
              (λ (a b : ProjectDecisionSummary). is_ordered a.drafted_at b.drafted_at)
              decision_keeps events p.decisions decisions;
      }

  -- A projection is rebuilt from any events, unless none of them creates a project. It is the project
  -- of the first creating event, with this event's tenant and time. It counts all events and the
  -- recorded actuals, and adds up the cents of these; its last activity is the time of an event and
  -- before that of none. Its captures, scaffolds and decisions are exactly those that the events, in
  -- their order, make of some id: a capture is unreviewed from its recording until a review, a
  -- scaffold counts its refinements since it was generated, and a decision that is drafted, or
  -- drafted again, is approved only from a later approval on, with its approver and time.
  pub rebuild_project_projection-cases :
      (events : List ProjectEvent)
      → ((rebuild_project_projection is_ordered events ≡ none)
          × All (λ (e : ProjectEvent). IsNoCreation e.payload) events)
        ⊎ ((p : ProjectProjection) × (rebuild_project_projection is_ordered events ≡ some p)
            × IsProjectionOf events p
            × Created events p)
  unfolding rebuild_project_projection
  rebuild_project_projection-cases events =
      by_found (find_created events) refl (find_created-Found events)
    where
      by_found :
          (o : Option (ProjectEvent × ProjectCreated))
          → find_created events ≡ o
          → Found events o
          → ((summarize is_ordered events (find_created events) ≡ none)
              × All (λ (e : ProjectEvent). IsNoCreation e.payload) events)
            ⊎ ((p : ProjectProjection) × (summarize is_ordered events (find_created events)
                  ≡ some p)
                × IsProjectionOf events p
                × Created events p)
      by_found none q f = inl (ap (summarize is_ordered events) q, f)
      by_found (some (e, c)) q (m, is) = inr (
        project_summary is_ordered events e c (walk events (start_at e.at)),
        ap (summarize is_ordered events) q,
        project_summary-IsProjectionOf events e c (First-Member _ e events m),
        record {
          event = e;
          project = c;
          is_first = m;
          is_creation = is;
          same_project = refl;
          same_tenant = refl;
          same_start = refl;
        },
      )
