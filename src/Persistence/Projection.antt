-- ===== src/Persistence/Projection.antt =====
-- src/persistence/projections.ts: the projection of a project from its events. Texts are compared by
-- their code points. `localeCompare` is an argument: whether one text may stand before another.
use Prim.Native.Char.{code}
use kerf_app.Common.{
  Bool, List, Option, String, [], if◌then◌else◌, is_some, keep, leb, length, none, number_eq, some,
  sort_ordered, text_eq, ℕ, ◌&&◌, ◌+◌, ◌-◌, ◌==◌, ◌∷◌,
}
use kerf_app.Common.Text.{codes, is_before}
use kerf_app.Common.Json.{Value, array, as_text, is_object, member}
use kerf_app.Checks.Guards.{is_word}
use kerf_app.Persistence.ProjectionTypes.{
  CaptureRecorded, DecisionApproved, DecisionDrafted, Progress, ProjectCaptureSummary,
  ProjectCreated, ProjectDecisionSummary, ProjectEvent, ProjectPayload, ProjectProjection,
  ProjectScaffoldSummary, ScaffoldGenerated, actuals_recorded, capture_recorded, decision_approved,
  decision_drafted, not_aggregated, project_created, scaffold_generated, scaffold_refined,
  transcript_reviewed,
}

abbrev pub projection_schema_version : String
projection_schema_version = "v1"

module _ {A : Type 0} (key : A → String) where
  -- `map.set(key(x), x)`
  unfoldable pub set_entry : A → List A → List A
  set_entry x [] = x ∷ []
  set_entry x (y ∷ ys) = let rest = set_entry x ys in if key y == key x then x ∷ ys else y ∷ rest

  -- `map.get(k)`, and `map.set(k, f(existing))` where there is one.
  unfoldable pub update_entry : String → (A → A) → List A → List A
  update_entry k f [] = []
  update_entry k f (y ∷ ys) =
      let rest = update_entry k f ys in if key y == k then f y ∷ ys else y ∷ rest

-- The units of UTF-16 that a character takes.
abbrev pub unit_count : ℕ → ℕ
unit_count c = if leb 65536 c then 2 else 1

-- `text.slice(0, n)`, in units of UTF-16. A character of which only half would be left is dropped.
abbrev pub text_start : ℕ → String → String
text_start n String.[] = ""
text_start n (String.◌∷◌ c s) =
    let rest = text_start (n - unit_count (code c)) s in
    if leb (unit_count (code c)) n then String.◌∷◌ c rest else ""

abbrev pub capture_summary : String → CaptureRecorded → ProjectCaptureSummary
capture_summary at e = record {
  capture_id = e.capture_id;
  captured_at = at;
  duration_ms = e.duration_ms;
  transcript_preview = text_start 200 e.transcript_text;
  audio_uri = e.audio_uri;
  language = e.language;
  reviewed_at = none;
}

abbrev pub scaffold_summary : String → ScaffoldGenerated → ProjectScaffoldSummary
scaffold_summary at e = record {
  scaffold_id = e.scaffold_id;
  generated_at = at;
  archetype = e.archetype;
  subtype = e.subtype;
  line_count = e.line_count;
  refinement_count = 0;
  last_refined_at = none;
}

abbrev pub decision_summary : String → DecisionDrafted → ProjectDecisionSummary
decision_summary at e = record {
  packet_id = e.packet_id;
  drafted_at = at;
  approved_at = none;
  approver = none;
  safe_next_action = e.safe_next_action;
  blocked_reasons = e.blocked_reasons;
}

abbrev pub with_refinement : String → ProjectScaffoldSummary → ProjectScaffoldSummary
with_refinement at s = record s {
  refinement_count = s.refinement_count + 1;
  last_refined_at = some at;
}

abbrev pub with_approval : DecisionApproved → ProjectDecisionSummary → ProjectDecisionSummary
with_approval e d = record d { approved_at = some e.approved_at; approver = some e.approver }

-- The `switch` of the loop.
unfoldable pub apply_payload : String → ProjectPayload → Progress → Progress
apply_payload at (capture_recorded e) p = record p {
  captures =
      set_entry (λ (c : ProjectCaptureSummary). c.capture_id) (capture_summary at e) p.captures;
}
apply_payload at (transcript_reviewed id) p = record p {
  captures =
      update_entry (λ (c : ProjectCaptureSummary). c.capture_id) id
        (λ (c : ProjectCaptureSummary). record c { reviewed_at = some at }) p.captures;
}
apply_payload at (scaffold_generated e) p = record p {
  scaffolds =
      set_entry (λ (s : ProjectScaffoldSummary). s.scaffold_id) (scaffold_summary at e) p.scaffolds;
}
apply_payload at (scaffold_refined id) p = record p {
  scaffolds =
      update_entry (λ (s : ProjectScaffoldSummary). s.scaffold_id) id (with_refinement at)
        p.scaffolds;
}
apply_payload at (decision_drafted e) p = record p {
  decisions =
      set_entry (λ (d : ProjectDecisionSummary). d.packet_id) (decision_summary at e) p.decisions;
}
apply_payload at (decision_approved e) p = record p {
  decisions =
      update_entry (λ (d : ProjectDecisionSummary). d.packet_id) e.packet_id (with_approval e)
        p.decisions;
}
apply_payload at (actuals_recorded cents) p = record p {
  actuals = record {
    writeback_count = p.actuals.writeback_count + 1;
    total_actual_cents = p.actuals.total_actual_cents + cents;
    last_recorded_at = some at;
  };
}
apply_payload at (project_created e) p = p
apply_payload at not_aggregated p = p

-- `if (event.at > lastActivityAt)`
abbrev pub later_of : String → String → String
later_of so_far at = if is_before (codes so_far) (codes at) then at else so_far

unfoldable pub apply_event : ProjectEvent → Progress → Progress
apply_event e p =
    apply_payload e.at e.payload (record p { last_activity_at = later_of p.last_activity_at e.at })

-- The loop over the events.
unfoldable pub walk : List ProjectEvent → Progress → Progress
walk [] p = p
walk (e ∷ es) p = walk es (apply_event e p)

abbrev pub start_at : String → Progress
start_at at = record {
  captures = [];
  scaffolds = [];
  decisions = [];
  actuals = record { writeback_count = 0; total_actual_cents = 0; last_recorded_at = none };
  last_activity_at = at;
}

-- The first event that creates a project, with what it creates.
abbrev pub or_created :
    ProjectEvent
    → ProjectPayload
    → Option (ProjectEvent × ProjectCreated)
    → Option (ProjectEvent × ProjectCreated)
or_created e (project_created c) later = some (e, c)
or_created e _ later = later

unfoldable pub find_created : List ProjectEvent → Option (ProjectEvent × ProjectCreated)
find_created [] = none
find_created (e ∷ es) = or_created e e.payload (find_created es)

module _ (is_ordered : String → String → Bool) where
  -- The object that the rebuilding returns.
  abbrev pub project_summary :
      List ProjectEvent → ProjectEvent → ProjectCreated → Progress → ProjectProjection
  project_summary events e c p = record {
    schema_version = projection_schema_version;
    project_id = c.project_id;
    tenant_id = e.tenant_id;
    project_name = c.project_name;
    client_name = c.client_name;
    jurisdiction = c.jurisdiction;
    archetype_hint = c.archetype_hint;
    created_at = e.at;
    last_activity_at = p.last_activity_at;
    captures =
        sort_ordered (λ (a b : ProjectCaptureSummary). is_ordered a.captured_at b.captured_at)
          p.captures;
    scaffolds =
        sort_ordered (λ (a b : ProjectScaffoldSummary). is_ordered a.generated_at b.generated_at)
          p.scaffolds;
    decisions =
        sort_ordered (λ (a b : ProjectDecisionSummary). is_ordered a.drafted_at b.drafted_at)
          p.decisions;
    actuals = p.actuals;
    event_count = length events;
  }

  abbrev pub summarize :
      List ProjectEvent → Option (ProjectEvent × ProjectCreated) → Option ProjectProjection
  summarize events none = none
  summarize events (some (e, c)) = some (project_summary events e c (walk events (start_at e.at)))

  unfoldable pub rebuild_project_projection : List ProjectEvent → Option ProjectProjection
  rebuild_project_projection events = summarize events (find_created events)

  -- What is written to the file of the project, if anything is.
  unfoldable pub rebuild_of_project : String → List ProjectEvent → Option ProjectProjection
  rebuild_of_project project_id events =
      rebuild_project_projection
        (keep (λ (e : ProjectEvent). e.correlation_id == project_id) events)

-- The shape that a stored projection is read with.
unfoldable pub is_project_projection : Value → Bool
is_project_projection v =
    is_object v
    && is_word (member v "schema_version") projection_schema_version
    && is_some (as_text (member v "project_id"))
    && is_some (as_text (member v "tenant_id"))
    && is_some (as_text (member v "project_name"))
    && is_some (array (member v "captures"))
    && is_some (array (member v "scaffolds"))
    && is_some (array (member v "decisions"))
