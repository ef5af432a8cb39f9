-- ===== src/Persistence/ProjectionExamples.antt =====
-- The projection of a project, src/persistence/projections.ts, from concrete events.
use kerf_app.Common.{
  All, Bool, List, Option, String, [], map, none, not, refl, some, ℕ, ◌++◌, ◌∷◌, ◌≡◌, ◌⊎◌,
}
use kerf_app.Common.Text.{codes, is_before}
use kerf_app.Persistence.ProjectionTypes.{
  ProjectDecisionSummary, ProjectEvent, ProjectPayload, ProjectProjection, actuals_recorded,
  decision_approved, decision_drafted, project_created,
}
use kerf_app.Persistence.Projection.{
  apply_event, apply_payload, find_created, rebuild_of_project, rebuild_project_projection,
  set_entry, update_entry, walk,
}
use kerf_app.Persistence.ProjectionLaws.{
  Created, IsNoCreation, IsProjectionOf, rebuild_project_projection-cases,
}

-- Opens the rebuilding with all that it calls.
checks : Unit {0}
unfolding rebuild_project_projection find_created walk apply_event apply_payload set_entry
    update_entry rebuild_of_project
checks = tt

abbrev by_text : String → String → Bool
by_text a b = not (is_before (codes b) (codes a))

abbrev event : String → ProjectPayload → ProjectEvent
event at payload = record {
  at = at;
  correlation_id = "project_1";
  tenant_id = "tenant_ggr";
  payload = payload;
}

abbrev created : ProjectPayload
created = project_created record {
  project_id = "project_1";
  project_name = "Deck";
  client_name = "Lee";
  jurisdiction = none;
  archetype_hint = some "deck";
}

abbrev draft : String → ProjectPayload
draft id =
    decision_drafted
      record { packet_id = id; safe_next_action = "send_to_owner"; blocked_reasons = [] }

abbrev approval : ProjectPayload
approval = decision_approved record { packet_id = "p_1"; approver = "Ana"; approved_at = "06" }

-- One decision is approved and drafted again, the other is approved by nobody.
abbrev events : List ProjectEvent
events =
    event "01" created
    ∷ event "03" (draft "p_2")
    ∷ event "02" (draft "p_1")
    ∷ event "04" approval
    ∷ event "05" (actuals_recorded 700)
    ∷ event "04" (actuals_recorded 50)
    ∷ []

abbrev view : Option ProjectProjection → List (String × Option String) × ℕ × ℕ × String
view none = ([], 0, 0, "")
view (some p) = (
  map (λ (d : ProjectDecisionSummary). (d.packet_id, d.approver)) p.decisions,
  p.actuals.total_actual_cents,
  p.event_count,
  p.last_activity_at,
)

view-approved :
    view (rebuild_project_projection by_text events)
    ≡ (("p_1", some "Ana") ∷ ("p_2", none) ∷ [], 750, 6, "05")
unfolding checks
view-approved = refl

view-drafted_again :
    view (rebuild_of_project by_text "project_1" (events ++ (event "07" (draft "p_1") ∷ [])))
    ≡ (("p_2", none) ∷ ("p_1", none) ∷ [], 750, 7, "07")
unfolding checks
view-drafted_again = refl

view-other_project : rebuild_of_project by_text "project_2" events ≡ none
unfolding checks
view-other_project = refl

rebuild_project_projection-cases_example :
    ((rebuild_project_projection by_text events ≡ none)
      × All (λ (e : ProjectEvent). IsNoCreation e.payload) events)
    ⊎ ((p : ProjectProjection) × (rebuild_project_projection by_text events ≡ some p)
        × IsProjectionOf events p
        × Created events p)
rebuild_project_projection-cases_example = rebuild_project_projection-cases by_text events
