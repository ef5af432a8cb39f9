-- ===== src/Persistence/ProjectionTypes.antt =====
-- The types of src/persistence/projections.ts. An event has the fields that the projection reads of
-- the interfaces of events.ts.
use kerf_app.Common.{List, Option, String, ℕ}
use kerf_app.Common.Json.{Number}

pub record ProjectCreated : Type 0 where
  pub project_id : String
  pub project_name : String
  pub client_name : String
  pub jurisdiction : Option String
  pub archetype_hint : Option String

pub record CaptureRecorded : Type 0 where
  pub capture_id : String
  pub transcript_text : String
  pub audio_uri : Option String
  pub language : Option String
  pub duration_ms : Number

pub record ScaffoldGenerated : Type 0 where
  pub scaffold_id : String
  pub archetype : String
  pub subtype : Option String
  pub line_count : ℕ

pub record DecisionDrafted : Type 0 where
  pub packet_id : String
  pub safe_next_action : String
  pub blocked_reasons : List String

pub record DecisionApproved : Type 0 where
  pub packet_id : String
  pub approver : String
  pub approved_at : String

-- A reviewed transcript has the id of its capture, a refinement that of its scaffold, and actuals
-- their cents. The projection passes over the events of the other types.
pub data ProjectPayload : Type 0 where
  project_created : ProjectCreated → ProjectPayload
  capture_recorded : CaptureRecorded → ProjectPayload
  transcript_reviewed : String → ProjectPayload
  scaffold_generated : ScaffoldGenerated → ProjectPayload
  scaffold_refined : String → ProjectPayload
  decision_drafted : DecisionDrafted → ProjectPayload
  decision_approved : DecisionApproved → ProjectPayload
  actuals_recorded : ℕ → ProjectPayload
  not_aggregated : ProjectPayload

pub record ProjectEvent : Type 0 where
  pub at : String
  pub correlation_id : String
  pub tenant_id : String
  pub payload : ProjectPayload

pub record ProjectCaptureSummary : Type 0 where
  pub capture_id : String
  pub captured_at : String
  pub transcript_preview : String
  pub duration_ms : Number
  pub audio_uri : Option String
  pub language : Option String
  pub reviewed_at : Option String

pub record ProjectScaffoldSummary : Type 0 where
  pub scaffold_id : String
  pub generated_at : String
  pub archetype : String
  pub subtype : Option String
  pub line_count : ℕ
  pub refinement_count : ℕ
  pub last_refined_at : Option String

pub record ProjectDecisionSummary : Type 0 where
  pub packet_id : String
  pub drafted_at : String
  pub approved_at : Option String
  pub approver : Option String
  pub safe_next_action : String
  pub blocked_reasons : List String

pub record ProjectActualsSummary : Type 0 where
  pub writeback_count : ℕ
  pub total_actual_cents : ℕ
  pub last_recorded_at : Option String

pub record ProjectProjection : Type 0 where
  pub schema_version : String
  pub project_id : String
  pub tenant_id : String
  pub project_name : String
  pub client_name : String
  pub jurisdiction : Option String
  pub archetype_hint : Option String
  pub created_at : String
  pub last_activity_at : String
  pub captures : List ProjectCaptureSummary
  pub scaffolds : List ProjectScaffoldSummary
  pub decisions : List ProjectDecisionSummary
  pub actuals : ProjectActualsSummary
  pub event_count : ℕ

-- The variables of the loop. A map is the list of its values, in the order of their first setting,
-- since each value holds its key.
pub record Progress : Type 0 where
  pub captures : List ProjectCaptureSummary
  pub scaffolds : List ProjectScaffoldSummary
  pub decisions : List ProjectDecisionSummary
  pub actuals : ProjectActualsSummary
  pub last_activity_at : String
