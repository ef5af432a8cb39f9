-- ===== src/Blackboard/Examples.antt =====
-- The event log of src/blackboard and its audit of src/audit on concrete events.
use kerf_app.Common.{Member, String, [], none, some, ◌↔◌, ◌∷◌, ◌≡◌}
use kerf_app.Access.Roles.{Actor, pm}
use kerf_app.Blackboard.EventLog.{Event, EventLog, by_entity, by_id}
use kerf_app.Blackboard.ReadAudit.{
  AuditedLog, Stamp, audited_append, audited_by_id, count_found, read_by_id, to_event,
}
use kerf_app.Blackboard.QueryLaws.{IsSince, IsUntil, by_entity_iff}
use kerf_app.Blackboard.AuditedLaws.{
  Extends, Steps-Extends, appends, audited-reads, done, logged, then_step,
}

abbrev event : String → String → Event
event id at = record {
  id = id;
  at = at;
  entity_id = "project_1";
  correlation_id = some "visit";
  payload = "";
}

abbrev log : EventLog
log = record {
  events = event "e1" "2026-05-01" ∷ event "e2" "2026-05-02" ∷ event "e3" "2026-05-03" ∷ [];
  subscribers = 1 ∷ [];
  calls = [];
}

abbrev audited : AuditedLog
audited = record { log = log; entries = [] }

abbrev pat : Actor
pat = record { id = "u1"; role = pm }

abbrev stamp : Stamp
stamp = record { id = "read_1"; at = "2026-05-04" }

by_entity_iff_example :
    Member (event "e2" "2026-05-02") (
      by_entity "project_1"
        (some (record { since = some "2026-05-02"; until = none; limit = none }))
        log)
    ↔ (Member (event "e2" "2026-05-02") log.events
        × ((event "e2" "2026-05-02").entity_id ≡ "project_1")
        × IsSince (some "2026-05-02") (event "e2" "2026-05-02")
        × IsUntil none (event "e2" "2026-05-02"))
by_entity_iff_example =
    by_entity_iff "project_1" (some "2026-05-02") none log (event "e2" "2026-05-02")

audited-reads_example : audited_by_id pat "e2" stamp audited ≡ (
  by_id "e2" log,
  logged pat stamp audited read_by_id
      (record { kind = to_event; id = some "e2" })
      (count_found (by_id "e2" log)),
)
audited-reads_example = (audited-reads pat "e2" none stamp audited).0

Steps-Extends_example : Extends audited (audited_append (event "e4" "2026-05-05") audited).1
Steps-Extends_example =
    Steps-Extends audited (audited_append (event "e4" "2026-05-05") audited).1
      (then_step (appends (event "e4" "2026-05-05")) done)
