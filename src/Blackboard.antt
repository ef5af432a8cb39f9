-- ===== src/Blackboard.antt =====
-- The append-only log of events (src/blackboard/eventLog.ts) and the audit of its reads
-- (src/audit/readLog.ts).
pub mod EventLog
pub mod ReadAudit
pub mod QueryLaws
pub mod AuditedLaws
mod Examples
