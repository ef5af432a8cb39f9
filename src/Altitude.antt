-- ===== src/Altitude.antt =====
-- The Altitude Engine (src/altitude): packets that a model produces are read by validators, given
-- an altitude, and turned into an authoritative decision packet.
pub mod Types
pub mod Levels
pub mod Assignment
pub mod Validators
pub mod BudgetValidators
pub mod Learning
pub mod AuditTrail
pub mod Derive
pub mod Gate
pub mod GateTypes
pub mod AuditLaws
pub mod AuditCases
pub mod AuditReasons
pub mod Reports
pub mod Verdicts
pub mod LearningLaws
pub mod GateLaws
pub mod Criticals
pub mod Judgement
pub mod Precedence
pub mod Answers
pub mod Safety
pub mod Signals
mod Examples
