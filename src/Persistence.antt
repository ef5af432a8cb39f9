-- ===== src/Persistence.antt =====
-- What is kept of the work: the events, their store and what is read from it (src/persistence).
pub mod Vocabulary
pub mod WorkEvents
pub mod FieldEvents
pub mod LearningEvents
pub mod MoneyEvents
pub mod Events
pub mod EventLaws
pub mod TypeLaws
pub mod EventStore
pub mod TenantReads
pub mod ProjectionTypes
pub mod Projection
pub mod EntryLaws
pub mod ProjectionSteps
pub mod ProjectionLaws
mod ProjectionExamples
pub mod StoreLaws
pub mod TenantLaws
mod Examples
