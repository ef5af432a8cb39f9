-- ===== src/Proposal.antt =====
-- Proposals: their validation, numbers and sending (src/proposal).
pub mod Checks
pub mod Lines
pub mod Validation
pub mod Acceptance
mod LineLaws
pub mod Totals
pub mod MoneyLaws
pub mod TotalLaws
pub mod AcceptanceLaws
pub mod AcceptedLaws
pub mod Numbering
mod NumberLaws
pub mod SequenceLaws
pub mod NumberingLaws
pub mod SendGate
pub mod SendTests
pub mod SendLaws
pub mod SendVerdict
mod Examples
mod ProposalExamples
mod NumberingExamples
