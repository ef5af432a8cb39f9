-- ===== src/Lib.antt =====
-- Verification of the decision core of Kerf, a construction company's operating system written in
-- TypeScript. A model proposes what to do; these parts decide what may be done with it, by whom
-- and up to which amount, and they keep what the crews record in the field.
--
-- Altitude (src/altitude): a model proposes an AltitudePacket; runPolicyGate runs ten validators
-- on it, assigns an altitude and emits a DecisionPacket. Types has the vocabularies and records of
-- types.ts, Levels and Validators the functions of gate.ts up to V8, BudgetValidators is V17 and
-- V18, Learning is V9, AuditTrail is V12, and Derive, GateTypes and Gate are the rest of gate.ts
-- up to runPolicyGate. The other modules below Altitude hold the proofs: Assignment, Verdicts,
-- Reports, LearningLaws, AuditLaws, AuditCases and AuditReasons for the single validators,
-- GateLaws, Criticals, Judgement, Precedence, Answers, Safety and Signals for the gate.
--
-- Access (src/permissions, src/authority, and the roles of src/blackboard/types.ts): Roles and
-- Permissions are createPermissionProvider over any matrix, Matrix is DEFAULT_MATRIX, Authority
-- has getBand, canAuthorize and escalationChain, Profile is DEFAULT_AUTHORITY_PROFILE, whose money
-- ceiling is the one of the matrix. PermissionLaws, MatrixLaws, AuthorityLaws and ProfileLaws hold
-- the proofs.
--
-- ReleaseFence (src/releaseFence): Types, Component and Fence are canReleaseLineComponent and its
-- helpers; FenceTests, FenceLaws and Demands hold the proofs.
--
-- Capture (src/app/lib): Types, Store, ItemStore and Operations are captureStore.ts, Database the
-- object stores of the browser under their standard, Queue is captureUploadQueue.ts, which drives
-- the store. StoreLaws, AddLaws, DeleteLaws, Rollup, Reachable, QueueLaws and UploadLaws hold the
-- proofs.
--
-- Blackboard (src/blackboard/eventLog.ts, src/audit/readLog.ts): EventLog and ReadAudit are
-- createMemoryEventLog, createMemoryReadAuditLog and withReadAudit; QueryLaws and AuditedLaws hold
-- the proofs. Its actors are those of Access.
--
-- Checks: what the validators of proposals and of events share, their regular expressions and
-- guards, and how an empty list of errors is read.
--
-- Persistence (src/persistence): Vocabulary, WorkEvents, FieldEvents, LearningEvents, MoneyEvents
-- and Events are events.ts up to validatePersistenceEvent, EventStore is eventStore.ts and
-- TenantReads tenantScopedReads.ts; JSON is an argument (Codec). ProjectionTypes and Projection
-- are projections.ts without its file, on events that have passed the validation and so have their
-- fields. EventLaws, TypeLaws, StoreLaws, TenantLaws, EntryLaws, ProjectionSteps and
-- ProjectionLaws hold the proofs.
--
-- Hosting (src/hosting): RouteCheck is routeCheck.ts, RouteLaws holds the proofs.
--
-- Workflows (src/workflows/invoice-followup.ts): InvoiceFacts has the facts, InvoiceDetection is
-- detectInvoiceFollowupCandidates, InvoicePacket hands a candidate to the gate of Altitude as
-- gatedInvoiceFollowup does, InvoiceApproval is applyInvoiceFollowupApprovalAction; PaymentLaws,
-- DetectionLaws and InvoiceLaws hold the proofs. Dates are those of a calendar, valid and from
-- 1970 on.
--
-- Proposal (src/proposal): SendGate is evaluateSendGate of sendGate.ts. Checks, Lines, Validation
-- and Acceptance are validateProposal of validation.ts from its helpers upwards, with
-- csi-divisions.ts, and Totals are its sums; its input is a value of Common.Json. Numbering is
-- numbering.ts. LineLaws, MoneyLaws, TotalLaws, AcceptanceLaws and AcceptedLaws hold the proofs on
-- the validation, NumberLaws, SequenceLaws and NumberingLaws those on the numbers, SendTests,
-- SendLaws and SendVerdict those on the send gate.
--
-- Common: the names that all modules share, equality as an interface with its instances, lists and
-- their members, integers, texts and JSON values. The Examples below each part run it on concrete
-- data.
--
-- Conventions. A type of texts of fixed values is an enumeration. An optional field is an Option.
-- Amounts of cents are integers of any size, counts and times are natural numbers. A text is
-- compared as a whole, or read as its code points. What the program reads from a clock, a random
-- source or the network is an argument; the queue takes the clock and the network as functions of
-- the number of the call. A set or a map is a list whose order is the order of insertion. A number
-- is printed in decimal on as much fuel as the number itself plus one, which covers its digits.
-- Sums of cents are exact, as the program's are below 2 ^ 53; where it works with fractions or
-- with larger numbers, its floating point is an argument (Numerics, Doubles). Loops over lists are
-- recursion on the list, so that all functions are total.
--
-- Not modelled: the other parts of src, among them src/projections, the other workflows, the
-- documents rendered from proposals and the estimator; freezing of objects; the transport and the
-- failures of the browser's database; the headers of a request.
pub mod Common
pub mod Altitude
pub mod Access
pub mod Checks
pub mod ReleaseFence
pub mod Capture
pub mod Blackboard
pub mod Hosting
pub mod Persistence
pub mod Workflows
pub mod Proposal
