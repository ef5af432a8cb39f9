-- ===== src/Blackboard/ReadAudit.antt =====
-- src/audit/readLog.ts: the audit log, and the event log with audited reads. The id and the time of
-- an entry are arguments.
use kerf_app.Common.{
  Bool, HasEq, List, Option, String, [], arith, false, if◌then◌else◌, index_eq, keep, length, none,
  not, number_eq, some, text_eq, ℕ, ◌++◌, ◌==◌, ◌∷◌, ◌≡◌,
}
use kerf_app.Common.Int.{ltb_ℤ, pos, ℤ}
use kerf_app.Common.Text.{codes, is_before, is_nonempty}
use kerf_app.Access.Roles.{Actor, Role, role_eq}
use kerf_app.Blackboard.EventLog.{
  Event, EventLog, EventLogQuery, all_events, append, by_correlation, by_entity, by_id, limit_bound,
}

pub data BlackboardReadOperation : Type 0 where
  read_by_id read_by_entity read_by_correlation read_all : BlackboardReadOperation

pub data ReadAuditTargetKind : Type 0 where
  to_event to_entity to_correlation to_all : ReadAuditTargetKind

abbrev pub operation_index : BlackboardReadOperation → ℕ
operation_index read_by_id = 0
operation_index read_by_entity = 1
operation_index read_by_correlation = 2
operation_index read_all = 3

pub operation_index_injective :
    (a b : BlackboardReadOperation) → operation_index a ≡ operation_index b → a ≡ b
operation_index_injective a b h = ground arith

instance abbrev pub operation_eq : HasEq BlackboardReadOperation
operation_eq = index_eq operation_index operation_index_injective

abbrev pub target_index : ReadAuditTargetKind → ℕ
target_index to_event = 0
target_index to_entity = 1
target_index to_correlation = 2
target_index to_all = 3

pub target_index_injective : (a b : ReadAuditTargetKind) → target_index a ≡ target_index b → a ≡ b
target_index_injective a b h = ground arith

instance abbrev pub target_eq : HasEq ReadAuditTargetKind
target_eq = index_eq target_index target_index_injective

pub record ReadAuditTarget : Type 0 where
  pub kind : ReadAuditTargetKind
  pub id : Option String

pub record ReadAuditEntry : Type 0 where
  pub id : String
  pub at : String
  pub actor : Actor
  pub operation : BlackboardReadOperation
  pub target : ReadAuditTarget
  pub result_count : ℤ

pub record RecordReadAuditInput : Type 0 where
  pub actor : Actor
  pub operation : BlackboardReadOperation
  pub target : ReadAuditTarget
  pub result_count : ℤ

pub record ReadAuditQuery : Type 0 where
  pub actor_id : Option String
  pub role : Option Role
  pub operation : Option BlackboardReadOperation
  pub target_kind : Option ReadAuditTargetKind
  pub target_id : Option String
  pub since : Option String
  pub until : Option String
  pub limit : Option ℤ

-- The id and the time that an entry gets.
pub record Stamp : Type 0 where
  pub id : String
  pub at : String

abbrev pub entry_of : RecordReadAuditInput → Stamp → ReadAuditEntry
entry_of input stamp = record {
  id = stamp.id;
  at = stamp.at;
  actor = input.actor;
  operation = input.operation;
  target = input.target;
  result_count = input.result_count;
}

-- `record`; a negative count throws, and leaves the entries.
unfoldable pub record_read :
    RecordReadAuditInput → Stamp → List ReadAuditEntry → Option ReadAuditEntry × List ReadAuditEntry
record_read input stamp entries =
    if ltb_ℤ input.result_count (pos 0)
    then (none, entries)
    else (some (entry_of input stamp), entries ++ entry_of input stamp ∷ [])

-- A filter under an option that is given.
abbrev pub keep_given {ℓ κ} :
    {A : Type ℓ} {B : Type κ} → Option A → (A → B → Bool) → List B → List B
keep_given none test list = list
keep_given (some a) test list = keep (test a) list

-- An option that is a text counts as given when it is not empty.
abbrev pub truthy : Option String → Option String
truthy none = none
truthy (some s) = if is_nonempty s then some s else none

abbrev pub has_target : String → ReadAuditEntry → Bool
has_target id e = elim e.target.id [ none ↦ false | some t ↦ t == id ]

unfoldable pub apply_query : ReadAuditQuery → List ReadAuditEntry → List ReadAuditEntry
apply_query q entries =
    let out = keep_given (truthy q.actor_id) (λ a (e : ReadAuditEntry). e.actor.id == a) entries in
    let out = keep_given q.role (λ r (e : ReadAuditEntry). e.actor.role == r) out in
    let out = keep_given q.operation (λ o (e : ReadAuditEntry). e.operation == o) out in
    let out = keep_given q.target_kind (λ k (e : ReadAuditEntry). e.target.kind == k) out in
    let out = keep_given (truthy q.target_id) has_target out in
    let out =
      keep_given (truthy q.since) (λ t (e : ReadAuditEntry). not (is_before (codes e.at) (codes t)))
        out in
    let out =
      keep_given (truthy q.until) (λ t (e : ReadAuditEntry). not (is_before (codes t) (codes e.at)))
        out in
    limit_bound q.limit out

-- The log with the entries of its audit.
pub record AuditedLog : Type 0 where
  pub log : EventLog
  pub entries : List ReadAuditEntry

-- The record of a read with its target and the number of its results.
abbrev pub audit :
    Actor → BlackboardReadOperation → ReadAuditTarget → ℕ → Stamp → AuditedLog → AuditedLog
audit actor operation target count stamp s = record {
  log = s.log;
  entries =
      (record_read
        (record { actor = actor; operation = operation; target = target; result_count = pos count })
        stamp s.entries).1;
}

abbrev pub count_found : Option Event → ℕ
count_found none = 0
count_found (some e) = 1

unfoldable pub audited_append : Event → AuditedLog → Event × AuditedLog
audited_append e s =
    let done = append e s.log in (done.0, record { log = done.1; entries = s.entries })

unfoldable pub audited_by_id : Actor → String → Stamp → AuditedLog → Option Event × AuditedLog
audited_by_id actor id stamp s =
    let event = by_id id s.log in
    (
      event,
      audit actor read_by_id (record { kind = to_event; id = some id }) (count_found event) stamp s,
    )

unfoldable pub audited_by_entity :
    Actor → String → Option EventLogQuery → Stamp → AuditedLog → List Event × AuditedLog
audited_by_entity actor id opts stamp s =
    let events = by_entity id opts s.log in
    (
      events,
      audit actor read_by_entity (record { kind = to_entity; id = some id }) (length events) stamp
          s,
    )

unfoldable pub audited_by_correlation :
    Actor → String → Option EventLogQuery → Stamp → AuditedLog → List Event × AuditedLog
audited_by_correlation actor id opts stamp s =
    let events = by_correlation id opts s.log in
    (
      events,
      audit actor read_by_correlation (record { kind = to_correlation; id = some id })
          (length events) stamp s,
    )

unfoldable pub audited_all :
    Actor → Option EventLogQuery → Stamp → AuditedLog → List Event × AuditedLog
audited_all actor opts stamp s =
    let events = all_events opts s.log in
    (events, audit actor read_all (record { kind = to_all; id = none }) (length events) stamp s)
