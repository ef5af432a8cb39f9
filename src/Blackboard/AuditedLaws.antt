-- ===== src/Blackboard/AuditedLaws.antt =====
-- What the audited log of src/audit/readLog.ts keeps.
use mathlib.Core.List.{append-nil, append_assoc}
use kerf_app.Common.{
  List, Option, String, [], ap, arith, length, none, refl, some, sym, ℕ, ◌++◌, ◌∙◌, ◌∷◌, ◌≡◌,
}
use kerf_app.Common.Int.{pos}
use kerf_app.Access.Roles.{Actor}
use kerf_app.Blackboard.EventLog.{
  Event, EventLogQuery, all_events, append, by_correlation, by_entity, by_id, subscribe,
  unsubscribe,
}
use kerf_app.Blackboard.ReadAudit.{
  AuditedLog, BlackboardReadOperation, ReadAuditEntry, ReadAuditTarget, Stamp, audit, audited_all,
  audited_append, audited_by_correlation, audited_by_entity, audited_by_id, count_found, read_all,
  read_by_correlation, read_by_entity, read_by_id, record_read, to_all, to_correlation, to_entity,
  to_event,
}

-- The entry that the audit appends.
abbrev pub audit_entry :
    Actor → BlackboardReadOperation → ReadAuditTarget → ℕ → Stamp → ReadAuditEntry
audit_entry actor operation target count stamp = record {
  id = stamp.id;
  at = stamp.at;
  actor = actor;
  operation = operation;
  target = target;
  result_count = pos count;
}

-- The log with that entry.
abbrev pub logged :
    Actor → Stamp → AuditedLog → BlackboardReadOperation → ReadAuditTarget → ℕ → AuditedLog
logged actor stamp s operation target count = record {
  log = s.log;
  entries = s.entries ++ audit_entry actor operation target count stamp ∷ [];
}

audit-entry :
    (actor : Actor) (operation : BlackboardReadOperation) (target : ReadAuditTarget) (count : ℕ)
    (stamp : Stamp) (s : AuditedLog)
    → audit actor operation target count stamp s ≡ logged actor stamp s operation target count
unfolding record_read
audit-entry actor operation target count stamp s = ground arith

-- Each of the four audited reads returns what the log itself returns, leaves the log as it was, and
-- appends one entry, for the actor and the target, with the number of the events returned.
pub audited-reads :
    (actor : Actor) (id : String) (opts : Option EventLogQuery) (stamp : Stamp) (s : AuditedLog)
    → (audited_by_id actor id stamp s ≡ (
      by_id id s.log,
      logged actor stamp s read_by_id
          (record { kind = to_event; id = some id })
          (count_found (by_id id s.log)),
    ))
      × (audited_by_entity actor id opts stamp s ≡ (
        by_entity id opts s.log,
        logged actor stamp s read_by_entity
            (record { kind = to_entity; id = some id })
            (length (by_entity id opts s.log)),
      ))
      × (audited_by_correlation actor id opts stamp s ≡ (
        by_correlation id opts s.log,
        logged actor stamp s read_by_correlation
            (record { kind = to_correlation; id = some id })
            (length (by_correlation id opts s.log)),
      ))
      × (audited_all actor opts stamp s ≡ (
        all_events opts s.log,
        logged actor stamp s read_all
            (record { kind = to_all; id = none })
            (length (all_events opts s.log)),
      ))
unfolding audited_by_id audited_by_entity audited_by_correlation audited_all
audited-reads actor id opts stamp s = (
  ap (λ t. (by_id id s.log, t)) (audit-entry actor _ _ _ stamp s),
  ap (λ t. (by_entity id opts s.log, t)) (audit-entry actor _ _ _ stamp s),
  ap (λ t. (by_correlation id opts s.log, t)) (audit-entry actor _ _ _ stamp s),
  ap (λ t. (all_events opts s.log, t)) (audit-entry actor _ _ _ stamp s),
)

-- One call on the audited log.
pub data Step : AuditedLog → AuditedLog → Type 0 where
  appends : {s : AuditedLog} (e : Event) → Step s (audited_append e s).1
  reads_id :
      {s : AuditedLog} (a : Actor) (id : String) (t : Stamp) → Step s (audited_by_id a id t s).1
  reads_entity :
      {s : AuditedLog} (a : Actor) (id : String) (o : Option EventLogQuery) (t : Stamp)
      → Step s (audited_by_entity a id o t s).1
  reads_correlation :
      {s : AuditedLog} (a : Actor) (id : String) (o : Option EventLogQuery) (t : Stamp)
      → Step s (audited_by_correlation a id o t s).1
  reads_all :
      {s : AuditedLog} (a : Actor) (o : Option EventLogQuery) (t : Stamp)
      → Step s (audited_all a o t s).1
  subscribes :
      {s : AuditedLog} (h : ℕ) → Step s (record { log = subscribe h s.log; entries = s.entries })
  unsubscribes :
      {s : AuditedLog} (h : ℕ) → Step s (record { log = unsubscribe h s.log; entries = s.entries })

pub data Steps : AuditedLog → AuditedLog → Type 0 where
  done : {s : AuditedLog} → Steps s s
  then_step : {s t u : AuditedLog} → Step s t → Steps t u → Steps s u

-- What is there stays there, before what is new.
abbrev pub Extends : AuditedLog → AuditedLog → Type 0
Extends s t =
    ((more : List Event) × (t.log.events ≡ s.log.events ++ more))
    × ((more : List ReadAuditEntry) × (t.entries ≡ s.entries ++ more))

Step-Extends : {s t : AuditedLog} → Step s t → Extends s t
unfolding audited_append append audited_by_id audited_by_entity audited_by_correlation audited_all
    subscribe unsubscribe
Step-Extends (appends e) = ((e ∷ [], refl), ([], sym (append-nil _)))
Step-Extends {s = s} (reads_id a id t) =
    (([], sym (append-nil _)), (_, ap (λ (x : AuditedLog). x.entries) (audit-entry a _ _ _ t s)))
Step-Extends {s = s} (reads_entity a id o t) =
    (([], sym (append-nil _)), (_, ap (λ (x : AuditedLog). x.entries) (audit-entry a _ _ _ t s)))
Step-Extends {s = s} (reads_correlation a id o t) =
    (([], sym (append-nil _)), (_, ap (λ (x : AuditedLog). x.entries) (audit-entry a _ _ _ t s)))
Step-Extends {s = s} (reads_all a o t) =
    (([], sym (append-nil _)), (_, ap (λ (x : AuditedLog). x.entries) (audit-entry a _ _ _ t s)))
Step-Extends (subscribes h) = (([], sym (append-nil _)), ([], sym (append-nil _)))
Step-Extends (unsubscribes h) = (([], sym (append-nil _)), ([], sym (append-nil _)))

-- Whatever is called on the audited log, its events and the entries of its audit stay, in their
-- order, and what is new comes after them.
pub Steps-Extends : (s t : AuditedLog) → Steps s t → Extends s t
Steps-Extends s _ done = (([], sym (append-nil _)), ([], sym (append-nil _)))
Steps-Extends s u (then_step {t = t} first rest) =
    let ((e, e-is), (r, r-is)) = Step-Extends first in
    let ((f, f-is), (q, q-is)) = Steps-Extends t u rest in
    (
      (e ++ f, f-is ∙ (ap (λ xs. xs ++ f) e-is ∙ append_assoc _ e f)),
      (r ++ q, q-is ∙ (ap (λ xs. xs ++ q) r-is ∙ append_assoc _ r q)),
    )
