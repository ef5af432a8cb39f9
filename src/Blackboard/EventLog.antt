-- ===== src/Blackboard/EventLog.antt =====
-- src/blackboard/eventLog.ts: the log in memory. A handler is a number, and its calls are recorded.
use kerf_app.Common.{
  Bool, List, Option, String, [], false, find, if◌then◌else◌, includes, keep, length, none, not,
  number_eq, some, suc, text_eq, zero, ℕ, ◌++◌, ◌-◌, ◌==◌, ◌∷◌,
}
use kerf_app.Common.Int.{negsuc, pos, ℤ}
use kerf_app.Common.Text.{codes, is_before, is_nonempty}

-- What the log reads of an event; the rest is its payload.
pub record Event : Type 0 where
  pub id : String
  pub at : String
  pub entity_id : String
  pub correlation_id : Option String
  pub payload : String

pub record EventLogQuery : Type 0 where
  pub since : Option String
  pub until : Option String
  pub limit : Option ℤ

pub record EventLog : Type 0 where
  pub events : List Event
  pub subscribers : List ℕ
  pub calls : List (ℕ × Event)

-- A bound on the time that is given and not empty, and the events on its side.
abbrev pub since_bound : Option String → List Event → List Event
since_bound none list = list
since_bound (some t) list =
    if is_nonempty t
    then keep (λ (e : Event). not (is_before (codes e.at) (codes t))) list
    else list

abbrev pub until_bound : Option String → List Event → List Event
until_bound none list = list
until_bound (some t) list =
    if is_nonempty t
    then keep (λ (e : Event). not (is_before (codes t) (codes e.at))) list
    else list

abbrev pub drop {ℓ} : {A : Type ℓ} → ℕ → List A → List A
drop zero xs = xs
drop (suc n) [] = []
drop (suc n) (x ∷ xs) = drop n xs

-- `slice(-limit)` for a limit other than 0, from which a negative limit drops the first events.
abbrev pub limit_bound {ℓ} : {A : Type ℓ} → Option ℤ → List A → List A
limit_bound none list = list
limit_bound (some (pos zero)) list = list
limit_bound (some (pos (suc n))) list = drop (length list - suc n) list
limit_bound (some (negsuc n)) list = drop (suc n) list

-- `window`
unfoldable pub window : Option EventLogQuery → List Event → List Event
window none list = list
window (some q) list = limit_bound q.limit (until_bound q.until (since_bound q.since list))

abbrev pub call_all : List ℕ → Event → List (ℕ × Event)
call_all [] e = []
call_all (h ∷ rest) e = (h, e) ∷ call_all rest e

unfoldable pub append : Event → EventLog → Event × EventLog
append e log = (
  e,
  record {
    events = log.events ++ e ∷ [];
    subscribers = log.subscribers;
    calls = log.calls ++ call_all log.subscribers e;
  },
)

unfoldable pub by_id : String → EventLog → Option Event
by_id id log = find (λ (e : Event). e.id == id) log.events

unfoldable pub by_entity : String → Option EventLogQuery → EventLog → List Event
by_entity id opts log = window opts (keep (λ (e : Event). e.entity_id == id) log.events)

abbrev pub is_correlated : String → Option String → Bool
is_correlated id none = false
is_correlated id (some c) = c == id

unfoldable pub by_correlation : String → Option EventLogQuery → EventLog → List Event
by_correlation id opts log =
    window opts (keep (λ (e : Event). is_correlated id e.correlation_id) log.events)

unfoldable pub all_events : Option EventLogQuery → EventLog → List Event
all_events opts log = window opts log.events

-- The set of handlers: an addition of one that is there changes nothing.
unfoldable pub subscribe : ℕ → EventLog → EventLog
subscribe h log = record {
  events = log.events;
  subscribers = if includes log.subscribers h then log.subscribers else log.subscribers ++ h ∷ [];
  calls = log.calls;
}

-- What `subscribe` returns.
unfoldable pub unsubscribe : ℕ → EventLog → EventLog
unsubscribe h log = record {
  events = log.events;
  subscribers = keep (λ k. not (k == h)) log.subscribers;
  calls = log.calls;
}
