-- ===== src/Persistence/EventStore.antt =====
-- src/persistence/eventStore.ts: the store of events, a file with an event in JSON on each line. The
-- file is its text, or none where it does not exist; JSON is an argument, and so is the text of an
-- arbitrary value. Failures of the disk are left out.
use kerf_app.Common.{
  Bool, List, Option, String, [], false, if◌then◌else◌, is_empty, keep, length, map, nat_beq, none,
  or_else, some, suc, true, zero, ℕ, ◌&&◌, ◌++◌, ◌-◌, ◌∷◌,
}
use mathlib.Core.List.{reverse}
use kerf_app.Common.Int.{pos}
use kerf_app.Common.Text.{is_space}
use kerf_app.Common.Json.{Number, Value, int, member}
use kerf_app.Checks.Guards.{ValidationResult, invalid, is_word, valid}
use kerf_app.Persistence.Vocabulary.{PersistenceEventType, type_text}
use kerf_app.Persistence.Events.{validate_persistence_event}

-- `JSON.parse`, where it does not throw, `JSON.stringify`, and `String`
pub record Codec : Type 0 where
  pub parse : List ℕ → Option Value
  pub stringify : Value → List ℕ
  pub text_of : Value → String

pub data AppendResult : Type 0 where
  appended : Value → AppendResult
  rejected : List String → AppendResult

-- The number of the line, and the errors of the event that it holds.
pub data StoreWarning : Type 0 where
  malformed_line : ℕ → StoreWarning
  invalid_event : ℕ → List String → StoreWarning

pub data LineResult : Type 0 where
  blank : LineResult
  skipped : StoreWarning → LineResult
  read : Value → LineResult

pub record StoreContents : Type 0 where
  pub events : List Value
  pub warnings : List StoreWarning

-- `raw.split('\n')`
abbrev pub newline : ℕ
newline = 10

abbrev pub push_front : ℕ → List (List ℕ) → List (List ℕ)
push_front c [] = (c ∷ []) ∷ []
push_front c (line ∷ rest) = (c ∷ line) ∷ rest

unfoldable pub drop_front : ℕ → List Value → List Value
drop_front zero xs = xs
drop_front (suc n) [] = []
drop_front (suc n) (x ∷ xs) = drop_front n xs

unfoldable pub split_lines : List ℕ → List (List ℕ)
split_lines [] = [] ∷ []
split_lines (c ∷ s) =
    let rest = split_lines s in if nat_beq c newline then [] ∷ rest else push_front c rest

-- `line.trim()`
unfoldable pub trim_codes_end : List ℕ → List ℕ
trim_codes_end [] = []
trim_codes_end (c ∷ s) =
    let rest = trim_codes_end s in if is_space c && is_empty rest then [] else c ∷ rest

unfoldable pub trim_codes_start : List ℕ → List ℕ
trim_codes_start [] = []
trim_codes_start (c ∷ s) = let rest = trim_codes_start s in if is_space c then rest else c ∷ s

abbrev pub trim_codes : List ℕ → List ℕ
trim_codes s = trim_codes_end (trim_codes_start s)

abbrev pub file_line : List ℕ → List ℕ
file_line line = line ++ (newline ∷ [])

-- The text of a file with these lines.
unfoldable pub file_text : List (List ℕ) → List ℕ
file_text [] = []
file_text (line ∷ rest) = line ++ (newline ∷ file_text rest)

-- `result.ok`
abbrev pub is_ok : ValidationResult → Bool
is_ok (valid e) = true
is_ok (invalid errors) = false

-- What is read of a line whose value was validated.
abbrev pub judge_validated : ℕ → ValidationResult → LineResult
judge_validated i (valid e) = read e
judge_validated i (invalid errors) = skipped (invalid_event i errors)

abbrev pub add_event : LineResult → List Value → List Value
add_event blank more = more
add_event (skipped w) more = more
add_event (read e) more = e ∷ more

abbrev pub add_warning : LineResult → List StoreWarning → List StoreWarning
add_warning blank more = more
add_warning (skipped w) more = w ∷ more
add_warning (read e) more = more

abbrev pub or_failure : ℕ → ValidationResult → Option (ℕ × List String) → Option (ℕ × List String)
or_failure i (valid e) more = more
or_failure i (invalid errors) more = some (i, errors)

module _ (codec : Codec) where
  abbrev pub validate : Value → ValidationResult
  validate event = validate_persistence_event codec.text_of event

  abbrev pub append_validated : Option (List ℕ) → ValidationResult → Option (List ℕ) × AppendResult
  append_validated file (valid e) =
      (some (or_else file [] ++ file_line (codec.stringify e)), appended e)
  append_validated file (invalid errors) = (file, rejected errors)

  -- Only what passes the validation reaches the file.
  unfoldable pub append_event : Value → Option (List ℕ) → Option (List ℕ) × AppendResult
  append_event event file = append_validated file (validate event)

  abbrev pub judge_parsed : ℕ → Option Value → LineResult
  judge_parsed i none = skipped (malformed_line i)
  judge_parsed i (some parsed) = judge_validated i (validate parsed)

  unfoldable pub read_line : ℕ → List ℕ → LineResult
  read_line i line =
      let trimmed = trim_codes line in
      if is_empty trimmed then blank else judge_parsed i (codec.parse trimmed)

  unfoldable pub events_in : ℕ → List (List ℕ) → List Value
  events_in i [] = []
  events_in i (line ∷ rest) = add_event (read_line i line) (events_in (suc i) rest)

  unfoldable pub warnings_in : ℕ → List (List ℕ) → List StoreWarning
  warnings_in i [] = []
  warnings_in i (line ∷ rest) = add_warning (read_line i line) (warnings_in (suc i) rest)

  unfoldable pub read_all : Option (List ℕ) → StoreContents
  read_all none = record { events = []; warnings = [] }
  read_all (some raw) = record {
    events = events_in 1 (split_lines raw);
    warnings = warnings_in 1 (split_lines raw);
  }

  unfoldable pub read_by_correlation : String → Option (List ℕ) → List Value
  read_by_correlation correlation_id file =
      keep (λ e. is_word (member e "correlation_id") correlation_id) (read_all file).events

  unfoldable pub read_by_type : PersistenceEventType → Option (List ℕ) → List Value
  read_by_type type file =
      keep (λ e. is_word (member e "type") (type_text type)) (read_all file).events

  -- The last events, the latest first; none where the number is no natural number and it throws.
  unfoldable pub tail_events : Number → Option (List ℕ) → Option (List Value)
  tail_events (int (pos n)) file =
      let all = (read_all file).events in some (reverse (drop_front (length all - n) all))
  tail_events _ file = none

  -- The first of the events that is not valid, with its index.
  unfoldable pub first_invalid : ℕ → List Value → Option (ℕ × List String)
  first_invalid i [] = none
  first_invalid i (e ∷ rest) =
      let more = first_invalid (suc i) rest in or_failure i (validate e) more

  -- The file is replaced only if every event is valid.
  unfoldable pub rewrite_event_store :
      List Value → Option (List ℕ) → Option (List ℕ) × Option (ℕ × List String)
  rewrite_event_store events file = elim (first_invalid 0 events) [
    | none ↦ (some (file_text (map codec.stringify events)), none)
    | some failure ↦ (file, some failure)
  ]
