-- ===== src/Persistence/FieldEvents.antt =====
-- src/persistence/events.ts: the checks of the events about
-- the daily log and the cards that it raises.
use kerf_app.Common.{List, String, [], if◌then◌else◌, not, ◌&&◌, ◌||◌, ◌∷◌}
use kerf_app.Common.Text.{◌+++◌}
use kerf_app.Common.Json.{Value, array, is_null, is_object, member}
use kerf_app.Checks.Guards.{
  errors_of, is_array, is_iso8601, is_nonempty_text, is_text, is_text_or_null, is_undefined,
  is_word, require, require_given, require_one_of, validate_each,
}
use kerf_app.Persistence.Vocabulary.{
  is_one_of, valid_clock_sub_kinds, valid_daily_log_entry_kinds, valid_drift_severities,
  valid_relay_review_outcomes,
}

-- An element of an array that has to be a text.
abbrev pub require_text : Value → String → List String
require_text v path = require (is_text v) (path +++ " must be a string")

-- A clock event has a kind of its own, and no other entry has one.
unfoldable pub clock_errors : (Value → String) → Value → Value → List String
clock_errors text_of entry_kind sub_kind =
    if is_word entry_kind "clock_event"
    then if is_null sub_kind || is_undefined sub_kind
      then "clock_sub_kind must be set when entry_kind === \"clock_event\"" ∷ []
      else require (is_one_of valid_clock_sub_kinds sub_kind)
          ("clock_sub_kind \"" +++ text_of sub_kind +++ "\" is not a recognized ClockEventSubKind")
    else require (is_null sub_kind || is_undefined sub_kind)
        "clock_sub_kind must be null when entry_kind !== \"clock_event\""

unfoldable pub validate_daily_log_entry_captured : (Value → String) → Value → List String
validate_daily_log_entry_captured text_of r = errors_of (
    require (is_nonempty_text (member r "entry_id")) "entry_id must be a non-empty string"
    ∷ require_one_of (member r "entry_kind") valid_daily_log_entry_kinds
        "entry_kind must be a non-empty string"
        (λ s. "entry_kind \"" +++ s +++ "\" is not a recognized DailyLogEntryKind")
    ∷ require (is_text_or_null (member r "transcript_text"))
        "transcript_text must be a string or null"
    ∷ require (is_null (member r "audio_uri") || is_nonempty_text (member r "audio_uri"))
        "audio_uri must be a non-empty string or null"
    ∷ require_given (array (member r "photo_uris")) "photo_uris must be an array"
        (validate_each require_text "photo_uris" 0)
    ∷ clock_errors text_of (member r "entry_kind") (member r "clock_sub_kind")
    ∷ [])

unfoldable pub validate_daily_log_facts_extracted : Value → List String
validate_daily_log_facts_extracted r = errors_of (
    require (is_nonempty_text (member r "entry_id")) "entry_id must be a non-empty string"
    ∷ require (is_object (member r "facts") && not (is_array (member r "facts")))
        "facts must be a non-null object (DailyLogExtractedFacts shape)"
    ∷ [])

unfoldable pub validate_daily_log_drift_detected : Value → List String
validate_daily_log_drift_detected r = errors_of (
    require (is_nonempty_text (member r "entry_id")) "entry_id must be a non-empty string"
    ∷ require_one_of (member r "severity") valid_drift_severities
        "severity must be a non-empty string"
        (λ s.
          "severity \"" +++ s
          +++ "\" is not a recognized DriftSeverity (expected info|caution|warn|block)")
    ∷ require (is_nonempty_text (member r "description")) "description must be a non-empty string"
    ∷ [])

unfoldable pub validate_relay_card_surfaced : Value → List String
validate_relay_card_surfaced r = errors_of (
    require (is_nonempty_text (member r "relay_card_id")) "relay_card_id must be a non-empty string"
    ∷ require (is_nonempty_text (member r "entry_id")) "entry_id must be a non-empty string"
    ∷ require (is_nonempty_text (member r "surfaced_to")) "surfaced_to must be a non-empty string"
    ∷ [])

unfoldable pub validate_relay_card_reviewed : Value → List String
validate_relay_card_reviewed r = errors_of (
    require (is_nonempty_text (member r "relay_card_id")) "relay_card_id must be a non-empty string"
    ∷ require (is_nonempty_text (member r "reviewer")) "reviewer must be a non-empty string"
    ∷ require (is_iso8601 (member r "reviewed_at")) "reviewed_at must be an ISO8601 timestamp"
    ∷ require_one_of (member r "outcome") valid_relay_review_outcomes
        "outcome must be a non-empty string"
        (λ s.
          "outcome \"" +++ s
          +++ "\" is not a recognized RelayCardReviewOutcome (expected acknowledged|actioned|dismissed)")
    ∷ [])
