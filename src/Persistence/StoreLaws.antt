-- ===== src/Persistence/StoreLaws.antt =====
-- The file of the store of events is the log of the events that were accepted
-- (src/persistence/eventStore.ts).
use kerf_app.Common.{
  All, Bool-cases, List, Option, String, [], any, ap, arith, false, inl, inr, is_empty, keep, map,
  nat_beq, none, or_else, refl, some, subst, suc, sym, ℕ, ◌++◌, ◌∙◌, ◌∷◌, ◌≡◌, ◌⊎◌,
}
use mathlib.Core.List.{append_assoc, append-nil}
use kerf_app.Common.Json.{Value}
use kerf_app.Checks.Guards.{ValidationResult, invalid, valid}
use kerf_app.Persistence.EventLaws.{validate_persistence_event-NoErrors}
use kerf_app.Persistence.EventStore.{
  Codec, append_event, blank, events_in, file_line, file_text, is_ok, judge_parsed, newline, read,
  read_all, read_line, split_lines, trim_codes, trim_codes_end, trim_codes_start, validate,
  warnings_in,
}

-- A line in which no line ends.
abbrev pub IsLine : List ℕ → Type 0
IsLine line = any (λ c. nat_beq c newline) line ≡ false

-- JSON writes the event on a line, and reads it back from there.
pub record IsWritable (codec : Codec) (e : Value) : Type 0 where
  pub on_a_line : IsLine (codec.stringify e)
  pub visible : is_empty (trim_codes (codec.stringify e)) ≡ false
  pub read_back : codec.parse (trim_codes (codec.stringify e)) ≡ some e

split_lines-line :
    (line s : List ℕ) → IsLine line → split_lines (line ++ (newline ∷ s)) ≡ line ∷ split_lines s
unfolding split_lines
split_lines-line [] s h = refl
split_lines-line (c ∷ line) s h = elim (Bool-cases (nat_beq c newline)) [
  | inl ends ↦ cc
  | inr other ↦ let rest = split_lines-line line s (ground arith) in rw (other, rest)
]

-- The lines of a file, and the empty text after the last of them.
split_lines-file_text :
    (lines : List (List ℕ)) → All IsLine lines → split_lines (file_text lines) ≡ lines ++ ([] ∷ [])
unfolding file_text split_lines
split_lines-file_text [] h = refl
split_lines-file_text (line ∷ rest) h =
    split_lines-line line (file_text rest) h.0
    ∙ ap (λ ls. line ∷ ls) (split_lines-file_text rest h.1)

-- A line at the end of the file.
file_text-append :
    (lines : List (List ℕ)) (line : List ℕ)
    → file_text lines ++ file_line line ≡ file_text (lines ++ (line ∷ []))
unfolding file_text
file_text-append [] line = refl
file_text-append (first ∷ rest) line =
    append_assoc first (newline ∷ file_text rest) (file_line line)
    ∙ ap (λ s. first ++ (newline ∷ s)) (file_text-append rest line)

result_cases :
    (r : ValidationResult)
    → ((v : Value) × (r ≡ valid v)) ⊎ ((errors : List String) × (r ≡ invalid errors))
result_cases (valid v) = inl (v, refl)
result_cases (invalid errors) = inr (errors, refl)

module _ (codec : Codec) where
  -- A valid event is returned as it is.
  pub validate_cases :
      (e : Value)
      → (validate codec e ≡ valid e)
        ⊎ ((errors : List String) × (validate codec e ≡ invalid errors))
  validate_cases e = elim (result_cases (validate codec e)) [
    | inl (v, q) ↦
        let (same, _, _, _, _) = validate_persistence_event-NoErrors codec.text_of e v q in
        inl (q ∙ ap valid same)
    | inr failed ↦ inr failed
  ]

  -- Appending in turn.
  unfoldable pub append_all : List Value → Option (List ℕ) → Option (List ℕ)
  append_all [] file = file
  append_all (e ∷ rest) file = append_all rest (append_event codec e file).0

  abbrev pub accepted : List Value → List Value
  accepted events = keep (λ e. is_ok (validate codec e)) events

  -- After the appends the file has a line for each accepted event, behind those that it had.
  append_all-file_text :
      (events : List Value) (lines : List (List ℕ)) (file : Option (List ℕ))
      → or_else file [] ≡ file_text lines
      → or_else (append_all events file) []
        ≡ file_text (lines ++ map codec.stringify (accepted events))
  unfolding append_all append_event
  append_all-file_text [] lines file h = h ∙ ap file_text (sym (append-nil lines))
  append_all-file_text (e ∷ rest) lines file h = elim (validate_cases e) [
    | inl q ↦
        let written =
          ap (λ s. s ++ file_line (codec.stringify e)) h
          ∙ file_text-append lines (codec.stringify e) in
        let later =
          append_all-file_text rest (lines ++ (codec.stringify e ∷ []))
            (some (or_else file [] ++ file_line (codec.stringify e))) written in
        rw q (
          later
          ∙ ap file_text
              (append_assoc lines (codec.stringify e ∷ []) (map codec.stringify (accepted rest))))
    | inr (errors, q) ↦ rw q (append_all-file_text rest lines file h)
  ]

  read_line-written :
      (i : ℕ) (e : Value)
      → validate codec e ≡ valid e
      → IsWritable codec e
      → read_line codec i (codec.stringify e) ≡ read e
  unfolding read_line
  read_line-written i e q w = rw (w.visible, w.read_back, q)

  read_line-blank : (i : ℕ) → read_line codec i [] ≡ blank
  unfolding read_line trim_codes_end trim_codes_start
  read_line-blank i = refl

  -- The lines of accepted events are read as these events, with no warning.
  events_in-accepted :
      (i : ℕ) (events : List Value)
      → All (IsWritable codec) events
      → (events_in codec i (map codec.stringify (accepted events) ++ ([] ∷ [])) ≡ accepted events)
        × (warnings_in codec i (map codec.stringify (accepted events) ++ ([] ∷ [])) ≡ [])
  unfolding events_in warnings_in
  events_in-accepted i [] h = (rw (read_line-blank i), rw (read_line-blank i))
  events_in-accepted i (e ∷ rest) h = elim (validate_cases e) [
    | inl q ↦
        let (read_rest, unwarned) = events_in-accepted (suc i) rest h.1 in
        let line = read_line-written i e q h.0 in
        (rw (q, line) (ap (λ es. e ∷ es) read_rest), rw (q, line) unwarned)
    | inr (errors, q) ↦
        let (read_rest, unwarned) = events_in-accepted i rest h.1 in (rw q read_rest, rw q unwarned)
  ]

  accepted-lines :
      (events : List Value)
      → All (IsWritable codec) events
      → All IsLine (map codec.stringify (accepted events))
  accepted-lines [] h = tt
  accepted-lines (e ∷ rest) h = elim (validate_cases e) [
    | inl q ↦ rw q (h.0.on_a_line, accepted-lines rest h.1)
    | inr (errors, q) ↦ rw q (accepted-lines rest h.1)
  ]

  pub read_all-or_else :
      (file : Option (List ℕ))
      → ((read_all codec file).events ≡ events_in codec 1 (split_lines (or_else file [])))
        × ((read_all codec file).warnings ≡ warnings_in codec 1 (split_lines (or_else file [])))
  unfolding read_all split_lines events_in warnings_in
  read_all-or_else none = (rw (read_line-blank 1), rw (read_line-blank 1))
  read_all-or_else (some raw) = (refl, refl)

  -- The store is the log of what was accepted: after any events were appended in turn to a store whose
  -- file does not exist yet, `readAll` returns exactly those that are valid, in the order in which they
  -- were appended, and warns of no line, if JSON writes each event on a line and reads it back.
  pub append_all-read_all :
      (events : List Value)
      → All (IsWritable codec) events
      → ((read_all codec (append_all events none)).events ≡ accepted events)
        × ((read_all codec (append_all events none)).warnings ≡ [])
  unfolding file_text
  append_all-read_all events h =
      let text = append_all-file_text events [] none refl in
      let lines = ap split_lines text ∙ split_lines-file_text _ (accepted-lines events h) in
      let (log, unwarned) = events_in-accepted 1 events h in
      let (is_read, is_warned) = read_all-or_else (append_all events none) in
      (
        is_read ∙ ap (events_in codec 1) lines ∙ log,
        is_warned ∙ ap (warnings_in codec 1) lines ∙ unwarned,
      )

  judge_parsed-valid :
      (i : ℕ) (o : Option Value) (e : Value)
      → judge_parsed codec i o ≡ read e
      → validate codec e ≡ valid e
  judge_parsed-valid i none e h = cc
  judge_parsed-valid i (some v) e h = elim (validate_cases v) [
    | inl q ↦
        let is_read = rw q at h in
        let same : v ≡ e = cc in subst (λ x. validate codec x ≡ valid x) same q
    | inr (errors, q) ↦ let is_skipped = rw q at h in cc
  ]

  pub read_line-valid :
      (i : ℕ) (line : List ℕ) (e : Value)
      → read_line codec i line ≡ read e
      → validate codec e ≡ valid e
  unfolding read_line
  read_line-valid i line e h = elim (Bool-cases (is_empty (trim_codes line))) [
    | inl empty ↦ let is_blank = rw empty at h in cc
    | inr visible ↦ judge_parsed-valid i _ e (rw visible at h)
  ]
