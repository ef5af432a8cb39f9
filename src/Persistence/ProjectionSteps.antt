-- ===== src/Persistence/ProjectionSteps.antt =====
-- How the variables of the loop of projections.ts move on with the events: the entries by their
-- changes, the actuals by their sum, and the last activity to the latest time.
use kerf_app.Common.{
  All, Bool-cases, List, Member, String, [], ap, arith, false, inl, inr, length, map, none, refl,
  some, subst, sym, true, ℕ, ◌++◌, ◌+◌, ◌∙◌, ◌∷◌, ◌≡◌, ◌⊎◌,
}
use kerf_app.Common.Text.{codes, is_before}
use kerf_app.Persistence.ProjectionTypes.{
  Progress, ProjectCaptureSummary, ProjectDecisionSummary, ProjectEvent, ProjectPayload,
  ProjectScaffoldSummary, actuals_recorded, capture_recorded, decision_approved, decision_drafted,
  not_aggregated, project_created, scaffold_generated, scaffold_refined, transcript_reviewed,
}
use kerf_app.Persistence.Projection.{apply_event, apply_payload, later_of, text_start, walk}
use kerf_app.Persistence.EntryLaws.{Change, do_changes, leaves, sets, updates}

abbrev pub capture_key : ProjectCaptureSummary → String
capture_key c = c.capture_id

abbrev pub scaffold_key : ProjectScaffoldSummary → String
scaffold_key s = s.scaffold_id

abbrev pub decision_key : ProjectDecisionSummary → String
decision_key d = d.packet_id

-- What an event means for the captures: a recording is a capture that nobody has reviewed, with the
-- time of the event and the first 200 units of its text; a review gives it its time.
abbrev pub capture_change : String → ProjectPayload → Change ProjectCaptureSummary
capture_change at (capture_recorded e) = sets (record {
  capture_id = e.capture_id;
  captured_at = at;
  duration_ms = e.duration_ms;
  transcript_preview = text_start 200 e.transcript_text;
  audio_uri = e.audio_uri;
  language = e.language;
  reviewed_at = none;
})
capture_change at (transcript_reviewed id) =
    updates id (λ (c : ProjectCaptureSummary). record c { reviewed_at = some at })
capture_change at _ = leaves

-- A scaffold starts without refinements; each adds one to their count and is the last.
abbrev pub scaffold_change : String → ProjectPayload → Change ProjectScaffoldSummary
scaffold_change at (scaffold_generated e) = sets (record {
  scaffold_id = e.scaffold_id;
  generated_at = at;
  archetype = e.archetype;
  subtype = e.subtype;
  line_count = e.line_count;
  refinement_count = 0;
  last_refined_at = none;
})
scaffold_change at (scaffold_refined id) = updates id (λ (s : ProjectScaffoldSummary). record s {
  refinement_count = s.refinement_count + 1;
  last_refined_at = some at;
})
scaffold_change at _ = leaves

-- A decision is open when drafted, also when drafted again, until it is approved.
abbrev pub decision_change : String → ProjectPayload → Change ProjectDecisionSummary
decision_change at (decision_drafted e) = sets (record {
  packet_id = e.packet_id;
  drafted_at = at;
  approved_at = none;
  approver = none;
  safe_next_action = e.safe_next_action;
  blocked_reasons = e.blocked_reasons;
})
decision_change at (decision_approved e) = updates e.packet_id (λ (d : ProjectDecisionSummary).
    record d { approved_at = some e.approved_at; approver = some e.approver })
decision_change at _ = leaves

abbrev pub changes_by :
    {A : Type 0} → (String → ProjectPayload → Change A) → List ProjectEvent → List (Change A)
changes_by change events = map (λ (e : ProjectEvent). change e.at e.payload) events

abbrev pub actual_cents : ProjectPayload → List ℕ
actual_cents (actuals_recorded cents) = cents ∷ []
actual_cents _ = []

-- The cents of the recorded actuals.
abbrev pub actuals_in : List ProjectEvent → List ℕ
actuals_in [] = []
actuals_in (e ∷ es) = actual_cents e.payload ++ actuals_in es

abbrev pub actuals_total : List ℕ → ℕ
actuals_total [] = 0
actuals_total (n ∷ ns) = n + actuals_total ns

abbrev pub IsLatest : String → List ProjectEvent → Type 0
IsLatest t events = All (λ (e : ProjectEvent). is_before (codes t) (codes e.at) ≡ false) events

-- How the entries of a part of the variables move on, and the numbers of the actuals with them.
abbrev pub Moves : (p q : Progress) → List ProjectEvent → Type 0
Moves p q events =
    (q.captures ≡ do_changes capture_key (changes_by capture_change events) p.captures)
    × (q.scaffolds ≡ do_changes scaffold_key (changes_by scaffold_change events) p.scaffolds)
    × (q.decisions ≡ do_changes decision_key (changes_by decision_change events) p.decisions)
    × (q.actuals.writeback_count ≡ p.actuals.writeback_count + length (actuals_in events))
    × (q.actuals.total_actual_cents
        ≡ p.actuals.total_actual_cents + actuals_total (actuals_in events))

apply_payload-activity :
    (at : String) (pl : ProjectPayload) (p : Progress)
    → (apply_payload at pl p).last_activity_at ≡ p.last_activity_at
unfolding apply_payload
apply_payload-activity at (project_created e) p = refl
apply_payload-activity at (capture_recorded e) p = refl
apply_payload-activity at (transcript_reviewed id) p = refl
apply_payload-activity at (scaffold_generated e) p = refl
apply_payload-activity at (scaffold_refined id) p = refl
apply_payload-activity at (decision_drafted e) p = refl
apply_payload-activity at (decision_approved e) p = refl
apply_payload-activity at (actuals_recorded n) p = refl
apply_payload-activity at not_aggregated p = refl

apply_payload-Moves :
    (at : String) (pl : ProjectPayload) (id tenant : String) (p : Progress)
    → Moves p
        (apply_payload at pl p)
        (record { at = at; correlation_id = id; tenant_id = tenant; payload = pl } ∷ [])
unfolding apply_payload
apply_payload-Moves at (project_created e) id tenant p =
    (refl, refl, refl, omega arith, omega arith)
apply_payload-Moves at (capture_recorded e) id tenant p =
    (refl, refl, refl, omega arith, omega arith)
apply_payload-Moves at (transcript_reviewed c) id tenant p =
    (refl, refl, refl, omega arith, omega arith)
apply_payload-Moves at (scaffold_generated e) id tenant p =
    (refl, refl, refl, omega arith, omega arith)
apply_payload-Moves at (scaffold_refined s) id tenant p =
    (refl, refl, refl, omega arith, omega arith)
apply_payload-Moves at (decision_drafted e) id tenant p =
    (refl, refl, refl, omega arith, omega arith)
apply_payload-Moves at (decision_approved e) id tenant p =
    (refl, refl, refl, omega arith, omega arith)
apply_payload-Moves at (actuals_recorded n) id tenant p =
    (refl, refl, refl, omega arith, omega arith)
apply_payload-Moves at not_aggregated id tenant p = (refl, refl, refl, omega arith, omega arith)

actuals-append :
    (cents : List ℕ) (rest : List ℕ)
    → (length (cents ++ rest) ≡ length cents + length rest)
      × (actuals_total (cents ++ rest) ≡ actuals_total cents + actuals_total rest)
actuals-append [] rest = (omega arith, omega arith)
actuals-append (n ∷ ns) rest = let deeper = actuals-append ns rest in (omega arith, omega arith)

pub walk-Moves : (events : List ProjectEvent) (p : Progress) → Moves p (walk events p) events
unfolding walk apply_event
walk-Moves [] p = (refl, refl, refl, omega arith, omega arith)
walk-Moves (e ∷ es) p =
    let p0 : Progress = record p { last_activity_at = later_of p.last_activity_at e.at } in
    let first = apply_payload-Moves e.at e.payload e.correlation_id e.tenant_id p0 in
    let rest = walk-Moves es (apply_event e p) in
    let sizes = actuals-append (actual_cents e.payload) (actuals_in es) in
    let alone = actuals-append (actual_cents e.payload) [] in
    (
      rest.0 ∙ ap (do_changes capture_key (changes_by capture_change es)) first.0,
      rest.1 ∙ ap (do_changes scaffold_key (changes_by scaffold_change es)) first.1,
      rest.2 ∙ ap (do_changes decision_key (changes_by decision_change es)) first.2,
      omega arith,
      omega arith,
    )

-- The later of two texts is before neither.
is_before-irreflexive : (s : List ℕ) → is_before s s ≡ false
is_before-irreflexive [] = refl
is_before-irreflexive (c ∷ s) = ground (arith, is_before-irreflexive s)

is_before-asymmetric : (s t : List ℕ) → is_before s t ≡ true → is_before t s ≡ false
is_before-asymmetric [] [] h = cc
is_before-asymmetric [] (d ∷ t) h = refl
is_before-asymmetric (c ∷ s) [] h = cc
is_before-asymmetric (c ∷ s) (d ∷ t) h = ground (arith, is_before-asymmetric s t)

-- What is before neither of a chain is not before its end.
is_before-chain :
    (a b c : List ℕ) → is_before b a ≡ false → is_before c b ≡ false → is_before c a ≡ false
is_before-chain [] b [] h g = refl
is_before-chain [] b (z ∷ c) h g = refl
is_before-chain (x ∷ a) [] c h g = cc
is_before-chain (x ∷ a) (y ∷ b) [] h g = cc
is_before-chain (x ∷ a) (y ∷ b) (z ∷ c) h g = ground (arith, is_before-chain a b c)

later_of-not_before :
    (t at : String)
    → (is_before (codes (later_of t at)) (codes t) ≡ false)
      × (is_before (codes (later_of t at)) (codes at) ≡ false)
later_of-not_before t at = elim (Bool-cases (is_before (codes t) (codes at))) [
  | inl later ↦
      rw later (is_before-asymmetric (codes t) (codes at) later, is_before-irreflexive (codes at))
  | inr earlier ↦ rw earlier (is_before-irreflexive (codes t), earlier)
]

later_of-either : (t at : String) → (later_of t at ≡ t) ⊎ (later_of t at ≡ at)
later_of-either t at = elim (Bool-cases (is_before (codes t) (codes at))) [
  | inl later ↦ inr (rw later refl)
  | inr earlier ↦ inl (rw earlier refl)
]

-- The last activity comes from the start or an event, and is before none of them.
unfoldable pub IsLastOf : String → List ProjectEvent → String → Type 0
IsLastOf start events t =
    (is_before (codes t) (codes start) ≡ false)
    × IsLatest t events
    × Member t (start ∷ map (λ (e : ProjectEvent). e.at) events)

pub walk-IsLastOf :
    (events : List ProjectEvent) (p : Progress)
    → IsLastOf p.last_activity_at events (walk events p).last_activity_at
unfolding walk apply_event IsLastOf
walk-IsLastOf [] p = (is_before-irreflexive (codes p.last_activity_at), tt, inl refl)
walk-IsLastOf (e ∷ es) p =
    let p0 : Progress = record p { last_activity_at = later_of p.last_activity_at e.at } in
    let (above, latest, among) =
      subst (λ t. IsLastOf t es (walk es (apply_event e p)).last_activity_at)
        (apply_payload-activity e.at e.payload p0) (walk-IsLastOf es (apply_event e p)) in
    let (above_start, above_event) = later_of-not_before p.last_activity_at e.at in
    let last = codes (walk es (apply_event e p)).last_activity_at in
    (
      is_before-chain (codes p.last_activity_at) (codes p0.last_activity_at) last above_start above,
      (is_before-chain (codes e.at) (codes p0.last_activity_at) last above_event above, latest),
      elim among [
        | inl same ↦ elim (later_of-either p.last_activity_at e.at) [
          | inl kept ↦ inl (sym kept ∙ same)
          | inr taken ↦ inr (inl (sym taken ∙ same))
        ]
        | inr m ↦ inr (inr m)
      ],
    )
