-- ===== src/Altitude/Levels.antt =====
-- src/altitude/gate.ts: altitudes, their order, and the altitude that the system assigns to a
-- packet from its workflow, its action and the escalation rules.
use kerf_app.Common.{
  Bool, List, Option, String, [], false, if◌then◌else◌, includes, none, not, number_eq, or_else,
  some, text_eq, true, ℕ, ◌&&◌, ◌++◌, ◌>?◌, ◌∷◌,
}
use kerf_app.Common.Int.{leb_ℤ, ltb_ℤ, pos, ℤ, ◌-ℤ◌}
use kerf_app.Altitude.Types.{
  AltitudeLevel, AltitudePacket, AltitudeProposedActionType, AltitudeWorkflowKind, DivergenceClass,
  ExternalSend, MutationIntent, RecordingConsentState, RecordingIntent, all_party_captured, approve,
  blackboard_update, block, commit, compliance, draft_client_message, draft_internal_summary,
  drift_detection, field_capture, flag_eq, intake, invoice_followup, l0, l1, l2, l3, l4, match,
  memory_promotion, model_overcaution, model_undercaution, no_action, proposal_followup,
  proposal_generation, propose, request_review, role_visibility_eq, route_to_owner, route_to_pm,
  validator_id_eq, voice_tour,
}

abbrev pub altitude_rank : AltitudeLevel → ℕ
altitude_rank l0 = 0
altitude_rank l1 = 1
altitude_rank l2 = 2
altitude_rank l3 = 3
altitude_rank l4 = 4

unfoldable pub workflow_baseline : AltitudeWorkflowKind → AltitudeLevel
workflow_baseline blackboard_update = l0
workflow_baseline invoice_followup = l1
workflow_baseline proposal_followup = l2
workflow_baseline drift_detection = l1
workflow_baseline proposal_generation = l2
workflow_baseline field_capture = l2
workflow_baseline intake = l2
workflow_baseline memory_promotion = l2
workflow_baseline voice_tour = l2
workflow_baseline compliance = l4

unfoldable pub action_baseline : AltitudeProposedActionType → AltitudeLevel
action_baseline no_action = l0
action_baseline block = l1
action_baseline draft_internal_summary = l1
action_baseline draft_client_message = l2
action_baseline request_review = l2
action_baseline route_to_pm = l2
action_baseline route_to_owner = l3

abbrev pub two_party_consent_jurisdictions : List String
two_party_consent_jurisdictions =
    "US-CA" ∷ "US-FL" ∷ "US-IL" ∷ "US-MD" ∷ "US-MA" ∷ "US-MT" ∷ "US-NV" ∷ "US-NH" ∷ "US-PA"
    ∷ "US-WA" ∷ []

unfoldable pub compare_altitude : AltitudeLevel → AltitudeLevel → ℤ
compare_altitude left right = pos (altitude_rank left) -ℤ pos (altitude_rank right)

-- the callback of `reduce`
unfoldable pub higher : AltitudeLevel → AltitudeLevel → AltitudeLevel
unfolding compare_altitude
higher top level = if ltb_ℤ (pos 0) (compare_altitude level top) then level else top

reduce_altitude : AltitudeLevel → List AltitudeLevel → AltitudeLevel
reduce_altitude top [] = top
reduce_altitude top (level ∷ levels) = reduce_altitude (higher top level) levels

unfoldable pub max_altitude : List AltitudeLevel → AltitudeLevel
unfolding reduce_altitude higher
max_altitude [] = l0
max_altitude (level ∷ levels) = reduce_altitude l0 (level ∷ levels)

abbrev pub money_amount : AltitudePacket → ℤ
money_amount p = or_else (p.money_fields >? (λ m. m.amount_cents)) (pos 0)

abbrev pub external_send_requested : AltitudePacket → Bool
external_send_requested p =
    or_else (p.external_send >? (λ (s : ExternalSend). some s.requested)) false

-- `intent === undefined || ['propose', 'approve', 'commit'].includes(intent)`
unfoldable pub intent_mutates : Option MutationIntent → Bool
intent_mutates none = true
intent_mutates (some propose) = true
intent_mutates (some approve) = true
intent_mutates (some commit) = true
intent_mutates (some _) = false

unfoldable pub is_money_mutation : AltitudePacket → Bool
unfolding intent_mutates
is_money_mutation p =
    if leb_ℤ (money_amount p) (pos 0)
    then false
    else intent_mutates (p.money_fields >? (λ m. m.mutation_intent))

abbrev pub is_all_party : Option RecordingConsentState → Bool
is_all_party (some all_party_captured) = true
is_all_party _ = false

abbrev pub in_two_party_jurisdiction : Option String → Bool
in_two_party_jurisdiction none = false
in_two_party_jurisdiction (some j) = includes two_party_consent_jurisdictions j

abbrev pub recording_requested : AltitudePacket → Bool
recording_requested p =
    or_else (p.recording_intent >? (λ (r : RecordingIntent). some r.requested)) false

abbrev pub consent_state : AltitudePacket → Option RecordingConsentState
consent_state p = p.recording_intent >? (λ r. r.consent_state)

unfoldable pub requires_two_party_consent : AltitudePacket → Bool
requires_two_party_consent p =
    if not (recording_requested p)
    then false
    else if not (in_two_party_jurisdiction p.jurisdiction)
    then false
    else not (is_all_party (consent_state p))

pub record AltitudeBaselineResult : Type 0 where
  pub workflow_baseline : AltitudeLevel
  pub action_baseline : AltitudeLevel
  pub system_baseline_altitude : AltitudeLevel

pub record AltitudeEscalationResult : Type 0 where
  pub escalation_floor : AltitudeLevel
  pub matched_rules : List String

pub record AltitudeAssignmentResult : Type 0 where
  pub baseline : AltitudeBaselineResult
  pub open baseline use *
  pub escalation : AltitudeEscalationResult
  pub open escalation use *
  pub system_final_altitude : AltitudeLevel
  pub divergence_class : DivergenceClass

unfoldable pub derive_system_baseline_altitude : AltitudePacket → AltitudeBaselineResult
derive_system_baseline_altitude p =
    let w = workflow_baseline p.workflow in
    let a = action_baseline p.proposed_action.type in
    record {
      workflow_baseline = w;
      action_baseline = a;
      system_baseline_altitude = max_altitude (w ∷ a ∷ []);
    }

-- `matched.push(rule)` and `floors.push(level)`, under a test
abbrev push_if {ℓ} : {A : Type ℓ} → Bool → A → List A → List A
push_if test a xs = if test then xs ++ a ∷ [] else xs

unfoldable pub derive_escalation_floor : AltitudePacket → AltitudeEscalationResult
derive_escalation_floor p =
    let send = external_send_requested p in
    let money = is_money_mutation p in
    let consent = requires_two_party_consent p in
    record {
      escalation_floor =
          max_altitude (push_if consent l4 (push_if money l3 (push_if send l3 (l0 ∷ []))));
      matched_rules =
          push_if consent "recording_consent_missing"
            (push_if money "money_mutation" (push_if send "external_send_requested" []));
    }

unfoldable pub classify_divergence : AltitudeLevel → AltitudeLevel → DivergenceClass
unfolding compare_altitude
classify_divergence model system =
    let compared = compare_altitude model system in
    if leb_ℤ compared (pos 0) && leb_ℤ (pos 0) compared
    then match
    else if ltb_ℤ (pos 0) compared
    then model_overcaution
    else model_undercaution

unfoldable pub assign_altitude : AltitudePacket → AltitudeAssignmentResult
assign_altitude p =
    let b = derive_system_baseline_altitude p in
    let e = derive_escalation_floor p in
    let final = max_altitude (b.system_baseline_altitude ∷ e.escalation_floor ∷ []) in
    record {
      baseline = b;
      escalation = e;
      system_final_altitude = final;
      divergence_class = classify_divergence p.model_suggested_altitude final;
    }
