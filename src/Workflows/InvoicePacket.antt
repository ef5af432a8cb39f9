-- ===== src/Workflows/InvoicePacket.antt =====
-- src/workflows/invoice-followup.ts: the packet of a candidate, and the gated workflow. The event
-- that records the decision is left out.
use Prim.Native.Char.{code}
use kerf_app.Common.{
  Bool, Option, String, [], false, if◌then◌else◌, leb, ltb, nat_beq, none, or_else, some, suc, true,
  ℕ, ◌&&◌, ◌||◌, ◌∷◌,
}
use kerf_app.Common.Int.{negsuc, pos, ℤ}
use kerf_app.Common.Text.{decimal, ◌+++◌}
use kerf_app.Altitude.Types.{
  AltitudePacket, band_high, direct_evidence, draft_client_message, email, high, holding,
  invoice_followup, l2, normal, propose, status_current, tenant_catalog,
}
use kerf_app.Altitude.Gate.{run_policy_gate}
use kerf_app.Altitude.GateTypes.{DecisionPacket, GateClock, PolicyGateOptions}
use kerf_app.Workflows.InvoiceFacts.{InvoiceFollowupCandidate, InvoiceFollowupDraft}

pub record InvoiceFollowupPacketOpts : Type 0 where
  pub tenant_id : String
  pub evaluated_at : String
  pub jurisdiction : Option String
  pub model_source_id : Option String
  pub packet_id_suffix : Option String
  pub gate_run_id : Option String

abbrev pub is_segment_char : ℕ → Bool
is_segment_char c =
    (leb b'a' c && leb c b'z')
    || (leb b'A' c && leb c b'Z')
    || (leb b'0' c && leb c b'9')
    || nat_beq c b'_'

-- `value.replace(/[^a-zA-Z0-9_]+/g, '_')`: the flag says that the last character was replaced.
abbrev pub id_segment_after : Bool → String → String
id_segment_after replaced String.[] = String.[]
id_segment_after replaced (String.◌∷◌ c s) =
    let kept = String.◌∷◌ c (id_segment_after false s) in
    let rest = id_segment_after true s in
    if is_segment_char (code c) then kept else if replaced then rest else "_" +++ rest

unfoldable pub id_segment : String → String
id_segment value = id_segment_after false value

-- An amount as it is written in a fact.
abbrev pub cents_text : ℤ → String
cents_text (pos n) = decimal n
cents_text (negsuc n) = "-" +++ decimal (suc n)

unfoldable pub invoice_candidate_to_altitude_packet :
    InvoiceFollowupCandidate → InvoiceFollowupDraft → InvoiceFollowupPacketOpts → AltitudePacket
unfolding id_segment
invoice_candidate_to_altitude_packet candidate draft opts =
    let packet_id = candidate.id +++ or_else opts.packet_id_suffix ":pkt" in
    let segment = id_segment candidate.invoice_id in
    record {
      packet_id = packet_id;
      event_id = packet_id +++ ":event";
      tenant_id = opts.tenant_id;
      project_id = some candidate.project_id;
      workflow = invoice_followup;
      classification = record {
        intent = "draft an overdue invoice reminder";
        urgency = if ltb 30 candidate.days_past_due then high else normal;
        confidence_band = band_high;
      };
      extracted_facts =
          ("client_name", candidate.client_name)
          ∷ ("project_id", candidate.project_id)
          ∷ ("invoice_id", candidate.invoice_id)
          ∷ ("invoice_number", or_else candidate.invoice_number "null")
          ∷ ("amount_cents", cents_text candidate.remaining_cents)
          ∷ ("due_date", candidate.due_date)
          ∷ ("days_past_due", decimal candidate.days_past_due)
          ∷ ("project_name", candidate.project_name)
          ∷ ("draft_message", draft.message)
          ∷ [];
      proposed_action = record {
        type = draft_client_message;
        description = "Draft a payment reminder for human approval.";
        reason = "Invoice past due.";
      };
      model_suggested_altitude = l2;
      model_suggested_blackboard_rail = some holding;
      model_inference_label = some direct_evidence;
      money_fields = some (record {
        amount_cents = some candidate.remaining_cents;
        source_status = some status_current;
        source_class = some tenant_catalog;
        privileged_fields = none;
        mutation_intent = some propose;
      });
      external_send = some (record {
        requested = true;
        channel = some email;
        recipient_id = some candidate.client_id;
        approved_by = none;
        approved_at = none;
      });
      recording_intent = none;
      compliance_flags = none;
      jurisdiction = some (or_else opts.jurisdiction "US-CA");
      source_refs = ("qbo://invoice/" +++ candidate.invoice_id) ∷ [];
      evidence_ids = ("qbo_invoice_" +++ segment) ∷ [];
      claim_ids =
          ("claim_invoice_" +++ segment +++ "_due_date")
          ∷ ("claim_invoice_" +++ segment +++ "_balance")
          ∷ ("claim_invoice_" +++ segment +++ "_status")
          ∷ [];
      source_model = or_else opts.model_source_id "qwen2.5-7b-instruct";
      token_usage = record {
        estimated_input_tokens = some 580;
        estimated_output_tokens = some 140;
        input_tokens = 0;
        output_tokens = 0;
      };
      created_at = opts.evaluated_at;
    }

abbrev pub gate_options : InvoiceFollowupPacketOpts → PolicyGateOptions
gate_options opts = record {
  gate_run_id = opts.gate_run_id;
  gate_version = none;
  evaluated_at = some opts.evaluated_at;
  token_budget = none;
  default_role_visibility = none;
}

unfoldable pub gated_invoice_followup :
    InvoiceFollowupCandidate
    → InvoiceFollowupDraft
    → InvoiceFollowupPacketOpts
    → GateClock
    → AltitudePacket × DecisionPacket
gated_invoice_followup candidate draft opts clock =
    let packet = invoice_candidate_to_altitude_packet candidate draft opts in
    (packet, run_policy_gate packet (gate_options opts) clock)
