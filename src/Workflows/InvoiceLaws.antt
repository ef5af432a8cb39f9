-- ===== src/Workflows/InvoiceLaws.antt =====
-- What the gate and the approval of src/workflows/invoice-followup.ts let out.
use kerf_app.Common.{
  Bool, Option, String, false, if◌then◌else◌, inl, inr, none, not, refl, some, true, ◌>?◌, ◌≡◌, ◌≢◌,
  ◌⊎◌,
}
use kerf_app.Common.Text.{is_nonempty, trim}
use kerf_app.Altitude.Types.{AltitudePacket, SafeNextAction, block_external_send}
use kerf_app.Altitude.Validators.{proposal_implies_recording}
use kerf_app.Altitude.Verdicts.{HasConsent, IsApproved}
use kerf_app.Altitude.GateTypes.{GateClock, PolicyGateOptions}
use kerf_app.Altitude.GateLaws.{run_policy_gate-allowed_iff}
use kerf_app.Altitude.Precedence.{
  Answers, exposed, for_commit, for_frontier, for_operator, for_owner, for_summary, mistimed,
  over_cap, unapproved, uncompacted, unconsented, unlabelled, unpriced, unsignalled, unsourced,
}
use kerf_app.Altitude.Answers.{run_policy_gate-Answers}
use kerf_app.Workflows.InvoiceFacts.{InvoiceFollowupCandidate, InvoiceFollowupDraft}
use kerf_app.Workflows.InvoicePacket.{
  InvoiceFollowupPacketOpts, gate_options, gated_invoice_followup,
  invoice_candidate_to_altitude_packet,
}
use kerf_app.Workflows.InvoiceApproval.{
  InvoiceFollowupApprovalDecision, InvoiceFollowupApprovalRequest, InvoiceFollowupApprovalResult,
  apply_invoice_followup_approval_action, approved_result, decide_approve, decide_edit,
  decide_reject, followup_approved, followup_rejected, only_draft, require_edited_message,
  send_external, state_approved, state_edited, state_rejected,
}

module _ (candidate : InvoiceFollowupCandidate) (draft : InvoiceFollowupDraft)
    (opts : InvoiceFollowupPacketOpts) where
  abbrev packet : AltitudePacket
  packet = invoice_candidate_to_altitude_packet candidate draft opts

  -- The packet speaks of no recording.
  packet-HasConsent : HasConsent packet
  unfolding invoice_candidate_to_altitude_packet proposal_implies_recording
  packet-HasConsent = inr (refl, inl refl)

  -- The packet asks for a send that nobody has approved.
  packet-not-IsApproved : ¬ IsApproved packet.external_send
  unfolding invoice_candidate_to_altitude_packet
  packet-not-IsApproved a = elim a [ inl e ↦ cc | inr ((who, e), _) ↦ cc ]

only_send :
    {p : AltitudePacket} {options : PolicyGateOptions} {clock : GateClock} {action : SafeNextAction}
    → HasConsent p
    → ¬ IsApproved p.external_send
    → Answers p options clock action
    → action ≡ block_external_send
only_send c n (unconsented m) = absurd (m c)
only_send c n (unapproved _ _) = refl
only_send c n (unpriced _ a _) = absurd (n a)
only_send c n (exposed _ a _ _) = absurd (n a)
only_send c n (unsourced _ a _ _ _) = absurd (n a)
only_send c n (unlabelled b _) = absurd (n b.1)
only_send c n (unsignalled b _ _) = absurd (n b.1)
only_send c n (over_cap b _ _ _) = absurd (n b.1)
only_send c n (mistimed b _ _ _ _) = absurd (n b.1)
only_send c n (uncompacted b _ _ _ _ _) = absurd (n b.1)
only_send c n (for_frontier h _) = absurd (n h.approved)
only_send c n (for_owner h _) = absurd (n h.approved)
only_send c n (for_operator h _) = absurd (n h.approved)
only_send c n (for_summary h _) = absurd (n h.approved)
only_send c n (for_commit h _) = absurd (n h.approved)

-- The gated follow-up of an invoice is never allowed, whatever the candidate, the draft and the
-- options: its packet asks for an external send that nobody has approved yet, so that the gate
-- answers by blocking the send.
pub gated_invoice_followup-blocked :
    (candidate : InvoiceFollowupCandidate) (draft : InvoiceFollowupDraft)
    (opts : InvoiceFollowupPacketOpts) (clock : GateClock)
    → let r = (gated_invoice_followup candidate draft opts clock).1.policy_gate_result in
      (r.allowed ≢ true) × (r.safe_next_action ≡ block_external_send)
unfolding gated_invoice_followup
gated_invoice_followup-blocked candidate draft opts clock =
    let p = invoice_candidate_to_altitude_packet candidate draft opts in
    let refused = packet-not-IsApproved candidate draft opts in
    (
      λ h. refused ((run_policy_gate-allowed_iff p (gate_options opts) clock).0 h).approved,
      only_send (packet-HasConsent candidate draft opts) refused
          (run_policy_gate-Answers p (gate_options opts) clock),
    )

-- What every result says of the request: its id, its message and the time of the decision.
abbrev pub IsOf : InvoiceFollowupApprovalRequest → String → InvoiceFollowupApprovalResult → Type 0
IsOf request at r =
    (r.id ≡ request.id) × (r.original_message ≡ request.draft.message) × (r.decided_at ≡ at)

-- The message goes out: it is approved for sending, and no reason speaks against it.
abbrev pub Sends : String → InvoiceFollowupApprovalResult → Type 0
Sends message r =
    (r.approved_message ≡ some message)
    × (r.rejection_reason ≡ none)
    × (r.event_kind ≡ followup_approved)
    × (r.action_class ≡ send_external)

-- No message goes out, for the given reason.
abbrev pub Withholds : Option String → InvoiceFollowupApprovalResult → Type 0
Withholds reason r =
    (r.approved_message ≡ none)
    × (r.rejection_reason ≡ reason)
    × (r.event_kind ≡ followup_rejected)
    × (r.action_class ≡ only_draft)

-- Nothing is left of the text without the white space at its ends.
abbrev pub IsBlank : String → Type 0
IsBlank message = is_nonempty (trim message) ≡ false

-- What a decision at a time makes of a request.
abbrev pub IsDecided :
    InvoiceFollowupApprovalRequest
    → InvoiceFollowupApprovalDecision
    → String
    → Option InvoiceFollowupApprovalResult
    → Type 0
IsDecided request decide_approve at o =
    (r : InvoiceFollowupApprovalResult) × (o ≡ some r)
    × IsOf request at r
    × (r.state ≡ state_approved)
    × Sends request.draft.message r
IsDecided request (decide_edit message) at o =
    (IsBlank message × (o ≡ none))
    ⊎ ((r : InvoiceFollowupApprovalResult) × (o ≡ some r)
        × (¬ IsBlank message)
        × IsOf request at r
        × (r.state ≡ state_edited)
        × Sends (trim message) r)
IsDecided request (decide_reject reason) at o =
    (r : InvoiceFollowupApprovalResult) × (o ≡ some r)
    × IsOf request at r
    × (r.state ≡ state_rejected)
    × Withholds reason r

edit-IsDecided :
    (request : InvoiceFollowupApprovalRequest) (message at : String) (b : Bool)
    → is_nonempty (trim message) ≡ b
    → IsDecided request (decide_edit message) at (
        (if not b then none else some (trim message))
        >? (λ trimmed. some (approved_result request state_edited trimmed at)))
edit-IsDecided request message at true h =
    inr (_, refl, λ blank. cc (h, blank), (refl, refl, refl), refl, (refl, refl, refl, refl))
edit-IsDecided request message at false h = inl (h, refl)

-- Every result has the id and the message of the request and the time of the decision. An approval
-- sends the message of the draft and an edit the trimmed text, unless that is empty, which is the
-- only error; a rejection keeps its reason, stays a draft and has no message to send.
pub apply_approval-IsDecided :
    (request : InvoiceFollowupApprovalRequest) (decision : InvoiceFollowupApprovalDecision)
    (at : String)
    → IsDecided request decision at (apply_invoice_followup_approval_action request decision at)
unfolding apply_invoice_followup_approval_action require_edited_message
apply_approval-IsDecided request decide_approve at =
    (_, refl, (refl, refl, refl), refl, (refl, refl, refl, refl))
apply_approval-IsDecided request (decide_edit message) at =
    edit-IsDecided request message at (is_nonempty (trim message)) refl
apply_approval-IsDecided request (decide_reject reason) at =
    (_, refl, (refl, refl, refl), refl, (refl, refl, refl, refl))
