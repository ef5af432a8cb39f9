-- ===== src/Altitude/Safety.antt =====
-- Safety of the decision packets that the gate of src/altitude/gate.ts emits.
use kerf_app.Common.{
  Bool, Option, arith, false, if◌then◌else◌, inl, inr, not, refl, some, subst, true, ◌↔◌, ◌≡◌, ◌≤◌,
  ◌⊎◌,
}
use kerf_app.Altitude.Types.{
  AltitudePacket, ExternalSend, SafeNextAction, blocked_pending_source, ready_for_review,
  request_frontier_review, request_owner_approval, v7,
}
use kerf_app.Altitude.Levels.{external_send_requested}
use kerf_app.Altitude.Assignment.{system_rank}
use kerf_app.Altitude.Verdicts.{HasApproval, HasSources, IsApproved}
use kerf_app.Altitude.Gate.{evaluate, gate_result, run_policy_gate}
use kerf_app.Altitude.GateTypes.{GateClock, PolicyGateOptions}
use kerf_app.Altitude.GateLaws.{IsCleared, run_policy_gate-allowed_iff}
use kerf_app.Altitude.Criticals.{includes-fails}
use kerf_app.Altitude.Judgement.{evaluate-IsJudged}
use kerf_app.Altitude.Precedence.{
  Answers, exposed, for_commit, for_frontier, for_operator, for_owner, for_summary, mistimed,
  over_cap, unapproved, uncompacted, unconsented, unlabelled, unpriced, unsignalled, unsourced,
}
use kerf_app.Altitude.Answers.{run_policy_gate-Answers}

module _ {p : AltitudePacket} {options : PolicyGateOptions} {clock : GateClock} where
  -- The refusals are no answers to a cleared packet.
  cleared-answer :
      {action : SafeNextAction}
      → IsCleared p options clock
      → Answers p options clock action
      → 3 ≤ system_rank p
      → (action ≡ request_owner_approval) ⊎ (action ≡ request_frontier_review)
  cleared-answer c (unconsented n) r = absurd (n c.consented)
  cleared-answer c (unapproved _ n) r = absurd (n c.approved)
  cleared-answer c (unpriced _ _ n) r = absurd (n c.priced)
  cleared-answer c (exposed _ _ _ n) r = absurd (n c.redacted)
  cleared-answer c (unsourced _ _ _ _ n) r = absurd (n c.sourced)
  cleared-answer c (unlabelled _ n) r = absurd (n c.labelled)
  cleared-answer c (unsignalled _ _ n) r = absurd (n c.signalled)
  cleared-answer c (over_cap _ _ _ n) r = absurd (n c.budgeted.0)
  cleared-answer c (mistimed _ _ _ _ n) r = absurd (n c.timed)
  cleared-answer c (uncompacted _ _ _ _ _ n) r = absurd (n c.budgeted)
  cleared-answer c (for_frontier _ h) r = inr refl
  cleared-answer c (for_owner _ h) r = inl refl
  cleared-answer c (for_operator _ h) r = absurd (omega arith)
  cleared-answer c (for_summary _ h) r = absurd (omega arith)
  cleared-answer c (for_commit _ h) r = absurd (omega arith)

approved_send :
    {s : ExternalSend} (o : Option ExternalSend)
    → o ≡ some s
    → s.requested ≡ true
    → IsApproved o
    → HasApproval s
approved_send {s} o e q a = elim (let x : IsApproved (some s) = subst IsApproved e a in x) [
  | inl quiet ↦ absurd (cc (quiet, q))
  | inr known ↦ known
]

send-rank :
    (p : AltitudePacket) (s : ExternalSend)
    → p.external_send ≡ some s
    → s.requested ≡ true
    → 3 ≤ system_rank p
send-rank p s e q = let sends : external_send_requested p ≡ true = ground arith in ground arith

-- A packet that asks for an external send is allowed only with its approval on record, and even
-- then the gate answers by asking the owner or the frontier model for a review.
pub run_policy_gate-external_send :
    (p : AltitudePacket) (options : PolicyGateOptions) (clock : GateClock) (s : ExternalSend)
    → p.external_send ≡ some s
    → s.requested ≡ true
    → (run_policy_gate p options clock).policy_gate_result.allowed ≡ true
    → let r = (run_policy_gate p options clock).policy_gate_result in
      HasApproval s
      × ((r.safe_next_action ≡ request_owner_approval)
          ⊎ (r.safe_next_action ≡ request_frontier_review))
run_policy_gate-external_send p options clock s e q h =
    let c = (run_policy_gate-allowed_iff p options clock).0 h in
    (
      approved_send p.external_send e q c.approved,
      cleared-answer c (run_policy_gate-Answers p options clock) (send-rank p s e q),
    )

by_sources :
    {P : Type 0} (passed : Bool)
    → ((passed ≡ true) ↔ P)
    → let status = if not passed then blocked_pending_source else ready_for_review in
      ((status ≡ blocked_pending_source) ↔ (¬ P)) × ((status ≡ ready_for_review) ↔ P)
by_sources true q = ((λ h. cc, λ n. absurd (n (q.0 refl))), (λ h. q.0 refl, λ h. refl))
by_sources false q = ((λ h g. cc (q.1 g), λ n. refl), (λ h. cc, λ g. cc (q.1 g)))

-- The status of a decision packet is blocked exactly when its sources are incomplete or its money
-- rests on model inference; otherwise it is ready for review.
pub run_policy_gate-status :
    (p : AltitudePacket) (options : PolicyGateOptions) (clock : GateClock)
    → let status = (run_policy_gate p options clock).status in
      ((status ≡ blocked_pending_source) ↔ (¬ HasSources p))
      × ((status ≡ ready_for_review) ↔ HasSources p)
unfolding run_policy_gate gate_result
run_policy_gate-status p options clock =
    let e = evaluate p options clock in
    let j = evaluate-IsJudged p options clock in
    rw (includes-fails e j.evaluation v7) (by_sources _ j.j7)
