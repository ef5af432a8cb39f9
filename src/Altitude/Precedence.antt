-- ===== src/Altitude/Precedence.antt =====
-- The answers that the gate of src/altitude/gate.ts may give, and when each of them is the one.
use kerf_app.Common.{Bool, arith, false, if◌then◌else◌, not, refl, true, ◌||◌, ◌↔◌, ◌≡◌}
use kerf_app.Altitude.Types.{
  AltitudePacket, SafeNextAction, allow_commit, allow_internal_summary, block_external_send,
  block_pricing_use, block_promotion, block_recording, block_role_visibility, block_token_budget,
  block_with_remediation, request_frontier_review, request_human_review, request_owner_approval,
}
use kerf_app.Altitude.Assignment.{system_rank}
use kerf_app.Altitude.Verdicts.{
  HasConsent, HasSignalBasis, HasSources, IsApproved, IsLabelled, IsPriced, IsRedacted,
  IsWithinBudget,
}
use kerf_app.Altitude.Gate.{evaluate, evaluated_at_of, role_visibility_of, token_budget_of}
use kerf_app.Altitude.GateTypes.{GateClock, PolicyGateOptions}
use kerf_app.Altitude.GateLaws.{IsCleared, IsTimed}
use kerf_app.Altitude.Judgement.{IsUnderCap}

module _ (p : AltitudePacket) (options : PolicyGateOptions) (clock : GateClock) where
  abbrev pub IsSignalled : Type 0
  IsSignalled = HasSignalBasis p (evaluated_at_of options clock) (evaluate p options clock).drafts

  -- What comes before the labels is met.
  abbrev pub IsBased : Type 0
  IsBased =
      HasConsent p
      × IsApproved p.external_send
      × IsPriced p
      × IsRedacted p (role_visibility_of options)
      × HasSources p

  -- The answers, in the order of their precedence. Each constructor but the last five is a refusal:
  -- it names the first requirement that fails, with those before it met.
  pub data Answers : SafeNextAction → Type 0 where
    unconsented : ¬ HasConsent p → Answers block_recording
    unapproved : HasConsent p → ¬ IsApproved p.external_send → Answers block_external_send
    unpriced : HasConsent p → IsApproved p.external_send → ¬ IsPriced p → Answers block_pricing_use
    exposed :
        HasConsent p
        → IsApproved p.external_send
        → IsPriced p
        → ¬ IsRedacted p (role_visibility_of options)
        → Answers block_role_visibility
    unsourced :
        HasConsent p
        → IsApproved p.external_send
        → IsPriced p
        → IsRedacted p (role_visibility_of options)
        → ¬ HasSources p
        → Answers block_promotion
    unlabelled : IsBased → ¬ IsLabelled p → Answers request_human_review
    unsignalled : IsBased → IsLabelled p → ¬ IsSignalled → Answers request_human_review
    over_cap :
        IsBased → IsLabelled p → IsSignalled → ¬ IsUnderCap p options → Answers block_token_budget
    mistimed :
        IsBased
        → IsLabelled p
        → IsSignalled
        → IsUnderCap p options
        → ¬ IsTimed clock
        → Answers request_human_review
    uncompacted :
        IsBased
        → IsLabelled p
        → IsSignalled
        → IsUnderCap p options
        → IsTimed clock
        → ¬ IsWithinBudget p (token_budget_of options)
        → Answers block_with_remediation
    for_frontier : IsCleared p options clock → system_rank p ≡ 4 → Answers request_frontier_review
    for_owner : IsCleared p options clock → system_rank p ≡ 3 → Answers request_owner_approval
    for_operator : IsCleared p options clock → system_rank p ≡ 2 → Answers request_human_review
    for_summary : IsCleared p options clock → system_rank p ≡ 1 → Answers allow_internal_summary
    for_commit : IsCleared p options clock → system_rank p ≡ 0 → Answers allow_commit

pub or_split : (a b : Bool) → (a || b) ≡ false → (a ≡ false) × (b ≡ false)
or_split a b h = ground arith

-- Nine tests of which none holds.
pub none_fail :
    (a b c d e f g h i : Bool)
    → (a || b || c || d || e || f || g || h || i) ≡ false
    → (a ≡ false)
      × (b ≡ false)
      × (c ≡ false)
      × (d ≡ false)
      × (e ≡ false)
      × (f ≡ false)
      × (g ≡ false)
      × (h ≡ false)
      × (i ≡ false)
none_fail a b c d e f g h i z =
    let (z, zi) = or_split _ _ z in
    let (z, zh) = or_split _ _ z in
    let (z, zg) = or_split _ _ z in
    let (z, zf) = or_split _ _ z in
    let (z, ze) = or_split _ _ z in
    let (z, zd) = or_split _ _ z in
    let (z, zc) = or_split _ _ z in
    let (za, zb) = or_split _ _ z in (za, zb, zc, zd, ze, zf, zg, zh, zi)

pub met : {P : Type 0} (passed : Bool) → ((passed ≡ true) ↔ P) → not passed ≡ false → P
met true q h = q.0 refl
met false q h = cc

pub unmet : {P : Type 0} (passed : Bool) → ((passed ≡ true) ↔ P) → not passed ≡ true → ¬ P
unmet true q h g = cc
unmet false q h g = cc (q.1 g)

pub pick {ℓ} :
    {A : Type 0} (P : A → Type ℓ) (test : Bool) (x y : A)
    → (test ≡ true → P x)
    → (test ≡ false → P y)
    → P (if test then x else y)
pick P true x y h k = h refl
pick P false x y h k = k refl
