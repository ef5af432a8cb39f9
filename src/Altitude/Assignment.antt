-- ===== src/Altitude/Assignment.antt =====
-- What src/altitude/gate.ts guarantees of an assigned altitude.
use kerf_app.Common.{[], arith, if◌then◌else◌, max, ℕ, ◌<◌, ◌||◌, ◌∷◌, ◌≡◌}
use kerf_app.Altitude.Types.{
  AltitudeLevel, AltitudePacket, DivergenceClass, match, model_overcaution, model_undercaution,
}
use kerf_app.Altitude.Levels.{
  action_baseline, altitude_rank, assign_altitude, classify_divergence, derive_escalation_floor,
  derive_system_baseline_altitude, external_send_requested, is_money_mutation, max_altitude,
  requires_two_party_consent, workflow_baseline,
}

pub altitude_rank_injective : (a b : AltitudeLevel) → altitude_rank a ≡ altitude_rank b → a ≡ b
altitude_rank_injective a b h = ground arith

rank-max_altitude :
    (a b : AltitudeLevel)
    → altitude_rank (max_altitude (a ∷ b ∷ [])) ≡ max (altitude_rank a) (altitude_rank b)
unfolding max_altitude
rank-max_altitude a b = ground arith

-- The floor that the three escalation rules give: 4 where a recording lacks the consent that its
-- jurisdiction asks for, otherwise 3 for an external send or a money mutation, otherwise 0.
abbrev pub floor_rank : AltitudePacket → ℕ
floor_rank p =
    if requires_two_party_consent p
    then 4
    else if external_send_requested p || is_money_mutation p
    then 3
    else 0

rank-escalation_floor :
    (p : AltitudePacket) → altitude_rank (derive_escalation_floor p).escalation_floor ≡ floor_rank p
unfolding derive_escalation_floor max_altitude
rank-escalation_floor p = ground arith

rank-system_baseline :
    (p : AltitudePacket)
    → altitude_rank (derive_system_baseline_altitude p).system_baseline_altitude
      ≡ max
          (altitude_rank (workflow_baseline p.workflow))
          (altitude_rank (action_baseline p.proposed_action.type))
unfolding derive_system_baseline_altitude
rank-system_baseline p = rank-max_altitude _ _

-- What a divergence class says of the two altitudes that it compares.
abbrev pub Diverges : AltitudeLevel → AltitudeLevel → DivergenceClass → Type 0
Diverges model system match = model ≡ system
Diverges model system model_overcaution = altitude_rank system < altitude_rank model
Diverges model system model_undercaution = altitude_rank model < altitude_rank system

classify_divergence-Diverges :
    (model system : AltitudeLevel) → Diverges model system (classify_divergence model system)
unfolding classify_divergence
classify_divergence-Diverges model system = ground arith

-- The altitude that the system assigns: the highest of the workflow's baseline, the action's
-- baseline and the escalation floor.
abbrev pub system_rank : AltitudePacket → ℕ
system_rank p =
    max
      (max (altitude_rank (workflow_baseline p.workflow))
        (altitude_rank (action_baseline p.proposed_action.type)))
      (floor_rank p)

pub assign_altitude-rank :
    (p : AltitudePacket) → altitude_rank (assign_altitude p).system_final_altitude ≡ system_rank p
unfolding assign_altitude
assign_altitude-rank p =
    omega (arith, rank-max_altitude, rank-system_baseline p, rank-escalation_floor p)

-- Whatever altitude the model suggests, the altitude that the system assigns is the highest of
-- the workflow's baseline, the action's baseline and the escalation floor, and the divergence class
-- says how the suggestion compares with it.
pub assign_altitude_ignores_model :
    (p : AltitudePacket) (suggested : AltitudeLevel)
    → let r = assign_altitude (record p { model_suggested_altitude = suggested }) in
      (altitude_rank r.system_final_altitude ≡ system_rank p)
      × Diverges suggested r.system_final_altitude r.divergence_class
unfolding assign_altitude is_money_mutation requires_two_party_consent
assign_altitude_ignores_model p suggested = (
  assign_altitude-rank (record p { model_suggested_altitude = suggested }),
  classify_divergence-Diverges suggested _,
)
