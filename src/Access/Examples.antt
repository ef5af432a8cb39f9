-- ===== src/Access/Examples.antt =====
-- The permissions and the authority of src/permissions and src/authority on concrete requests.
use kerf_app.Common.{
  First, Member, any, arith, is_some, none, number_eq, refl, some, text_eq, true, ◌↔◌, ◌≡◌, ◌≢◌,
  ◌⊎◌,
}
use kerf_app.Common.Int.{pos}
use kerf_app.Access.Roles.{client, moo, office, owner, pm, role_eq, sub}
use kerf_app.Access.Permissions.{
  PermissionContext, PermissionRule, action_eq, actions_for, approve, can, change_order, delete,
  grants, margin, money, proposal, resource_eq, rules_for,
}
use kerf_app.Access.PermissionLaws.{IsGranted, IsUnderCeiling, actions_for_iff, can_iff}
use kerf_app.Access.Matrix.{default_matrix, owner_money_ceiling_cents}
use kerf_app.Access.MatrixLaws.{can-default_matrix}
use kerf_app.Access.Authority.{
  AuthorityBand, allowed, authority_resource_eq, can_authorize, denied, escalation_chain, get_band,
  money_authority, requires_escalation, schedule,
}
use kerf_app.Access.AuthorityLaws.{Authorizes, Covers, can_authorize-allowed_iff}
use kerf_app.Access.Profile.{default_authority_profile}
use kerf_app.Access.ProfileLaws.{
  approves, can_authorize-over_ceiling, default_authority_profile-total,
}

abbrev payment : PermissionContext
payment = record {
  actor = record { id = "u1"; role = owner };
  resource = money;
  action = approve;
  amount_cents = some (pos 150000);
  owner_id = none;
}

payment-allowed : can default_matrix payment ≡ true
unfolding can rules_for grants
payment-allowed = refl

can_iff_example : (can default_matrix payment ≡ true) ↔ IsGranted default_matrix payment
can_iff_example = can_iff default_matrix payment

actions_for_iff_example : Member approve (actions_for default_matrix payment.actor money) ↔ (
    (r : PermissionRule) × Member r default_matrix
    × (r.role ≡ owner)
    × (r.resource ≡ money)
    × Member approve r.actions)
actions_for_iff_example = actions_for_iff default_matrix payment.actor money approve

can-default_matrix_example :
    ((payment.resource ≢ margin) ⊎ (payment.actor.role ≡ owner) ⊎ (payment.actor.role ≡ moo))
    × ((payment.actor.role ≢ owner)
        ⊎ (payment.resource ≢ money)
        ⊎ IsUnderCeiling (some owner_money_ceiling_cents) payment.amount_cents)
    × ((payment.actor.role ≢ sub)
        ⊎ ((payment.resource ≡ change_order) × (payment.owner_id ≡ some payment.actor.id)))
    × ((payment.action ≢ approve)
        ⊎ (payment.actor.role ≡ owner)
        ⊎ ((payment.actor.role ≡ client) × (payment.resource ≡ proposal)))
    × (payment.action ≢ delete)
can-default_matrix_example = can-default_matrix payment payment-allowed

can_authorize-allowed_iff_example :
    (can_authorize default_authority_profile pm money_authority (some (pos 25000)) ≡ allowed) ↔ (
      (b : AuthorityBand) × First (Covers pm money_authority) b default_authority_profile.bands
      × Authorizes b (some (pos 25000)))
can_authorize-allowed_iff_example =
    can_authorize-allowed_iff default_authority_profile pm money_authority (some (pos 25000))

default_authority_profile-total_example :
    (is_some (get_band default_authority_profile office schedule) ≡ true)
    × ((can_authorize default_authority_profile office schedule none ≢ requires_escalation)
        ⊎ (any
              (λ r. approves (get_band default_authority_profile r schedule))
              (escalation_chain default_authority_profile office schedule)
            ≡ true))
default_authority_profile-total_example = default_authority_profile-total office schedule none

can_authorize-over_ceiling_example :
    can_authorize default_authority_profile owner money_authority (some (pos 200001)) ≡ denied
can_authorize-over_ceiling_example = can_authorize-over_ceiling owner (pos 200001) (omega arith)
