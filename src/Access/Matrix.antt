-- ===== src/Access/Matrix.antt =====
-- src/permissions/matrix.ts: the default matrix of permissions.
use kerf_app.Common.{List, [], false, none, some, true, ◌∷◌}
use kerf_app.Common.Int.{pos, ℤ}
use kerf_app.Access.Roles.{Role, client, field_super, moo, office, owner, pm, sub}
use kerf_app.Access.Permissions.{
  Action, PermissionRule, Resource, approval, approve, change_order, consent, create, edit, intake,
  lock, margin, memory, money, project, proposal, view,
}

abbrev pub owner_money_ceiling_cents : ℤ
owner_money_ceiling_cents = pos 200000

-- A rule without conditions, with the ceiling of the owner, and for one's own items only.
abbrev pub rule : Role → Resource → List Action → PermissionRule
rule role resource actions = record {
  role = role;
  resource = resource;
  actions = actions;
  max_amount_cents = none;
  own_resource_only = false;
}

abbrev pub capped : Role → Resource → List Action → PermissionRule
capped role resource actions = record {
  role = role;
  resource = resource;
  actions = actions;
  max_amount_cents = some owner_money_ceiling_cents;
  own_resource_only = false;
}

abbrev pub own_only : Role → Resource → List Action → PermissionRule
own_only role resource actions = record {
  role = role;
  resource = resource;
  actions = actions;
  max_amount_cents = none;
  own_resource_only = true;
}

abbrev pub default_matrix : List PermissionRule
default_matrix =
    rule owner project (view ∷ create ∷ edit ∷ lock ∷ [])
    ∷ rule owner intake (view ∷ create ∷ edit ∷ [])
    ∷ rule owner change_order (view ∷ create ∷ edit ∷ approve ∷ [])
    ∷ rule owner proposal (view ∷ create ∷ edit ∷ approve ∷ lock ∷ [])
    ∷ capped owner money (view ∷ create ∷ approve ∷ [])
    ∷ rule owner margin (view ∷ edit ∷ [])
    ∷ rule owner consent (view ∷ create ∷ [])
    ∷ rule owner memory (view ∷ create ∷ edit ∷ [])
    ∷ rule owner approval (view ∷ create ∷ approve ∷ [])
    ∷ rule moo project (view ∷ create ∷ edit ∷ [])
    ∷ rule moo intake (view ∷ create ∷ edit ∷ [])
    ∷ rule moo change_order (view ∷ create ∷ edit ∷ [])
    ∷ rule moo proposal (view ∷ create ∷ edit ∷ [])
    ∷ rule moo money (view ∷ create ∷ [])
    ∷ rule moo margin (view ∷ [])
    ∷ rule moo consent (view ∷ create ∷ [])
    ∷ rule moo memory (view ∷ create ∷ [])
    ∷ rule moo approval (view ∷ create ∷ [])
    ∷ rule pm project (view ∷ edit ∷ [])
    ∷ rule pm intake (view ∷ create ∷ [])
    ∷ rule pm change_order (view ∷ create ∷ edit ∷ [])
    ∷ rule pm proposal (view ∷ [])
    ∷ rule pm money (view ∷ [])
    ∷ rule pm consent (view ∷ create ∷ [])
    ∷ rule pm memory (view ∷ [])
    ∷ rule pm approval (view ∷ create ∷ [])
    ∷ rule field_super project (view ∷ [])
    ∷ rule field_super intake (view ∷ create ∷ [])
    ∷ rule field_super change_order (create ∷ [])
    ∷ rule field_super consent (view ∷ create ∷ [])
    ∷ rule office project (view ∷ [])
    ∷ rule office money (view ∷ [])
    ∷ rule office consent (view ∷ [])
    ∷ rule office memory (view ∷ [])
    ∷ own_only sub change_order (view ∷ create ∷ [])
    ∷ rule client project (view ∷ [])
    ∷ rule client proposal (view ∷ approve ∷ [])
    ∷ []
