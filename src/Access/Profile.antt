-- ===== src/Access/Profile.antt =====
-- src/authority/profile.ts: the default profile of a tenant.
use kerf_app.Common.{List, Option, [], none, some, ◌∷◌}
use kerf_app.Common.Int.{pos, ℤ}
use kerf_app.Access.Roles.{Role, client, field_super, moo, office, owner, pm, sub}
use kerf_app.Access.Matrix.{owner_money_ceiling_cents}
use kerf_app.Access.Authority.{
  AuthorityActionClass, AuthorityBand, AuthorityProfile, AuthorityResource, approve_any,
  approve_under_ceiling, client_share, compliance, employment, money_authority, observe, recommend,
  schedule, scope, subcontractor,
}

abbrev pub band :
    Role → AuthorityResource → AuthorityActionClass → Option ℤ → Option (List Role) → AuthorityBand
band role resource action_class most chain = record {
  role = role;
  resource = resource;
  action_class = action_class;
  max_amount_cents = most;
  can_escalate_to = chain;
}

abbrev pub default_authority_profile : AuthorityProfile
default_authority_profile = record {
  tenant_id = none;
  bands =
      band owner money_authority approve_under_ceiling (some owner_money_ceiling_cents) none
      ∷ band owner scope approve_any none none
      ∷ band owner schedule approve_any none none
      ∷ band owner subcontractor approve_any none none
      ∷ band owner client_share approve_any none none
      ∷ band owner compliance approve_any none none
      ∷ band owner employment approve_any none none
      ∷ band moo money_authority approve_under_ceiling (some (pos 100000)) (some (owner ∷ []))
      ∷ band moo scope approve_under_ceiling (some (pos 50000)) (some (owner ∷ []))
      ∷ band moo schedule approve_any none none
      ∷ band moo subcontractor approve_any none none
      ∷ band moo client_share approve_any none none
      ∷ band moo compliance recommend none (some (owner ∷ []))
      ∷ band moo employment recommend none (some (owner ∷ []))
      ∷ band pm money_authority approve_under_ceiling (some (pos 25000)) (some (moo ∷ owner ∷ []))
      ∷ band pm scope recommend none (some (moo ∷ owner ∷ []))
      ∷ band pm schedule approve_any none none
      ∷ band pm subcontractor recommend none (some (moo ∷ owner ∷ []))
      ∷ band pm client_share approve_any none none
      ∷ band pm compliance observe none none
      ∷ band pm employment observe none none
      ∷ band field_super money_authority recommend none (some (pm ∷ moo ∷ owner ∷ []))
      ∷ band field_super scope recommend none (some (pm ∷ moo ∷ owner ∷ []))
      ∷ band field_super schedule recommend none (some (pm ∷ moo ∷ owner ∷ []))
      ∷ band field_super subcontractor observe none none
      ∷ band field_super client_share observe none none
      ∷ band field_super compliance observe none none
      ∷ band field_super employment observe none none
      ∷ band office money_authority recommend none (some (owner ∷ moo ∷ []))
      ∷ band office scope observe none none
      ∷ band office schedule recommend none (some (pm ∷ []))
      ∷ band office subcontractor observe none none
      ∷ band office client_share recommend none (some (pm ∷ owner ∷ []))
      ∷ band office compliance observe none none
      ∷ band office employment observe none none
      ∷ band sub money_authority observe none none
      ∷ band sub scope observe none none
      ∷ band sub schedule observe none none
      ∷ band sub subcontractor observe none none
      ∷ band sub client_share observe none none
      ∷ band sub compliance observe none none
      ∷ band sub employment observe none none
      ∷ band client money_authority observe none none
      ∷ band client scope observe none none
      ∷ band client schedule observe none none
      ∷ band client subcontractor observe none none
      ∷ band client client_share approve_any none none
      ∷ band client compliance observe none none
      ∷ band client employment observe none none
      ∷ [];
  version = "2026-04-27.0";
}
