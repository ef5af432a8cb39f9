-- ===== src/Access/Authority.antt =====
-- src/authority/types.ts and profile.ts: who may decide what, up to which amount.
use kerf_app.Common.{
  HasEq, List, Option, String, [], arith, find, if◌then◌else◌, index_eq, none, number_eq, or_else,
  some, text_eq, ℕ, ◌&&◌, ◌==◌, ◌∷◌, ◌≡◌,
}
use kerf_app.Common.Int.{leb_ℤ, ltb_ℤ, pos, ℤ}
use kerf_app.Access.Roles.{Role, role_eq}

-- `money` is `money_authority` here, since the permissions have a resource `money`.
pub data AuthorityResource : Type 0 where
  money_authority scope schedule subcontractor client_share : AuthorityResource
  compliance employment : AuthorityResource

pub data AuthorityActionClass : Type 0 where
  observe recommend approve_under_ceiling approve_any delegate : AuthorityActionClass

pub data AuthorizationOutcome : Type 0 where
  allowed requires_escalation denied : AuthorizationOutcome

abbrev pub authority_resource_index : AuthorityResource → ℕ
authority_resource_index money_authority = 0
authority_resource_index scope = 1
authority_resource_index schedule = 2
authority_resource_index subcontractor = 3
authority_resource_index client_share = 4
authority_resource_index compliance = 5
authority_resource_index employment = 6

pub authority_resource_injective :
    (a b : AuthorityResource) → authority_resource_index a ≡ authority_resource_index b → a ≡ b
authority_resource_injective a b h = ground arith

instance abbrev pub authority_resource_eq : HasEq AuthorityResource
authority_resource_eq = index_eq authority_resource_index authority_resource_injective

pub record AuthorityBand : Type 0 where
  pub role : Role
  pub resource : AuthorityResource
  pub action_class : AuthorityActionClass
  pub max_amount_cents : Option ℤ
  pub can_escalate_to : Option (List Role)

pub record AuthorityProfile : Type 0 where
  pub tenant_id : Option String
  pub bands : List AuthorityBand
  pub version : String

unfoldable pub get_band : AuthorityProfile → Role → AuthorityResource → Option AuthorityBand
get_band profile role resource =
    find (λ (b : AuthorityBand). b.role == role && b.resource == resource) profile.bands

abbrev pub escalate_or_deny : Option (List Role) → AuthorizationOutcome
escalate_or_deny none = denied
escalate_or_deny (some []) = denied
escalate_or_deny (some (r ∷ rest)) = requires_escalation

-- The last two tests of the band with a ceiling.
abbrev pub under_ceiling : Option ℤ → Option (List Role) → ℤ → AuthorizationOutcome
under_ceiling none chain amount = escalate_or_deny chain
under_ceiling (some most) chain amount =
    if leb_ℤ amount most then allowed else escalate_or_deny chain

-- The case of `approve_under_ceiling`.
abbrev pub decide_amount : Option ℤ → Option (List Role) → Option ℤ → AuthorizationOutcome
decide_amount most chain none = denied
decide_amount most chain (some amount) =
    if ltb_ℤ amount (pos 0) then denied else under_ceiling most chain amount

-- The `switch` on the class of the band.
abbrev pub decide_class :
    AuthorityActionClass → Option ℤ → Option (List Role) → Option ℤ → AuthorizationOutcome
decide_class observe most chain amount = denied
decide_class recommend most chain amount = escalate_or_deny chain
decide_class approve_any most chain amount = allowed
decide_class delegate most chain amount = escalate_or_deny chain
decide_class approve_under_ceiling most chain amount = decide_amount most chain amount

-- `canAuthorize`, from the band that was found.
abbrev pub decide_band : Option AuthorityBand → Option ℤ → AuthorizationOutcome
decide_band none amount = denied
decide_band (some b) amount =
    decide_class b.action_class b.max_amount_cents b.can_escalate_to amount

unfoldable pub can_authorize :
    AuthorityProfile → Role → AuthorityResource → Option ℤ → AuthorizationOutcome
can_authorize profile role resource amount = decide_band (get_band profile role resource) amount

abbrev pub chain_of : Option AuthorityBand → List Role
chain_of none = []
chain_of (some b) = or_else b.can_escalate_to []

unfoldable pub escalation_chain : AuthorityProfile → Role → AuthorityResource → List Role
escalation_chain profile role resource = chain_of (get_band profile role resource)
