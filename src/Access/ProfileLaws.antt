-- ===== src/Access/ProfileLaws.antt =====
-- What the default profile of src/authority/profile.ts lets the roles decide.
use kerf_app.Common.{
  Bool, List, Member, Option, [], all, all-Member, and_split, any, arith, false, if◌then◌else◌, inl,
  inr, is_empty, is_some, none, number_eq, refl, some, text_eq, true, ◌&&◌, ◌==◌, ◌||◌, ◌∷◌, ◌≡◌,
  ◌≢◌, ◌⊎◌,
}
use kerf_app.Common.Int.{ℤ, ◌<ℤ◌}
use kerf_app.Access.Roles.{Role, client, field_super, moo, office, owner, pm, role_eq, sub}
use kerf_app.Access.Matrix.{owner_money_ceiling_cents}
use kerf_app.Access.Authority.{
  AuthorityActionClass, AuthorityBand, AuthorityResource, AuthorizationOutcome, allowed,
  approve_any, approve_under_ceiling, authority_resource_eq, can_authorize, chain_of, client_share,
  compliance, denied, employment, escalation_chain, get_band, money_authority, requires_escalation,
  schedule, scope, subcontractor,
}
use kerf_app.Access.AuthorityLaws.{can_authorize-escalation}
use kerf_app.Access.Profile.{default_authority_profile}

-- The roles and the resources, in the order of the source.
abbrev roles : List Role
roles = owner ∷ moo ∷ pm ∷ field_super ∷ office ∷ sub ∷ client ∷ []

abbrev pub authority_resources : List AuthorityResource
authority_resources =
    money_authority ∷ scope ∷ schedule ∷ subcontractor ∷ client_share ∷ compliance ∷ employment ∷ []

abbrev approves_class : AuthorityActionClass → Bool
approves_class approve_any = true
approves_class approve_under_ceiling = true
approves_class _ = false

abbrev pub approves : Option AuthorityBand → Bool
approves none = false
approves (some b) = approves_class b.action_class

-- The tests of the profile, for a role and a resource.
abbrev chain_test : Role → AuthorityResource → Bool
chain_test role resource =
    let chain = chain_of (get_band default_authority_profile role resource) in
    is_some (get_band default_authority_profile role resource)
    && (is_empty chain || any (λ r. approves (get_band default_authority_profile r resource)) chain)

chain-all : all (λ r. all (chain_test r) authority_resources) roles ≡ true
unfolding get_band
chain-all = refl

role-listed : (r : Role) → Member r roles
role-listed r = ground arith

resource-listed : (s : AuthorityResource) → Member s authority_resources
resource-listed s = ground arith

chain-tested : (r : Role) (s : AuthorityResource) → chain_test r s ≡ true
chain-tested r s =
    all-Member (chain_test r) s authority_resources
      (all-Member (λ r. all (chain_test r) authority_resources) r roles chain-all (role-listed r))
      (resource-listed s)

nonempty_chain :
    (chain : List Role) (b c : Bool) → (b && (is_empty chain || c)) ≡ true → chain ≢ [] → c ≡ true
nonempty_chain [] b c h n = absurd (n refl)
nonempty_chain (r ∷ rest) b c h n = ground arith

unless_escalated :
    {P : Type 0} (o : AuthorizationOutcome)
    → (o ≡ requires_escalation → P)
    → (o ≢ requires_escalation) ⊎ P
unless_escalated allowed f = inl (λ e. cc)
unless_escalated denied f = inl (λ e. cc)
unless_escalated requires_escalation f = inr (f refl)

-- The default profile has a band for every role and resource, and whenever a decision has to be
-- escalated under it, some role on the chain has a band that approves by itself, at any amount or
-- up to a ceiling.
pub default_authority_profile-total :
    (role : Role) (resource : AuthorityResource) (amount : Option ℤ)
    → (is_some (get_band default_authority_profile role resource) ≡ true)
      × ((can_authorize default_authority_profile role resource amount ≢ requires_escalation)
          ⊎ (any
                (λ r. approves (get_band default_authority_profile r resource))
                (escalation_chain default_authority_profile role resource)
              ≡ true))
unfolding escalation_chain
default_authority_profile-total role resource amount =
    let test = chain-tested role resource in
    (
      (and_split _ _ test).0,
      unless_escalated (can_authorize default_authority_profile role resource amount) (λ h.
          nonempty_chain (escalation_chain default_authority_profile role resource) _ _ test
            (can_authorize-escalation default_authority_profile role resource amount h)),
    )

-- Under the default profile no role may decide about an amount of money over the ceiling of the
-- owner: the owner, the subcontractors and the clients are denied it, and the others escalate it.
pub can_authorize-over_ceiling :
    (role : Role) (a : ℤ)
    → owner_money_ceiling_cents <ℤ a
    → can_authorize default_authority_profile role money_authority (some a)
      ≡ (if role == owner || role == sub || role == client then denied else requires_escalation)
unfolding get_band can_authorize
can_authorize-over_ceiling owner a h = ground arith
can_authorize-over_ceiling moo a h = ground arith
can_authorize-over_ceiling pm a h = ground arith
can_authorize-over_ceiling field_super a h = ground arith
can_authorize-over_ceiling office a h = ground arith
can_authorize-over_ceiling sub a h = ground arith
can_authorize-over_ceiling client a h = ground arith
