-- ===== src/Access/Permissions.antt =====
-- src/permissions/types.ts and provider.ts: rules, and the evaluator over a matrix of them.
use kerf_app.Common.{
  Bool, HasEq, List, Option, String, [], any, arith, false, if◌then◌else◌, includes, index_eq, keep,
  none, not, number_eq, some, text_eq, true, ℕ, ◌&&◌, ◌++◌, ◌==◌, ◌∷◌, ◌≡◌,
}
use kerf_app.Common.Int.{ltb_ℤ, ℤ}
use kerf_app.Access.Roles.{Actor, Role, role_eq}

pub data Resource : Type 0 where
  project intake change_order proposal money margin consent memory approval : Resource

pub data Action : Type 0 where
  view create edit approve lock delete : Action

abbrev pub resource_index : Resource → ℕ
resource_index project = 0
resource_index intake = 1
resource_index change_order = 2
resource_index proposal = 3
resource_index money = 4
resource_index margin = 5
resource_index consent = 6
resource_index memory = 7
resource_index approval = 8

pub resource_index_injective : (a b : Resource) → resource_index a ≡ resource_index b → a ≡ b
resource_index_injective a b h = ground arith

instance abbrev pub resource_eq : HasEq Resource
resource_eq = index_eq resource_index resource_index_injective

abbrev pub action_index : Action → ℕ
action_index view = 0
action_index create = 1
action_index edit = 2
action_index approve = 3
action_index lock = 4
action_index delete = 5

pub action_index_injective : (a b : Action) → action_index a ≡ action_index b → a ≡ b
action_index_injective a b h = ground arith

instance abbrev pub action_eq : HasEq Action
action_eq = index_eq action_index action_index_injective

-- A rule without conditions has neither of the two.
pub record PermissionRule : Type 0 where
  pub role : Role
  pub resource : Resource
  pub actions : List Action
  pub max_amount_cents : Option ℤ
  pub own_resource_only : Bool

pub record PermissionContext : Type 0 where
  pub actor : Actor
  pub resource : Resource
  pub action : Action
  pub amount_cents : Option ℤ
  pub owner_id : Option String

abbrev pub over_ceiling : Option ℤ → Option ℤ → Bool
over_ceiling (some ceiling) (some amount) = ltb_ℤ ceiling amount
over_ceiling _ _ = false

abbrev pub is_other : Option String → String → Bool
is_other none id = true
is_other (some o) id = not (o == id)

-- `rulesFor`
unfoldable pub rules_for : List PermissionRule → Actor → Resource → List PermissionRule
rules_for matrix actor resource =
    keep (λ (r : PermissionRule). r.role == actor.role && r.resource == resource) matrix

-- The body of the loop of `can`: whether the rule grants, or the loop goes on.
unfoldable pub grants : PermissionRule → PermissionContext → Bool
grants rule ctx =
    if not (includes rule.actions ctx.action)
    then false
    else if over_ceiling rule.max_amount_cents ctx.amount_cents
    then false
    else if rule.own_resource_only && is_other ctx.owner_id ctx.actor.id
    then false
    else true

unfoldable pub can : List PermissionRule → PermissionContext → Bool
unfolding rules_for grants
can matrix ctx = any (λ r. grants r ctx) (rules_for matrix ctx.actor ctx.resource)

-- `seen.add(action)`, in the order of insertion
unfoldable pub add_action : Action → List Action → List Action
add_action a seen = if includes seen a then seen else seen ++ a ∷ []

unfoldable pub add_actions : List Action → List Action → List Action
add_actions [] seen = seen
add_actions (a ∷ rest) seen = add_actions rest (add_action a seen)

unfoldable pub collect_actions : List PermissionRule → List Action → List Action
collect_actions [] seen = seen
collect_actions (r ∷ rest) seen = collect_actions rest (add_actions r.actions seen)

unfoldable pub actions_for : List PermissionRule → Actor → Resource → List Action
unfolding rules_for collect_actions add_actions add_action
actions_for matrix actor resource = collect_actions (rules_for matrix actor resource) []

-- The resource and the owner of an item are given by functions.
unfoldable pub filter_items {ℓ} :
    {T : Type ℓ}
    → List PermissionRule
    → Actor
    → (T → Resource)
    → (T → Option String)
    → List T
    → List T
filter_items matrix actor get_resource get_owner items =
    keep
      (λ t. can matrix (record {
        actor = actor;
        resource = get_resource t;
        action = view;
        amount_cents = none;
        owner_id = get_owner t;
      }))
      items
