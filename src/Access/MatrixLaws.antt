-- ===== src/Access/MatrixLaws.antt =====
-- What the default matrix of src/permissions/matrix.ts grants to whom.
use mathlib.Core.Path.{ap₂}
use kerf_app.Common.{
  Bool, Member, Member→includes, Option, all, all-Member, and_split, ap, arith, false, includes,
  inl, inr, none, not, number_eq, refl, some, subst, sym, text_eq, true, unless, ◌&&◌, ◌==◌, ◌||◌,
  ◌∙◌, ◌≡◌, ◌≢◌, ◌⊎◌,
}
use kerf_app.Common.Int.{leb_ℤ, ℤ}
use kerf_app.Access.Roles.{Role, client, moo, owner, role_eq, sub}
use kerf_app.Access.Permissions.{
  Action, PermissionContext, PermissionRule, Resource, action_eq, approve, can, change_order,
  delete, margin, money, proposal, resource_eq,
}
use kerf_app.Access.PermissionLaws.{IsGranted, IsUnderCeiling, can_iff}
use kerf_app.Access.Matrix.{default_matrix, owner_money_ceiling_cents}

abbrev implies : Bool → Bool → Bool
implies a b = not a || b

abbrev is_capped : Option ℤ → Bool
is_capped none = false
is_capped (some c) = leb_ℤ c owner_money_ceiling_cents

-- The tests that every rule of the matrix passes.
abbrev margin_test : PermissionRule → Bool
margin_test r = implies (r.resource == margin) (r.role == owner || r.role == moo)

abbrev owner_test : PermissionRule → Bool
owner_test r = implies (r.role == owner && r.resource == money) (is_capped r.max_amount_cents)

abbrev sub_test : PermissionRule → Bool
sub_test r = implies (r.role == sub) (r.resource == change_order && r.own_resource_only)

abbrev approve_test : PermissionRule → Bool
approve_test r =
    implies (includes r.actions approve)
      (r.role == owner || (r.role == client && r.resource == proposal))

abbrev delete_test : PermissionRule → Bool
delete_test r = not (includes r.actions delete)

margin-all : all margin_test default_matrix ≡ true
margin-all = refl

owner-all : all owner_test default_matrix ≡ true
owner-all = refl

sub-all : all sub_test default_matrix ≡ true
sub-all = refl

approve-all : all approve_test default_matrix ≡ true
approve-all = refl

delete-all : all delete_test default_matrix ≡ true
delete-all = refl

modus : (a b : Bool) → implies a b ≡ true → a ≡ true → b ≡ true
modus a b h t = ground arith

either : (a b : Bool) → (a || b) ≡ true → (a ≡ true) ⊎ (b ≡ true)
either a b h = ground arith

capped_lem :
    (ceiling amount : Option ℤ)
    → is_capped ceiling ≡ true
    → IsUnderCeiling ceiling amount
    → IsUnderCeiling (some owner_money_ceiling_cents) amount
capped_lem none amount h u = cc
capped_lem (some c) none h u = tt
capped_lem (some c) (some b) h u = ground arith

-- The rule that grants passes each test of the whole matrix, and its role and resource are those
-- of the context.
module _ {ctx : PermissionContext} (g : IsGranted default_matrix ctx) where
  tested : (t : PermissionRule → Bool) → all t default_matrix ≡ true → t g.rule ≡ true
  tested t h = all-Member t g.rule default_matrix h g.listed

  its_role : (x : Role) → (g.rule.role == x) ≡ true → ctx.actor.role ≡ x
  its_role x h = sym g.grant.0 ∙ (role_eq.eqb_iff g.rule.role x).0 h

  is_role : (x : Role) → ctx.actor.role ≡ x → (g.rule.role == x) ≡ true
  is_role x h = (role_eq.eqb_iff g.rule.role x).1 (g.grant.0 ∙ h)

  its_resource : (x : Resource) → (g.rule.resource == x) ≡ true → ctx.resource ≡ x
  its_resource x h = sym g.grant.1 ∙ (resource_eq.eqb_iff g.rule.resource x).0 h

  is_resource : (x : Resource) → ctx.resource ≡ x → (g.rule.resource == x) ≡ true
  is_resource x h = (resource_eq.eqb_iff g.rule.resource x).1 (g.grant.1 ∙ h)

  is_action : (x : Action) → ctx.action ≡ x → includes g.rule.actions x ≡ true
  is_action x h =
      Member→includes g.rule.actions x (subst (λ a. Member a g.rule.actions) h g.grant.2)

  granted-margin : ctx.resource ≡ margin → (ctx.actor.role ≡ owner) ⊎ (ctx.actor.role ≡ moo)
  granted-margin e =
      elim (either _ _ (modus _ _ (tested margin_test margin-all) (is_resource margin e))) [
        | inl h ↦ inl (its_role owner h)
        | inr h ↦ inr (its_role moo h)
      ]

  granted-money :
      ctx.actor.role ≡ owner
      → ctx.resource ≡ money
      → IsUnderCeiling (some owner_money_ceiling_cents) ctx.amount_cents
  granted-money er es =
      let both = ap₂ (λ a b. a && b) (is_role owner er) (is_resource money es) in
      let cap = modus _ _ (tested owner_test owner-all) both in
      capped_lem g.rule.max_amount_cents ctx.amount_cents cap g.grant.3

  granted-sub :
      ctx.actor.role ≡ sub → (ctx.resource ≡ change_order) × (ctx.owner_id ≡ some ctx.actor.id)
  granted-sub e =
      let (es, only) = and_split _ _ (modus _ _ (tested sub_test sub-all) (is_role sub e)) in
      (
        its_resource change_order es,
        elim g.grant.4 [ inl no_limit ↦ absurd (cc (no_limit, only)) | inr own ↦ own ],
      )

  granted-approve :
      ctx.action ≡ approve
      → (ctx.actor.role ≡ owner) ⊎ ((ctx.actor.role ≡ client) × (ctx.resource ≡ proposal))
  granted-approve e =
      elim (either _ _ (modus _ _ (tested approve_test approve-all) (is_action approve e))) [
        | inl h ↦ inl (its_role owner h)
        | inr h ↦
            let (er, es) = and_split _ _ h in inr (its_role client er, its_resource proposal es)
      ]

  granted-delete : ctx.action ≢ delete
  granted-delete e = let t = tested delete_test delete-all in cc (ap not (is_action delete e), t)

-- What the default matrix allows: margins only to the owner and the manager of operations; to the
-- owner no given amount of money over the ceiling; to a subcontractor nothing but change orders of
-- its own; an approval only to the owner, or to the client on a proposal; and a deletion to nobody.
pub can-default_matrix :
    (ctx : PermissionContext)
    → can default_matrix ctx ≡ true
    → ((ctx.resource ≢ margin) ⊎ (ctx.actor.role ≡ owner) ⊎ (ctx.actor.role ≡ moo))
      × ((ctx.actor.role ≢ owner)
          ⊎ (ctx.resource ≢ money)
          ⊎ IsUnderCeiling (some owner_money_ceiling_cents) ctx.amount_cents)
      × ((ctx.actor.role ≢ sub)
          ⊎ ((ctx.resource ≡ change_order) × (ctx.owner_id ≡ some ctx.actor.id)))
      × ((ctx.action ≢ approve)
          ⊎ (ctx.actor.role ≡ owner)
          ⊎ ((ctx.actor.role ≡ client) × (ctx.resource ≡ proposal)))
      × (ctx.action ≢ delete)
can-default_matrix ctx h =
    let g = (can_iff default_matrix ctx).0 h in
    (
      unless ctx.resource margin (granted-margin g),
      unless ctx.actor.role owner (λ er. unless ctx.resource money (granted-money g er)),
      unless ctx.actor.role sub (granted-sub g),
      unless ctx.action approve (granted-approve g),
      granted-delete g,
    )
