-- ===== src/Access/PermissionLaws.antt =====
-- What the evaluator of src/permissions/provider.ts decides, for every matrix.
use mathlib.Core.Path.{ap₂}
use text.Mathlib.TextEquality.{eq_iff}
use kerf_app.Common.{
  Bool, Bool-cases, List, Member, Member-append_iff, Member-keep_iff, Member→includes, Option,
  String, [], and_split, any-keep, any_iff, ap, arith, false, if◌then◌else◌, includes,
  includes→Member, inl, inr, none, not, number_eq, refl, some, subst, sym, text_eq, true, ◌&&◌,
  ◌==◌, ◌↔◌, ◌∙◌, ◌∷◌, ◌≡◌, ◌⊎◌,
}
use kerf_app.Common.Int.{ℤ, ◌≤ℤ◌}
use kerf_app.Access.Roles.{Actor, role_eq}
use kerf_app.Access.Permissions.{
  Action, PermissionContext, PermissionRule, Resource, action_eq, actions_for, add_action,
  add_actions, can, collect_actions, grants, is_other, over_ceiling, resource_eq, rules_for,
}

-- The amount, where there is one, is not over the ceiling, where there is one.
abbrev pub IsUnderCeiling : Option ℤ → Option ℤ → Type 0
IsUnderCeiling (some ceiling) (some amount) = amount ≤ℤ ceiling
IsUnderCeiling _ _ = Unit

-- A rule grants what a context asks for.
abbrev pub Grants : PermissionRule → PermissionContext → Type 0
Grants r ctx =
    (r.role ≡ ctx.actor.role)
    × (r.resource ≡ ctx.resource)
    × Member ctx.action r.actions
    × IsUnderCeiling r.max_amount_cents ctx.amount_cents
    × ((r.own_resource_only ≡ false) ⊎ (ctx.owner_id ≡ some ctx.actor.id))

ceiling_iff :
    (ceiling amount : Option ℤ)
    → (over_ceiling ceiling amount ≡ false) ↔ IsUnderCeiling ceiling amount
ceiling_iff none amount = ground arith
ceiling_iff (some c) none = ground arith
ceiling_iff (some c) (some a) = (λ h. ground arith, λ h. ground arith)

other_iff :
    (owner_id : Option String) (id : String) → (is_other owner_id id ≡ false) ↔ (owner_id ≡ some id)
other_iff none id = ground arith
other_iff (some o) id = (
  λ h. ap some ((eq_iff o id).0 (ground arith)),
  λ h. let same : (o == id) ≡ true = (eq_iff o id).1 (ground arith) in ap not same,
)

-- The tests of a rule, for any reading of each of them.
tests_iff :
    {A B C D E : Type 0} (a b c o w t : Bool)
    → (a ≡ true) ↔ A
    → (b ≡ true) ↔ B
    → (c ≡ true) ↔ C
    → (o ≡ false) ↔ D
    → (t ≡ false) ↔ E
    → (((a && b) && (if not c then false else if o then false else if w && t then false else true))
        ≡ true)
      ↔ (A × B × C × D × ((w ≡ false) ⊎ E))
tests_iff a b c o w t ia ib ic io it = ground arith

grants_iff :
    (r : PermissionRule) (ctx : PermissionContext)
    → (((r.role == ctx.actor.role && r.resource == ctx.resource) && grants r ctx) ≡ true)
      ↔ Grants r ctx
unfolding grants
grants_iff r ctx =
    tests_iff (r.role == ctx.actor.role) (r.resource == ctx.resource)
      (includes r.actions ctx.action) (over_ceiling r.max_amount_cents ctx.amount_cents)
      r.own_resource_only (is_other ctx.owner_id ctx.actor.id)
      (role_eq.eqb_iff r.role ctx.actor.role) (resource_eq.eqb_iff r.resource ctx.resource)
      (includes→Member r.actions ctx.action, Member→includes r.actions ctx.action)
      (ceiling_iff r.max_amount_cents ctx.amount_cents) (other_iff ctx.owner_id ctx.actor.id)

-- Some rule of a list grants a context.
pub record IsGranted (matrix : List PermissionRule) (ctx : PermissionContext) : Type 0 where
  pub rule : PermissionRule
  pub listed : Member rule matrix
  pub grant : Grants rule ctx

-- `can` allows exactly what some rule of the matrix grants: one for the actor's role and the
-- resource, that lists the action, whose ceiling the amount does not pass, and that either is not
-- limited to one's own items or is asked for an item that the actor owns.
pub can_iff :
    (matrix : List PermissionRule) (ctx : PermissionContext)
    → (can matrix ctx ≡ true) ↔ IsGranted matrix ctx
unfolding can rules_for
can_iff matrix ctx =
    let merged =
      any-keep (λ r. grants r ctx) (λ r. r.role == ctx.actor.role && r.resource == ctx.resource)
        matrix in
    let found = any_iff _ (λ r. grants_iff r ctx) matrix in
    (
      λ h. let (r, m, g) = found.0 (sym merged ∙ h) in record { rule = r; listed = m; grant = g },
      λ g. merged ∙ found.1 (g.rule, g.listed, g.grant),
    )

add_action_iff :
    (a b : Action) (seen : List Action) → Member b (add_action a seen) ↔ ((a ≡ b) ⊎ Member b seen)
unfolding add_action
add_action_iff a b seen = elim (Bool-cases (includes seen a)) [
  | inl holds ↦
      let known : a ≡ b → Member b seen =
        λ e. subst (λ x. Member x seen) e (includes→Member seen a holds) in
      ground arith
  | inr fails ↦ ground (arith, Member-append_iff b seen (a ∷ []))
]

add_actions_iff :
    (actions : List Action) (b : Action) (seen : List Action)
    → Member b (add_actions actions seen) ↔ (Member b actions ⊎ Member b seen)
unfolding add_actions
add_actions_iff [] b seen = ground arith
add_actions_iff (a ∷ rest) b seen =
    ground (arith, add_actions_iff rest b (add_action a seen), add_action_iff a b seen)

collect_actions_iff :
    (rules : List PermissionRule) (b : Action) (seen : List Action)
    → Member b (collect_actions rules seen)
      ↔ (Member b seen ⊎ ((r : PermissionRule) × Member r rules × Member b r.actions))
unfolding collect_actions
collect_actions_iff [] b seen = (λ h. inl h, λ h. elim h [ inl m ↦ m | inr (r, m, h) ↦ absurd m ])
collect_actions_iff (x ∷ rules) b seen =
    let rest = collect_actions_iff rules b (add_actions x.actions seen) in
    let first = add_actions_iff x.actions b seen in
    (
      λ h. elim (rest.0 h) [
        | inl m ↦ elim (first.0 m) [ inl here ↦ inr (x, inl refl, here) | inr old ↦ inl old ]
        | inr (r, m, has) ↦ inr (r, inr m, has)
      ],
      λ h. elim h [
        | inl old ↦ rest.1 (inl (first.1 (inr old)))
        | inr (r, inl e, has) ↦
            rest.1 (inl (first.1 (inl (subst (λ r. Member b r.actions) (sym e) has))))
        | inr (r, inr m, has) ↦ rest.1 (inr (r, m, has))
      ],
    )

-- `actionsFor` lists an action exactly when some rule of the matrix for the actor's role and the
-- resource lists it, whatever conditions that rule has.
pub actions_for_iff :
    (matrix : List PermissionRule) (actor : Actor) (resource : Resource) (action : Action)
    → Member action (actions_for matrix actor resource) ↔ (
        (r : PermissionRule) × Member r matrix
        × (r.role ≡ actor.role)
        × (r.resource ≡ resource)
        × Member action r.actions)
unfolding actions_for rules_for
actions_for_iff matrix actor resource action =
    let listed = collect_actions_iff (rules_for matrix actor resource) action [] in
    let kept = λ (r : PermissionRule).
      Member-keep_iff (λ (r : PermissionRule). r.role == actor.role && r.resource == resource) r
        matrix in
    (
      λ h. elim (listed.0 h) [
        | inl m ↦ absurd m
        | inr (r, m, has) ↦
            let (m, tests) = (kept r).0 m in
            let (er, es) = and_split (r.role == actor.role) (r.resource == resource) tests in
            (
              r,
              m,
              (role_eq.eqb_iff r.role actor.role).0 er,
              (resource_eq.eqb_iff r.resource resource).0 es,
              has,
            )
      ],
      λ (r, m, er, es, has).
          let tr : (r.role == actor.role) ≡ true = (role_eq.eqb_iff r.role actor.role).1 er in
          let ts : (r.resource == resource) ≡ true =
            (resource_eq.eqb_iff r.resource resource).1 es in
          listed.1 (inr (r, (kept r).1 (m, ap₂ (λ a b. a && b) tr ts), has)),
    )
