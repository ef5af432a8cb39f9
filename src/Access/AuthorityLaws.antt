-- ===== src/Access/AuthorityLaws.antt =====
-- What the evaluators of src/authority/profile.ts decide, for every profile.
use kerf_app.Common.{
  First, List, Option, [], and_split, arith, find_iff, inl, inr, none, number_eq, or_else, refl,
  some, subst, sym, text_eq, true, ◌&&◌, ◌==◌, ◌↔◌, ◌∷◌, ◌≡◌, ◌≢◌, ◌⊎◌,
}
use kerf_app.Common.Int.{pos, ℤ, ◌≤ℤ◌}
use kerf_app.Access.Roles.{Role, role_eq}
use kerf_app.Access.Authority.{
  AuthorityActionClass, AuthorityBand, AuthorityProfile, AuthorityResource, allowed, approve_any,
  approve_under_ceiling, authority_resource_eq, can_authorize, chain_of, decide_amount, decide_band,
  decide_class, delegate, escalate_or_deny, escalation_chain, get_band, observe, recommend,
  requires_escalation, under_ceiling,
}

-- The amount is given, is not negative and does not pass the ceiling, which is given.
abbrev pub IsWithin : Option ℤ → Option ℤ → Type 0
IsWithin (some most) (some amount) = (pos 0 ≤ℤ amount) × (amount ≤ℤ most)
IsWithin _ _ = ⊥

-- The band lets its role decide about the amount by itself.
abbrev pub Authorizes : AuthorityBand → Option ℤ → Type 0
Authorizes b amount =
    (b.action_class ≡ approve_any)
    ⊎ ((b.action_class ≡ approve_under_ceiling) × IsWithin b.max_amount_cents amount)

decide_amount_iff :
    (most : Option ℤ) (chain : Option (List Role)) (amount : Option ℤ)
    → (decide_amount most chain amount ≡ allowed) ↔ IsWithin most amount
decide_amount_iff most chain none = ground arith
decide_amount_iff none chain (some a) = ground arith
decide_amount_iff (some m) chain (some a) = ground arith

decide_class_iff :
    (c : AuthorityActionClass) (most : Option ℤ) (chain : Option (List Role)) (amount : Option ℤ)
    → (decide_class c most chain amount ≡ allowed)
      ↔ ((c ≡ approve_any) ⊎ ((c ≡ approve_under_ceiling) × IsWithin most amount))
decide_class_iff observe most chain amount = ground arith
decide_class_iff recommend most chain amount = ground arith
decide_class_iff approve_any most chain amount = ground arith
decide_class_iff delegate most chain amount = ground arith
decide_class_iff approve_under_ceiling most chain amount =
    let inner = decide_amount_iff most chain amount in
    (λ h. inr (refl, inner.0 h), λ h. elim h [ inl e ↦ cc | inr (e, w) ↦ inner.1 w ])

decide_band_iff :
    (o : Option AuthorityBand) (amount : Option ℤ)
    → (decide_band o amount ≡ allowed) ↔ ((b : AuthorityBand) × (o ≡ some b) × Authorizes b amount)
decide_band_iff none amount = (λ h. cc, λ (b, e, w). cc)
decide_band_iff (some b) amount =
    let inner = decide_class_iff b.action_class b.max_amount_cents b.can_escalate_to amount in
    (
      λ h. (b, refl, inner.0 h),
      λ (c, e, w). inner.1 (subst (λ d. Authorizes (or_else d b) amount) (sym e) w),
    )

-- The band is of the role and the resource.
abbrev pub Covers : Role → AuthorityResource → AuthorityBand → Type 0
Covers role resource b = (b.role ≡ role) × (b.resource ≡ resource)

Covers-iff :
    (role : Role) (resource : AuthorityResource) (b : AuthorityBand)
    → ((b.role == role && b.resource == resource) ≡ true) ↔ Covers role resource b
Covers-iff role resource b =
    let same_role = role_eq.eqb_iff b.role role in
    let same_resource = authority_resource_eq.eqb_iff b.resource resource in
    (
      λ h. let (r, s) = and_split _ _ h in (same_role.0 r, same_resource.0 s),
      λ (r, s). rw (same_role.1 r) (same_resource.1 s),
    )

get_band_iff :
    (profile : AuthorityProfile) (role : Role) (resource : AuthorityResource) (b : AuthorityBand)
    → (get_band profile role resource ≡ some b) ↔ First (Covers role resource) b profile.bands
unfolding get_band
get_band_iff profile role resource b = find_iff _ (Covers-iff role resource) b profile.bands

allowed_band_iff :
    (profile : AuthorityProfile) (role : Role) (resource : AuthorityResource) (amount : Option ℤ)
    → (can_authorize profile role resource amount ≡ allowed)
      ↔ ((b : AuthorityBand) × (get_band profile role resource ≡ some b) × Authorizes b amount)
unfolding can_authorize
allowed_band_iff profile role resource amount =
    decide_band_iff (get_band profile role resource) amount

-- `canAuthorize` allows exactly when the first band of the profile that is of the role and of the
-- resource approves any amount, or approves up to a ceiling when the amount is given, is not
-- negative and is at most the ceiling, which is given too.
pub can_authorize-allowed_iff :
    (profile : AuthorityProfile) (role : Role) (resource : AuthorityResource) (amount : Option ℤ)
    → (can_authorize profile role resource amount ≡ allowed)
      ↔ ((b : AuthorityBand) × First (Covers role resource) b profile.bands × Authorizes b amount)
can_authorize-allowed_iff profile role resource amount =
    let inner = allowed_band_iff profile role resource amount in
    (
      λ h. let (b, found, w) = inner.0 h in (b, (get_band_iff profile role resource b).0 found, w),
      λ (b, first, w). inner.1 (b, (get_band_iff profile role resource b).1 first, w),
    )

escalate_or_deny-chain :
    (chain : Option (List Role))
    → escalate_or_deny chain ≡ requires_escalation
    → or_else chain [] ≢ []
escalate_or_deny-chain none h e = cc
escalate_or_deny-chain (some []) h e = cc
escalate_or_deny-chain (some (r ∷ rest)) h e = cc

under_ceiling-chain :
    (most : Option ℤ) (chain : Option (List Role)) (a : ℤ)
    → under_ceiling most chain a ≡ requires_escalation
    → escalate_or_deny chain ≡ requires_escalation
under_ceiling-chain none chain a h = h
under_ceiling-chain (some m) chain a h = ground arith

decide_amount-chain :
    (most : Option ℤ) (chain : Option (List Role)) (amount : Option ℤ)
    → decide_amount most chain amount ≡ requires_escalation
    → escalate_or_deny chain ≡ requires_escalation
decide_amount-chain most chain none h = cc
decide_amount-chain most chain (some a) h = ground (arith, under_ceiling-chain most chain a)

decide_class-chain :
    (c : AuthorityActionClass) (most : Option ℤ) (chain : Option (List Role)) (amount : Option ℤ)
    → decide_class c most chain amount ≡ requires_escalation
    → escalate_or_deny chain ≡ requires_escalation
decide_class-chain observe most chain amount h = cc
decide_class-chain recommend most chain amount h = h
decide_class-chain approve_any most chain amount h = cc
decide_class-chain delegate most chain amount h = h
decide_class-chain approve_under_ceiling most chain amount h =
    decide_amount-chain most chain amount h

decide_band-chain :
    (o : Option AuthorityBand) (amount : Option ℤ)
    → decide_band o amount ≡ requires_escalation
    → chain_of o ≢ []
decide_band-chain none amount h = cc
decide_band-chain (some b) amount h =
    escalate_or_deny-chain b.can_escalate_to
      (decide_class-chain b.action_class b.max_amount_cents b.can_escalate_to amount h)

-- Whenever `canAuthorize` answers that an escalation is required, `escalationChain` lists a role
-- to escalate to.
pub can_authorize-escalation :
    (profile : AuthorityProfile) (role : Role) (resource : AuthorityResource) (amount : Option ℤ)
    → can_authorize profile role resource amount ≡ requires_escalation
    → escalation_chain profile role resource ≢ []
unfolding can_authorize escalation_chain
can_authorize-escalation profile role resource amount h =
    decide_band-chain (get_band profile role resource) amount h
