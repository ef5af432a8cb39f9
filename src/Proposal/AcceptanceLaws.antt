-- ===== src/Proposal/AcceptanceLaws.antt =====
-- What the checks of an acceptance (src/proposal/validation.ts) find where they find no error.
use kerf_app.Common.{
  All, Bool, Bool-cases, List, Member, Option, String, [], arith, false, find, if◌then◌else◌, inl,
  inr, leb, length, ltb, ltb_iff, nat_beq_iff, none, or_else, refl, some, subst, sym, true, ℕ, ◌*◌,
  ◌+◌, ◌<◌, ◌>?◌, ◌∷◌, ◌≡◌, ◌≢◌, ◌≤◌, ◌⊎◌,
}
use kerf_app.Common.Int.{pos}
use kerf_app.Common.Json.{Value, array, is_null, is_object, member, text}
use kerf_app.Checks.Guards.{integer_cents, is_iso8601, is_nonempty_text}
use kerf_app.Proposal.Checks.{valid_actor_roles, validate_actor}
use kerf_app.Proposal.Lines.{Numerics}
use kerf_app.Proposal.Validation.{
  audit_errors, ca_downpayment_cap_cents, count_milestones, is_milestone, locked_at_errors,
  schedule_errors, validate_milestone,
}
use kerf_app.Proposal.Acceptance.{
  acceptance_errors, count_division_lines, count_lines, downpayment_errors, elements, has_status,
  payment_errors,
}
use kerf_app.Checks.Errors.{
  HasCents, NoErrors, SumsTo, both_met, check_met, given_met, is_some_met, is_word-ne, object_met,
  one_of_met, require_met, sum_cents-given, validate_each-All,
}
use kerf_app.Proposal.LineLaws.{DivisionAdds}
use kerf_app.Proposal.Totals.{compute_payment_schedule_sum}

-- A milestone is no down payment, or it is at most $1,000 and at most a tenth of the total.
abbrev IsCapped : ℕ → Value → Type 0
IsCapped total m =
    (member m "kind" ≢ text "down_payment")
    ⊎ ((a : ℕ) × (integer_cents (member m "amount_cents") ≡ some a)
        × (a ≤ 100000)
        × (a * 10 ≤ total))

-- The element stands in the array that an object has under the key.
abbrev pub IsWithin : Value → String → Value → Type 0
IsWithin v key x =
    (is_object v ≡ true) × ((xs : List Value) × (array (member v key) ≡ some xs) × Member x xs)

-- An actor has an id and a role that is known.
abbrev IsActor : Value → Type 0
IsActor v =
    (is_object v ≡ true)
    × (is_nonempty_text (member v "id") ≡ true)
    × ((role : String) × (member v "role" ≡ text role) × Member role valid_actor_roles)

-- What the law and the business ask of a proposal that is accepted.
pub record IsAcceptable (js : Numerics) (proposal : Value) : Type 0 where
  pub divisions : List Value
  pub schedule : List Value
  pub total : ℕ
  pub has_divisions : array (member proposal "divisions") ≡ some divisions
  pub divisions_add : All (DivisionAdds js true) divisions
  pub has_schedule : array (member proposal "payment_schedule") ≡ some schedule
  pub has_total : integer_cents (member proposal "total_cents") ≡ some total
  pub schedule_adds : SumsTo "amount_cents" schedule total
  pub schedule_computed : compute_payment_schedule_sum schedule ≡ total
  pub capped : All (IsCapped total) schedule
  pub has_line :
      (d : Value) × (s : Value) × (l : Value) × IsWithin proposal "divisions" d
      × IsWithin d "sections" s
      × IsWithin s "lines" l
  pub locked_at_time : is_iso8601 (member proposal "locked_at") ≡ true
  pub locked_by_actor : IsActor (member proposal "locked_by")

pub elements-IsWithin :
    (v : Value) (key : String) (x : Value) → Member x (elements v key) → IsWithin v key x
elements-IsWithin v key x m = elim (Bool-cases (is_object v)) [
  | inl object ↦ (object, in_array (array (member v key)) refl (rw object at m))
  | inr other ↦ absurd (rw other at m)
]
  where
    in_array :
        (o : Option (List Value))
        → array (member v key) ≡ o
        → Member x (or_else o [])
        → (xs : List Value) × (array (member v key) ≡ some xs) × Member x xs
    in_array none e k = absurd k
    in_array (some xs) e k = (xs, e, k)

count_lines-line :
    (sections : List Value)
    → 0 < count_lines sections
    → (s : Value) × (l : Value) × Member s sections × IsWithin s "lines" l
unfolding count_lines
count_lines-line [] h = absurd (omega arith)
count_lines-line (s ∷ rest) h = first (elements s "lines") refl h (count_lines-line rest)
  where
    first :
        (ls : List Value)
        → elements s "lines" ≡ ls
        → 0 < length ls + count_lines rest
        → (0 < count_lines rest → (t : Value) × (l : Value) × Member t rest × IsWithin t "lines" l)
        → (t : Value) × (l : Value) × Member t (s ∷ rest) × IsWithin t "lines" l
    first [] e k later = let (t, l, m, is) = later (omega arith) in (t, l, inr m, is)
    first (l ∷ ls) e k later =
        (s, l, inl refl, elements-IsWithin s "lines" l (subst (Member l) (sym e) (inl refl)))

pub count_division_lines-line :
    (divisions : List Value)
    → 0 < count_division_lines divisions
    → (d : Value) × (s : Value) × (l : Value) × Member d divisions
      × IsWithin d "sections" s
      × IsWithin s "lines" l
unfolding count_division_lines
count_division_lines-line [] h = absurd (omega arith)
count_division_lines-line (d ∷ rest) h =
    elim (Bool-cases (ltb 0 (count_lines (elements d "sections")))) [
      | inl some_lines ↦
          let (s, l, m, is) =
            count_lines-line (elements d "sections") ((ltb_iff 0 _).0 some_lines) in
          (d, s, l, inl refl, elements-IsWithin d "sections" s m, is)
      | inr none_here ↦
          let later : 0 < count_division_lines rest = ground arith in
          let (e, s, l, m, within, is) = count_division_lines-line rest later in
          (e, s, l, inr m, within, is)
    ]

pub cap_lem :
    (total a : ℕ)
    → leb a (ca_downpayment_cap_cents (pos total)) ≡ true
    → (a ≤ 100000) × (a * 10 ≤ total)
unfolding ca_downpayment_cap_cents
cap_lem total a h = ground arith

other_kind :
    (m : Value) (kind : String)
    → is_object m ≡ true
    → is_milestone kind m ≡ false
    → member m "kind" ≢ text kind
other_kind m kind object h = is_word-ne (member m "kind") kind (ground arith)

-- Without a milestone of the kind all are capped.
none_capped :
    (total : ℕ) (schedule : List Value)
    → All (HasCents "amount_cents") schedule
    → count_milestones "down_payment" schedule ≡ 0
    → All (IsCapped total) schedule
none_capped total [] h c = tt
none_capped total (m ∷ rest) h c = elim (Bool-cases (is_milestone "down_payment" m)) [
  | inl is ↦ absurd (ground arith)
  | inr isnt ↦
      (inl (other_kind m "down_payment" h.0.0 isnt), none_capped total rest h.1 (ground arith))
]

-- The check looks at the first down payment; the count leaves no second one.
pub first_capped :
    (total : ℕ) (schedule : List Value)
    → All (HasCents "amount_cents") schedule
    → leb (count_milestones "down_payment" schedule) 1 ≡ true
    → NoErrors (downpayment_errors total schedule)
    → All (IsCapped total) schedule
first_capped total [] h c d = tt
first_capped total (m ∷ rest) h c d = elim (Bool-cases (is_milestone "down_payment" m)) [
  | inl is ↦
      let (object, a, e) = h.0 in
      let found : (find (is_milestone "down_payment") (m ∷ rest) >? λ m.
      integer_cents (member m "amount_cents"))
          ≡ some a =
        rw is e in
      let (cap, tenth) = cap_lem total a (require_met _ _ (check_met _ _ a found d)) in
      (inr (a, e, cap, tenth), none_capped total rest h.1 (ground arith))
  | inr isnt ↦ (
    inl (other_kind m "down_payment" h.0.0 isnt),
    first_capped total rest h.1 (ground arith) (rw isnt at d),
  )
]

validate_milestone-HasCents :
    (m : Value) (path : String) → NoErrors (validate_milestone m path) → HasCents "amount_cents" m
unfolding validate_milestone
validate_milestone-HasCents m path h =
    let (object, h0) = object_met _ _ _ h in
    let (_, h1) = both_met h0 in
    let (_, h2) = both_met h1 in
    let (amount, _) = both_met h2 in
    let (a, e) = is_some_met _ (require_met _ _ amount) in (object, a, e)

pub schedule_met :
    (r : Value)
    → NoErrors (schedule_errors r)
    → (schedule : List Value) × (array (member r "payment_schedule") ≡ some schedule)
      × All (HasCents "amount_cents") schedule
      × (leb (count_milestones "down_payment" schedule) 1 ≡ true)
unfolding schedule_errors
schedule_met r h =
    let (schedule, e, h0) = given_met _ _ _ h in
    let (each, h1) = both_met h0 in
    let (one, _) = both_met h1 in
    (
      schedule,
      e,
      validate_each-All validate_milestone validate_milestone-HasCents _ _ _ each,
      require_met _ _ one,
    )

pub is_accepted : (r : Value) → member r "status" ≡ text "accepted" → has_status r "accepted" ≡ true
is_accepted r e = rw e

pub payments_met :
    (r : Value) (schedule : List Value) (total : ℕ)
    → array (member r "payment_schedule") ≡ some schedule
    → integer_cents (member r "total_cents") ≡ some total
    → All (HasCents "amount_cents") schedule
    → NoErrors (payment_errors (member r "payment_schedule") (member r "total_cents"))
    → SumsTo "amount_cents" schedule total × NoErrors (downpayment_errors total schedule)
payments_met r schedule total e e_total priced h =
    let after_schedule = check_met _ _ schedule e h in
    let (sum_errors, cap) = both_met (check_met _ _ total e_total after_schedule) in
    let (sum, sums, add) = sum_cents-given "amount_cents" schedule priced in
    let equal = require_met _ _ (check_met _ _ sum sums sum_errors) in
    (subst (SumsTo "amount_cents" schedule) ((nat_beq_iff sum total).0 equal) add, cap)

validate_actor-IsActor : (v : Value) (path : String) → NoErrors (validate_actor v path) → IsActor v
unfolding validate_actor
validate_actor-IsActor v path h =
    let (object, h0) = object_met _ _ _ h in
    let (id, role) = both_met h0 in (object, require_met _ _ id, one_of_met _ _ _ _ role)

else_met : (b : Bool) (xs : List String) → b ≡ false → NoErrors (if b then [] else xs) → NoErrors xs
else_met true xs e h = cc
else_met false xs e h = h

-- Where the lock is not null it is a time and an actor.
pub locked_met :
    (r : Value)
    → NoErrors (locked_at_errors r)
    → is_null (member r "locked_at") ≡ false
    → is_null (member r "locked_by") ≡ false
    → (is_iso8601 (member r "locked_at") ≡ true) × IsActor (member r "locked_by")
unfolding locked_at_errors
locked_met r h at by =
    let (time, h0) = both_met h in
    let (actor, _) = both_met h0 in
    let either = require_met _ _ time in
    (
      ground arith,
      validate_actor-IsActor (member r "locked_by") "locked_by" (else_met _ _ by actor),
    )

pub audit_met : (r : Value) → NoErrors (audit_errors r) → NoErrors (locked_at_errors r)
unfolding audit_errors
audit_met r h =
    let (_, h0) = both_met h in
    let (_, h1) = both_met h0 in
    let (_, h2) = both_met {xs = validate_actor (member r "created_by") "created_by"} h1 in
    (both_met h2).1

pub acceptance_met :
    (r : Value)
    → NoErrors (acceptance_errors r)
    → (0 < count_division_lines (elements r "divisions"))
      × NoErrors (payment_errors (member r "payment_schedule") (member r "total_cents"))
      × (is_null (member r "locked_at") ≡ false)
      × (is_null (member r "locked_by") ≡ false)
unfolding acceptance_errors
acceptance_met r h =
    let (lines, h1) = both_met h in
    let (payments, locks) = both_met h1 in
    let set = require_met _ _ locks in
    ((ltb_iff 0 _).0 (require_met _ _ lines), payments, ground arith, ground arith)
