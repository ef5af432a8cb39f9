-- ===== src/Blackboard/QueryLaws.antt =====
-- What the queries of src/blackboard/eventLog.ts return.
use text.Mathlib.TextEquality.{eq_iff}
use kerf_app.Common.{
  Bool, List, Member, Member-keep_iff, Option, String, [], ap, arith, false, if◌then◌else◌, inl,
  inr, keep, length, none, not, number_eq, refl, some, suc, text_eq, true, zero, ℕ, ◌++◌, ◌-◌, ◌==◌,
  ◌↔◌, ◌∷◌, ◌≡◌, ◌⊎◌,
}
use kerf_app.Common.Text.{codes, is_before, is_nonempty}
use kerf_app.Blackboard.EventLog.{
  Event, EventLog, by_entity, drop, since_bound, until_bound, window,
}

-- The event is not before the first bound and not after the second, where they are not empty.
abbrev pub IsSince : Option String → Event → Type 0
IsSince none e = Unit
IsSince (some t) e = (is_nonempty t ≡ false) ⊎ (is_before (codes e.at) (codes t) ≡ false)

abbrev pub IsUntil : Option String → Event → Type 0
IsUntil none e = Unit
IsUntil (some t) e = (is_nonempty t ≡ false) ⊎ (is_before (codes t) (codes e.at) ≡ false)

bounded_lem :
    (given : Bool) (late : Event → Bool) (list : List Event) (e : Event)
    → Member e (if given then keep (λ x. not (late x)) list else list)
      ↔ (Member e list × ((given ≡ false) ⊎ (late e ≡ false)))
bounded_lem true late list e =
    let kept = Member-keep_iff (λ x. not (late x)) e list in
    (
      λ h. let (m, t) = kept.0 h in (m, inr (ground arith)),
      λ (m, t). elim t [ inl f ↦ cc | inr f ↦ kept.1 (m, ap not f) ],
    )
bounded_lem false late list e = (λ h. (h, inl refl), λ h. h.0)

IsSince-iff :
    (o : Option String) (list : List Event) (e : Event)
    → Member e (since_bound o list) ↔ (Member e list × IsSince o e)
IsSince-iff none list e = (λ h. (h, tt), λ h. h.0)
IsSince-iff (some t) list e =
    bounded_lem (is_nonempty t) (λ x. is_before (codes x.at) (codes t)) list e

IsUntil-iff :
    (o : Option String) (list : List Event) (e : Event)
    → Member e (until_bound o list) ↔ (Member e list × IsUntil o e)
IsUntil-iff none list e = (λ h. (h, tt), λ h. h.0)
IsUntil-iff (some t) list e =
    bounded_lem (is_nonempty t) (λ x. is_before (codes t) (codes x.at)) list e

-- Without a limit `byEntity` returns exactly the events of the log that are about the entity, are
-- not before the bound `since` and are not after the bound `until`, where an empty bound is none.
pub by_entity_iff :
    (id : String) (since until : Option String) (log : EventLog) (e : Event)
    → Member e (by_entity id (some (record { since = since; until = until; limit = none })) log)
      ↔ (Member e log.events × (e.entity_id ≡ id) × IsSince since e × IsUntil until e)
unfolding by_entity window
by_entity_iff id since until log e =
    let about = λ (x : Event). x.entity_id == id in
    let kept = Member-keep_iff about e log.events in
    let first = IsSince-iff since (keep about log.events) e in
    let second = IsUntil-iff until (since_bound since (keep about log.events)) e in
    let named = eq_iff e.entity_id id in
    (
      λ h.
          let (m, u) = second.0 h in
          let (m, s) = first.0 m in let (m, t) = kept.0 m in (m, named.0 t, s, u),
      λ (m, t, s, u). second.1 (first.1 (kept.1 (m, named.1 t), s), u),
    )

-- What `drop` leaves is the end of the list.
drop_front :
    {A : Type 0} (n : ℕ) (xs : List A)
    → ((front : List A) × (xs ≡ front ++ drop n xs)) × (length (drop n xs) ≡ length xs - n)
drop_front zero xs = (([], refl), omega arith)
drop_front (suc n) [] = (([], refl), omega arith)
drop_front (suc n) (x ∷ xs) =
    let ((front, e), l) = drop_front n xs in ((x ∷ front, ap (λ ys. x ∷ ys) e), omega (arith, l))
