-- ===== src/Persistence/EntryLaws.antt =====
-- The maps of projections.ts: a list of entries with distinct keys, and what a sequence of changes
-- makes of the entry of one key.
use kerf_app.Common.{
  All, Bool-cases, List, Member, Option, String, [], ap, arith, eqb_refl, false, find, find-Member,
  if◌then◌else◌, inl, inr, none, number_eq, refl, some, subst, sym, text_eq, true, ◌==◌, ◌↔◌, ◌∙◌,
  ◌∷◌, ◌≡◌, ◌⊎◌,
}
use kerf_app.Persistence.Projection.{set_entry, update_entry}

pub data Change (A : Type 0) : Type 0 where
  sets : A → Change A
  updates : String → (A → A) → Change A
  leaves : Change A

abbrev pub update_option : {A : Type 0} → (A → A) → Option A → Option A
update_option f none = none
update_option f (some x) = some (f x)

both_keys : (a b k : String) → (a == b) ≡ false → ((a == k) ≡ false) ⊎ ((b == k) ≡ false)
both_keys a b k h = elim (Bool-cases (a == k)) [
  | inl f ↦ elim (Bool-cases (b == k)) [
    | inl g ↦
        let e : (a == b) ≡ true =
          (text_eq.eqb_iff a b).1 ((text_eq.eqb_iff a k).0 f ∙ sym ((text_eq.eqb_iff b k).0 g)) in
        cc
    | inr g ↦ inr g
  ]
  | inr f ↦ inl f
]

module _ {A : Type 0} (key : A → String) where
  abbrev pub lookup_entry : String → List A → Option A
  lookup_entry k ys = find (λ y. key y == k) ys

  abbrev pub do_change : Change A → List A → List A
  do_change (sets x) ys = set_entry key x ys
  do_change (updates k f) ys = update_entry key k f ys
  do_change leaves ys = ys

  abbrev pub do_changes : List (Change A) → List A → List A
  do_changes [] ys = ys
  do_changes (c ∷ cs) ys = do_changes cs (do_change c ys)

  -- One change as it concerns the entry of the key k.
  abbrev pub follow_change : String → Change A → Option A → Option A
  follow_change k (sets x) so_far = if key x == k then some x else so_far
  follow_change k (updates j f) so_far = if j == k then update_option f so_far else so_far
  follow_change k leaves so_far = so_far

  -- What a sequence of changes makes of the entry of the key k.
  abbrev pub follow : String → List (Change A) → Option A → Option A
  follow k [] so_far = so_far
  follow k (c ∷ cs) so_far = follow k cs (follow_change k c so_far)

  abbrev pub AreDistinct : List A → Type 0
  AreDistinct [] = Unit
  AreDistinct (y ∷ ys) = (lookup_entry (key y) ys ≡ none) × AreDistinct ys

  abbrev pub KeepsKey : Change A → Type 0
  KeepsKey (updates k f) = (y : A) → key (f y) ≡ key y
  KeepsKey _ = Unit

  lookup-set :
      (k : String) (x : A) (ys : List A)
      → lookup_entry k (set_entry key x ys) ≡ (if key x == k then some x else lookup_entry k ys)
  unfolding set_entry
  lookup-set k x [] = refl
  lookup-set k x (y ∷ ys) =
      let deeper = lookup-set k x ys in
      elim (Bool-cases (key y == key x)) [
        | inl same ↦
            let e : (key y == k) ≡ (key x == k) = ap (λ z. z == k) ((text_eq.eqb_iff _ _).0 same) in
            ground arith
        | inr differs ↦ let apart = both_keys (key y) (key x) k differs in ground arith
      ]

  lookup-update :
      (k j : String) (f : A → A)
      → ((y : A) → key (f y) ≡ key y)
      → (ys : List A)
      → lookup_entry k (update_entry key j f ys)
        ≡ (if j == k then update_option f (lookup_entry k ys) else lookup_entry k ys)
  unfolding update_entry
  lookup-update k j f keeps [] = ground arith
  lookup-update k j f keeps (y ∷ ys) =
      let deeper = lookup-update k j f keeps ys in
      let same_key : (key (f y) == k) ≡ (key y == k) = ap (λ z. z == k) (keeps y) in
      elim (Bool-cases (key y == j)) [
        | inl same ↦
            let e : (key y == k) ≡ (j == k) = ap (λ z. z == k) ((text_eq.eqb_iff _ _).0 same) in
            ground arith
        | inr differs ↦ let apart = both_keys (key y) j k differs in ground arith
      ]

  lookup-change :
      (k : String) (c : Change A)
      → KeepsKey c
      → (ys : List A) → lookup_entry k (do_change c ys) ≡ follow_change k c (lookup_entry k ys)
  lookup-change k (sets x) keeps ys = lookup-set k x ys
  lookup-change k (updates j f) keeps ys = lookup-update k j f keeps ys
  lookup-change k leaves keeps ys = refl

  pub lookup-changes :
      (k : String) (cs : List (Change A))
      → All KeepsKey cs
      → (ys : List A) → lookup_entry k (do_changes cs ys) ≡ follow k cs (lookup_entry k ys)
  lookup-changes k [] keeps ys = refl
  lookup-changes k (c ∷ cs) keeps ys =
      lookup-changes k cs keeps.1 (do_change c ys) ∙ ap (follow k cs) (lookup-change k c keeps.0 ys)

  differs_from : (a b : String) → (a == b) ≡ false → (b == a) ≡ false
  differs_from a b h = elim (Bool-cases (b == a)) [
    | inl e ↦
        let same : (a == b) ≡ true = (text_eq.eqb_iff a b).1 (sym ((text_eq.eqb_iff b a).0 e)) in cc
    | inr e ↦ e
  ]

  AreDistinct-set : (x : A) (ys : List A) → AreDistinct ys → AreDistinct (set_entry key x ys)
  unfolding set_entry
  AreDistinct-set x [] distinct = (refl, tt)
  AreDistinct-set x (y ∷ ys) distinct = elim (Bool-cases (key y == key x)) [
    | inl same ↦ rw same (
      subst (λ k. lookup_entry k ys ≡ none) ((text_eq.eqb_iff _ _).0 same) distinct.0,
      distinct.1,
    )
    | inr differs ↦ rw differs (
      lookup-set (key y) x ys ∙ rw (differs_from (key y) (key x) differs) distinct.0,
      AreDistinct-set x ys distinct.1,
    )
  ]

  AreDistinct-update :
      (j : String) (f : A → A)
      → ((y : A) → key (f y) ≡ key y)
      → (ys : List A) → AreDistinct ys
      → AreDistinct (update_entry key j f ys)
  unfolding update_entry
  AreDistinct-update j f keeps [] distinct = tt
  AreDistinct-update j f keeps (y ∷ ys) distinct = elim (Bool-cases (key y == j)) [
    | inl same ↦
        rw same (subst (λ k. lookup_entry k ys ≡ none) (sym (keeps y)) distinct.0, distinct.1)
    | inr differs ↦ rw differs (
      lookup-update (key y) j f keeps ys ∙ rw (differs_from (key y) j differs) distinct.0,
      AreDistinct-update j f keeps ys distinct.1,
    )
  ]

  AreDistinct-change :
      (c : Change A) → KeepsKey c → (ys : List A) → AreDistinct ys → AreDistinct (do_change c ys)
  AreDistinct-change (sets x) keeps ys = AreDistinct-set x ys
  AreDistinct-change (updates j f) keeps ys = AreDistinct-update j f keeps ys
  AreDistinct-change leaves keeps ys = λ d. d

  AreDistinct-changes :
      (cs : List (Change A))
      → All KeepsKey cs
      → (ys : List A) → AreDistinct ys
      → AreDistinct (do_changes cs ys)
  AreDistinct-changes [] keeps ys distinct = distinct
  AreDistinct-changes (c ∷ cs) keeps ys distinct =
      AreDistinct-changes cs keeps.1 (do_change c ys) (AreDistinct-change c keeps.0 ys distinct)

  lookup-absent :
      (k : String) (a : A) (ys : List A)
      → lookup_entry k ys ≡ none
      → Member a ys
      → (key a == k) ≡ false
  lookup-absent k a [] h m = absurd m
  lookup-absent k a (y ∷ ys) h m = elim (Bool-cases (key y == k)) [
    | inl same ↦ ground arith
    | inr differs ↦ elim m [
      | inl e ↦ subst (λ z. (key z == k) ≡ false) e differs
      | inr later ↦ lookup-absent k a ys (ground arith) later
    ]
  ]

  lookup_iff :
      (a : A) (ys : List A) → AreDistinct ys → Member a ys ↔ (lookup_entry (key a) ys ≡ some a)
  lookup_iff a ys distinct =
      (present ys distinct, λ e. (find-Member (λ y. key y == key a) a ys e).0)
    where
      present : (zs : List A) → AreDistinct zs → Member a zs → lookup_entry (key a) zs ≡ some a
      present [] d m = absurd m
      present (z ∷ zs) d (inl e) = rw e (rw (eqb_refl (key a)) refl)
      present (z ∷ zs) d (inr m) =
          rw (differs_from (key a) (key z) (lookup-absent (key z) a zs d.0 m)) (present zs d.1 m)

  -- Of the entries that a sequence of changes leaves, each is what the changes make of its key.
  pub changes_iff :
      (cs : List (Change A))
      → All KeepsKey cs
      → (a : A) → Member a (do_changes cs []) ↔ (follow (key a) cs none ≡ some a)
  changes_iff cs keeps a =
      subst (λ o. Member a (do_changes cs []) ↔ (o ≡ some a)) (lookup-changes (key a) cs keeps [])
        (lookup_iff a (do_changes cs []) (AreDistinct-changes cs keeps [] tt))
