-- ===== src/Capture/DeleteLaws.antt =====
-- What `deleteSession` of src/app/lib/captureStore.ts leaves.
use text.Mathlib.TextEquality.{eq_iff}
use kerf_app.Common.{
  Bool, Bool-cases, List, Member, Member-keep_iff, String, [], ap, arith, false, inl, inr, keep,
  leb, none, not, number_eq, refl, sym, text_eq, unless_not, ℕ, ◌==◌, ◌∙◌, ◌∷◌, ◌≡◌, ◌≢◌, ◌⊎◌,
}
use kerf_app.Capture.Types.{CaptureItem, sync_eq}
use kerf_app.Capture.Database.{delete_key, differ, get}
use kerf_app.Capture.Store.{
  CaptureDb, get_session, insert_by, item_key, list_items, session_key, sort_by,
}
use kerf_app.Capture.Operations.{delete_items, delete_session}

get-delete_key :
    {A : Type 0} (key : A → String) (k : String) (xs : List A)
    → get key (delete_key key k xs) k ≡ none
unfolding get delete_key
get-delete_key key k [] = refl
get-delete_key key k (x ∷ xs) =
    let rest = get-delete_key key k xs in
    elim (Bool-cases (key x == k)) [ inl same ↦ ground arith | inr differs ↦ ground arith ]

get-delete_other :
    {A : Type 0} (key : A → String) (k other : String) (xs : List A)
    → k ≢ other
    → get key (delete_key key k xs) other ≡ get key xs other
unfolding get delete_key
get-delete_other key k other [] n = refl
get-delete_other key k other (x ∷ xs) n =
    let rest = get-delete_other key k other xs n in
    elim (Bool-cases (key x == k)) [
      | inl same ↦
          let away : (key x == other) ≡ false =
            differ (key x) other (λ e. n (sym ((eq_iff (key x) k).0 same) ∙ e)) in
          ground arith
      | inr differs ↦ ground arith
    ]

Member-delete_key :
    (k : String) (y : CaptureItem) (items : List CaptureItem)
    → Member y (delete_key item_key k items)
    → Member y items × (y.id ≢ k)
unfolding delete_key
Member-delete_key k y items m =
    let (there, kept) = (Member-keep_iff (λ (x : CaptureItem). not (x.id == k)) y items).0 m in
    (there, λ e. cc (ap not ((eq_iff y.id k).1 e), kept))

Member-delete_items :
    (gone : List CaptureItem) (y : CaptureItem) (items : List CaptureItem)
    → Member y (delete_items gone items)
    → Member y items × ((i : CaptureItem) → Member i gone → y.id ≢ i.id)
Member-delete_items [] y items m = (m, λ i n. absurd n)
Member-delete_items (g ∷ gone) y items m =
    let (there, others) = Member-delete_items gone y (delete_key item_key g.id items) m in
    let (before, apart) = Member-delete_key g.id y items there in
    (
      before,
      λ i n. elim n [
        | inl e ↦ λ h. apart (h ∙ ap (λ (x : CaptureItem). x.id) (sym e))
        | inr later ↦ others i later
      ],
    )

insert_by-Member :
    {A : Type 0} (f : A → ℕ) (x a : A) (ys : List A)
    → (x ≡ a) ⊎ Member a ys
    → Member a (insert_by f x ys)
insert_by-Member f x a [] m = m
insert_by-Member f x a (y ∷ ys) m =
    let deeper = insert_by-Member f x a ys in
    elim (Bool-cases (leb (f x) (f y))) [ inl h ↦ ground arith | inr h ↦ ground arith ]

sort_by-Member :
    {A : Type 0} (f : A → ℕ) (a : A) (xs : List A) → Member a xs → Member a (sort_by f xs)
sort_by-Member f a [] m = m
sort_by-Member f a (x ∷ xs) m =
    insert_by-Member f x a (sort_by f xs)
      (elim m [ inl e ↦ inl e | inr n ↦ inr (sort_by-Member f a xs n) ])

no-Member : {A : Type 0} (xs : List A) → ((a : A) → ¬ Member a xs) → xs ≡ []
no-Member [] h = refl
no-Member (x ∷ xs) h = absurd (h x (inl refl))

-- After a session is deleted neither it nor any of its items is found, and every other session is
-- stored as before.
pub delete_session-gone :
    (id other : String) (db : CaptureDb)
    → let after = delete_session id db in
      (get_session after id ≡ none)
      × (list_items after id ≡ [])
      × ((id ≡ other) ⊎ (get_session after other ≡ get_session db other))
unfolding delete_session list_items
delete_session-gone id other db = (
  get-delete_key session_key id db.sessions,
  ap (sort_by (λ (i : CaptureItem). i.created_at)) (
      no-Member (keep mine (delete_items (list_items db id) db.items)) (λ y m.
        let (left, is_mine) =
          (Member-keep_iff mine y (delete_items (list_items db id) db.items)).0 m in
        let (before, apart) = Member-delete_items (list_items db id) y db.items left in
        apart y
          (sort_by-Member (λ (i : CaptureItem). i.created_at) y (keep mine db.items)
            ((Member-keep_iff mine y db.items).1 (before, is_mine)))
          refl)),
  unless_not id other (get-delete_other session_key id other db.sessions),
)
  where
    mine : CaptureItem → Bool
    mine i = i.session_id == id
