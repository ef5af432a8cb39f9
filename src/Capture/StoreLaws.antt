-- ===== src/Capture/StoreLaws.antt =====
-- What the operations of src/app/lib/captureStore.ts leave in the two object stores.
use text.Mathlib.TextEquality.{eq_iff}
use kerf_app.Common.{
  Bool-cases, Option, String, [], ap, inl, inr, map, none, number_eq, refl, some, subst, sym,
  text_eq, ℕ, ◌==◌, ◌∙◌, ◌≡◌, ◌≢◌, ◌⊎◌,
}
use kerf_app.Capture.Types.{
  CaptureItem, CapturePrincipalSnapshot, CaptureRouteIntent, CaptureSession, CaptureSyncState,
  sync_eq,
}
use kerf_app.Capture.Database.{differ, get-key, get-put, get-put_other, keep-put}
use kerf_app.Capture.Store.{
  CaptureDb, create_session, get_item, get_session, item_key, list_items, new_session, put_item,
  put_session, rolled_up, rollup_capture_session_status, session_key, sort_by, update_rollup,
  update_session_rollup,
}
use kerf_app.Capture.ItemStore.{ItemExtras, mark_found, mark_item_status, with_status}

-- The status of a session is the roll-up of its items, and its ids are theirs.
abbrev pub Agrees : CaptureDb → CaptureSession → String → Type 0
Agrees db s session_id =
    (s.status ≡ rollup_capture_session_status (list_items db session_id))
    × (s.item_ids ≡ map (λ (i : CaptureItem). i.id) (list_items db session_id))

-- Every session that is found agrees with its items.
abbrev pub IsConsistent : CaptureDb → Type 0
IsConsistent db =
    (session_id : String) (s : CaptureSession)
    → get_session db session_id ≡ some s
    → Agrees db s session_id

-- The agreement stands where the items are the same.
pub Agrees-items :
    (db then_db : CaptureDb) (s : CaptureSession) (a b : String)
    → list_items db a ≡ list_items then_db b
    → Agrees db s a
    → Agrees then_db s b
Agrees-items db then_db s a b e h =
    (h.0 ∙ ap rollup_capture_session_status e, h.1 ∙ ap (map (λ (i : CaptureItem). i.id)) e)

-- The items of a session that the item under a key is not one of.
pub list_items-put :
    (i : CaptureItem) (session_id : String) (db : CaptureDb)
    → i.session_id ≢ session_id
    → ((j : CaptureItem) → get_item db i.id ≡ some j → j.session_id ≢ session_id)
    → list_items (put_item i db) session_id ≡ list_items db session_id
unfolding list_items
list_items-put i session_id db n h = ap (sort_by (λ (j : CaptureItem). j.created_at)) (
    keep-put item_key (λ j. j.session_id == session_id) i db.items
      (differ i.session_id session_id n) (λ j e. differ j.session_id session_id (h j e)))

-- Sessions do not bear on the items.
pub list_items-session :
    (s : CaptureSession) (db : CaptureDb) (session_id : String)
    → list_items (put_session s db) session_id ≡ list_items db session_id
unfolding list_items
list_items-session s db session_id = refl

pub some_inj : {A : Type 0} (a b : A) → some a ≡ some b → a ≡ b
some_inj a b h = cc

pub same_or_not : (a b : String) → (a ≡ b) ⊎ (a ≢ b)
same_or_not a b = elim (Bool-cases (a == b)) [
  | inl h ↦ inl ((eq_iff a b).0 h)
  | inr h ↦ inr (λ e. cc ((eq_iff a b).1 e, h))
]

-- A rolled-up session agrees, and the others are as they were.
rollup-Agrees :
    (o : Option CaptureSession) (session_id : String) (now : ℕ) (db : CaptureDb)
    → get_session db session_id ≡ o
    → ((other : String) (s : CaptureSession)
        → session_id ≢ other
        → get_session db other ≡ some s
        → Agrees db s other)
    → IsConsistent (update_rollup o session_id now db)
rollup-Agrees none session_id now db e h other s found = elim (same_or_not session_id other) [
  | inl same ↦ cc (ap (get_session db) same, e, found)
  | inr n ↦ h other s n found
]
rollup-Agrees (some t) session_id now db e h other s found =
    let next = rolled_up t (list_items db session_id) now in
    let t-key = get-key session_key session_id t db.sessions e in
    elim (same_or_not session_id other) [
      | inl same ↦
          let put_here = get-put session_key next other db.sessions (t-key ∙ same) in
          let is_next : next ≡ s = some_inj next s (sym put_here ∙ found) in
          subst (λ x. Agrees (put_session next db) x other) is_next
            (Agrees-items db (put_session next db) next session_id other
              (ap (list_items db) same ∙ sym (list_items-session next db other)) (refl, refl))
      | inr n ↦
          let before = get-put_other session_key next other db.sessions (λ k. n (sym t-key ∙ k)) in
          let was = h other s n (sym before ∙ found) in
          Agrees-items db (put_session next db) s other other
            (sym (list_items-session next db other)) was
    ]

pub update-IsConsistent :
    (session_id : String) (now : ℕ) (db : CaptureDb)
    → ((other : String) (s : CaptureSession)
        → session_id ≢ other
        → get_session db other ≡ some s
        → Agrees db s other)
    → IsConsistent (update_session_rollup session_id now db)
unfolding update_session_rollup
update-IsConsistent session_id now db h =
    rollup-Agrees (get_session db session_id) session_id now db refl h

mark_found-IsConsistent :
    (o : Option CaptureItem) (item_id : String) (status : CaptureSyncState) (extras : ItemExtras)
    (now rolled_at : ℕ) (db : CaptureDb)
    → get_item db item_id ≡ o
    → IsConsistent db
    → IsConsistent (mark_found o status extras now rolled_at db).1
mark_found-IsConsistent none item_id status extras now rolled_at db e c = c
mark_found-IsConsistent (some i) item_id status extras now rolled_at db e c =
    let next = with_status i extras status now in
    let i-key = get-key item_key item_id i db.items e in
    update-IsConsistent i.session_id rolled_at (put_item next db) (λ other s n found.
      Agrees-items db (put_item next db) s other other
        (sym (
          list_items-put next other db n (λ j f.
            let j-is : i ≡ j = some_inj i j (sym e ∙ (ap (get_item db) (sym i-key) ∙ f)) in
            λ q. n (ap (λ (k : CaptureItem). k.session_id) j-is ∙ q))))
        (c other s found))

-- A mark keeps the sessions in agreement with their items.
pub mark_item_status-IsConsistent :
    (item_id : String) (status : CaptureSyncState) (extras : ItemExtras) (now rolled_at : ℕ)
    (db : CaptureDb)
    → IsConsistent db
    → IsConsistent (mark_item_status item_id status extras now rolled_at db).1
unfolding mark_item_status
mark_item_status-IsConsistent item_id status extras now rolled_at db c =
    mark_found-IsConsistent (get_item db item_id) item_id status extras now rolled_at db refl c

-- A new session, under an id that no item names, is in agreement.
pub create_session-IsConsistent :
    (intent : Option CaptureRouteIntent) (principal : CapturePrincipalSnapshot) (id : String)
    (now : ℕ) (db : CaptureDb)
    → list_items db id ≡ []
    → IsConsistent db
    → IsConsistent (create_session intent principal id now db).1
unfolding create_session rollup_capture_session_status
create_session-IsConsistent intent principal id now db fresh c other s found =
    let next = new_session intent principal id now in
    elim (same_or_not id other) [
      | inl same ↦
          let put_here = get-put session_key next other db.sessions same in
          let is_next : next ≡ s = some_inj next s (sym put_here ∙ found) in
          let none_yet : list_items (put_session next db) other ≡ [] =
            list_items-session next db other ∙ (ap (list_items db) (sym same) ∙ fresh) in
          subst (λ x. Agrees (put_session next db) x other) is_next
            (
              sym (ap rollup_capture_session_status none_yet),
              sym (ap (map (λ (i : CaptureItem). i.id)) none_yet),
            )
      | inr n ↦
          let before = get-put_other session_key next other db.sessions n in
          Agrees-items db (put_session next db) s other other
            (sym (list_items-session next db other)) (c other s (sym before ∙ found))
    ]

-- The roll-up leaves the items alone.
rollup_items :
    (o : Option CaptureSession) (session_id : String) (now : ℕ) (db : CaptureDb)
    → (update_rollup o session_id now db).items ≡ db.items
rollup_items none session_id now db = refl
rollup_items (some s) session_id now db = refl

pub update_items :
    (session_id : String) (now : ℕ) (db : CaptureDb)
    → (update_session_rollup session_id now db).items ≡ db.items
unfolding update_session_rollup
update_items session_id now db = rollup_items (get_session db session_id) session_id now db
