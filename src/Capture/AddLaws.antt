-- ===== src/Capture/AddLaws.antt =====
-- What `addItem`, `setDestination` and `deleteSession` of src/app/lib/captureStore.ts do.
use kerf_app.Common.{
  Option, String, ap, if◌then◌else◌, inl, inr, nat_beq, nat_beq_iff, none, not, number_eq, refl,
  some, subst, sym, text_eq, true, unless_not, ℕ, ◌∙◌, ◌≡◌, ◌≢◌, ◌⊎◌,
}
use kerf_app.Capture.Types.{
  AddCaptureItemInput, CaptureDestination, CaptureItem, CaptureSession, saved_on_phone, sync_eq,
}
use kerf_app.Capture.Database.{get, get-key, get-put, get-put_other, put}
use kerf_app.Capture.Store.{
  CaptureDb, get_item, get_session, item_key, list_items, put_item, put_session, session_key,
  update_session_rollup,
}
use kerf_app.Capture.ItemStore.{
  AddOutcome, AddSeeds, add_item, add_to_session, added, capture_readback_failed,
  capture_session_not_found, captured_item, no_extras, save_confirmed, session_with_item, thrown,
  with_status,
}
use kerf_app.Capture.Operations.{set_destination, set_on, with_destination}
use kerf_app.Capture.StoreLaws.{
  Agrees, Agrees-items, IsConsistent, list_items-put, list_items-session, same_or_not, some_inj,
  update-IsConsistent, update_items,
}

module _ (s : CaptureSession) (input : AddCaptureItemInput) (seeds : AddSeeds) where
  -- The item as it is first written, and as it is saved.
  abbrev pub first_item : CaptureItem
  first_item = captured_item s input seeds

  abbrev pub saved_item : CaptureItem
  saved_item = with_status first_item no_extras saved_on_phone seeds.saved_at

  abbrev pub written : CaptureDb → CaptureDb
  written db = put_session (session_with_item s first_item.id seeds.now) (put_item first_item db)

  -- The readback finds the item that was written, with the size of the input.
  pub save_confirmed-added :
      (session_id : String) (db : CaptureDb)
      → save_confirmed session_id input seeds (written db) (get_item (written db) first_item.id) ≡ (
        added saved_item,
        update_session_rollup session_id seeds.rolled_at (put_item saved_item (written db)),
      )
  save_confirmed-added session_id db =
      let found : get_item (written db) first_item.id ≡ some first_item =
        get-put item_key first_item first_item.id db.items refl in
      let size : nat_beq input.blob.size input.blob.size ≡ true =
        (nat_beq_iff input.blob.size input.blob.size).1 refl in
      ap (λ o. save_confirmed session_id input seeds (written db) o) found
      ∙ ap
          (λ b. if not b then (thrown capture_readback_failed, written db) else (
            added saved_item,
            update_session_rollup session_id seeds.rolled_at (put_item saved_item (written db)),
          ))
          size

-- The item that `addItem` returns and stores for a session, an input and the ids and times it takes.
pub record IsSaved (s : CaptureSession) (input : AddCaptureItemInput) (seeds : AddSeeds)
    (j : CaptureItem) : Type 0 where
  pub on_phone : j.status ≡ saved_on_phone
  pub clean : (j.error_reason ≡ none) × (j.server_ref ≡ none)
  pub times : (j.created_at ≡ seeds.now) × (j.updated_at ≡ seeds.saved_at)
  pub ids :
      (j.id ≡ seeds.id)
      × (j.session_id ≡ s.id)
      × (j.tenant_id ≡ s.tenant_id)
      × (j.user_id ≡ s.user_id)
  pub content : (j.kind ≡ input.kind) × (j.blob ≡ input.blob) × (j.name ≡ input.name)

-- On a session that is there `addItem` never throws: the readback finds what was written. It returns
-- the item of the input, for the session's tenant and user, as saved on the phone, without an error
-- and without a reference of the server, stores it under the new id and leaves every other item as it
-- was. On a session that is not there it throws, and nothing changes.
pub add_item-added :
    (session_id other : String) (input : AddCaptureItemInput) (seeds : AddSeeds) (db : CaptureDb)
    → let r = add_item session_id input seeds db in
      ((get_session db session_id ≡ none) × (r ≡ (thrown capture_session_not_found, db)))
      ⊎ ((s : CaptureSession) × (j : CaptureItem) × (get_session db session_id ≡ some s)
          × (r.0 ≡ added j)
          × IsSaved s input seeds j
          × (get_item r.1 seeds.id ≡ some j)
          × ((seeds.id ≡ other) ⊎ (get_item r.1 other ≡ get_item db other)))
unfolding add_item
add_item-added session_id other input seeds db = by_session (get_session db session_id) refl
  where
    by_session :
        (o : Option CaptureSession)
        → get_session db session_id ≡ o
        → let r = add_to_session o session_id input seeds db in
          ((get_session db session_id ≡ none) × (r ≡ (thrown capture_session_not_found, db)))
          ⊎ ((s : CaptureSession) × (j : CaptureItem) × (get_session db session_id ≡ some s)
              × (r.0 ≡ added j)
              × IsSaved s input seeds j
              × (get_item r.1 seeds.id ≡ some j)
              × ((seeds.id ≡ other) ⊎ (get_item r.1 other ≡ get_item db other)))
    by_session none e = inl (e, refl)
    by_session (some s) e =
        let saved = saved_item s input seeds in
        let first = first_item s input seeds in
        let done = save_confirmed-added s input seeds session_id db in
        let same =
          ap (λ (r : AddOutcome × CaptureDb). r.1.items) done
          ∙ update_items session_id seeds.rolled_at (put_item saved (written s input seeds db)) in
        inr (
          s,
          saved,
          e,
          ap (λ (r : AddOutcome × CaptureDb). r.0) done,
          record {
            on_phone = refl;
            clean = (refl, refl);
            times = (refl, refl);
            ids = (refl, refl, refl, refl);
            content = (refl, refl, refl);
          },
          ap (λ items. get item_key items seeds.id) same
              ∙ get-put item_key saved seeds.id (put item_key first db.items) refl,
          unless_not seeds.id other (λ n.
              ap (λ items. get item_key items other) same
              ∙ get-put_other item_key saved other (put item_key first db.items) n
              ∙ get-put_other item_key first other db.items n),
        )

add-IsConsistent :
    (session_id : String) (s : CaptureSession) (input : AddCaptureItemInput) (seeds : AddSeeds)
    (db : CaptureDb)
    → get_session db session_id ≡ some s
    → get_item db seeds.id ≡ none
    → IsConsistent db
    → IsConsistent (
        update_session_rollup session_id seeds.rolled_at
          (put_item (saved_item s input seeds) (written s input seeds db)))
add-IsConsistent session_id s input seeds db e fresh c =
    let i = first_item s input seeds in
    let with_id = session_with_item s i.id seeds.now in
    let s-key = get-key session_key session_id s db.sessions e in
    update-IsConsistent session_id seeds.rolled_at
      (put_item (saved_item s input seeds) (written s input seeds db))
      (λ other t n found.
        let elsewhere : s.id ≢ other = λ h. n (sym s-key ∙ h) in
        let before = get-put_other session_key with_id other db.sessions elsewhere in
        let again =
          list_items-put (saved_item s input seeds) other (written s input seeds db) elsewhere
            (λ j f.
              let j-is : i ≡ j = some_inj i j (sym (get-put item_key i i.id db.items refl) ∙ f) in
              λ q. elsewhere (ap (λ (k : CaptureItem). k.session_id) j-is ∙ q)) in
        let session = list_items-session with_id (put_item i db) other in
        let once = list_items-put i other db elsewhere (λ j f. absurd (cc (fresh, f))) in
        Agrees-items db (put_item (saved_item s input seeds) (written s input seeds db)) t other
          other (sym (again ∙ (session ∙ once))) (c other t (sym before ∙ found)))

add_to_session-IsConsistent :
    (o : Option CaptureSession) (session_id : String) (input : AddCaptureItemInput)
    (seeds : AddSeeds) (db : CaptureDb)
    → get_session db session_id ≡ o
    → get_item db seeds.id ≡ none
    → IsConsistent db
    → IsConsistent (add_item session_id input seeds db).1
unfolding add_item
add_to_session-IsConsistent none session_id input seeds db e fresh c =
    subst (λ o. IsConsistent (add_to_session o session_id input seeds db).1) (sym e) c
add_to_session-IsConsistent (some s) session_id input seeds db e fresh c =
    subst (λ (r : AddOutcome × CaptureDb). IsConsistent r.1)
      (sym (
        ap (λ o. add_to_session o session_id input seeds db) e
        ∙ save_confirmed-added s input seeds session_id db))
      (add-IsConsistent session_id s input seeds db e fresh c)

-- A new item, under an id that is not in use, keeps the sessions in agreement with their items.
pub add_item-IsConsistent :
    (session_id : String) (input : AddCaptureItemInput) (seeds : AddSeeds) (db : CaptureDb)
    → get_item db seeds.id ≡ none
    → IsConsistent db
    → IsConsistent (add_item session_id input seeds db).1
add_item-IsConsistent session_id input seeds db fresh c =
    add_to_session-IsConsistent (get_session db session_id) session_id input seeds db refl fresh c

set_on-IsConsistent :
    (o : Option CaptureSession) (session_id : String) (destination : Option CaptureDestination)
    (now : ℕ) (db : CaptureDb)
    → get_session db session_id ≡ o
    → IsConsistent db
    → IsConsistent (set_on o destination now db).1
set_on-IsConsistent none session_id destination now db e c other t found = c other t found
set_on-IsConsistent (some s) session_id destination now db e c other t found =
    let next = with_destination s destination now in
    let s-key = get-key session_key session_id s db.sessions e in
    elim (same_or_not session_id other) [
      | inl same ↦
          let put_here = get-put session_key next other db.sessions (s-key ∙ same) in
          let is_next : next ≡ t = some_inj next t (sym put_here ∙ found) in
          subst (λ x. Agrees (put_session next db) x other) is_next
            (Agrees-items db (put_session next db) next session_id other
              (ap (list_items db) same ∙ sym (list_items-session next db other)) (c session_id s e))
      | inr n ↦
          let before = get-put_other session_key next other db.sessions (λ k. n (sym s-key ∙ k)) in
          Agrees-items db (put_session next db) t other other
            (sym (list_items-session next db other)) (c other t (sym before ∙ found))
    ]

-- A destination keeps the sessions in agreement with their items.
pub set_destination-IsConsistent :
    (session_id : String) (destination : Option CaptureDestination) (now : ℕ) (db : CaptureDb)
    → IsConsistent db
    → IsConsistent (set_destination session_id destination now db).1
unfolding set_destination
set_destination-IsConsistent session_id destination now db c =
    set_on-IsConsistent (get_session db session_id) session_id destination now db refl c
