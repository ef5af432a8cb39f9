-- ===== src/Capture/UploadLaws.antt =====
-- What `markItemStatus` of src/app/lib/captureStore.ts stores, and when `uploadItem` of
-- captureUploadQueue.ts reports an upload.
use kerf_app.Common.{
  Bool, Option, String, ap, false, if◌then◌else◌, inl, inr, is_some, leb, none, not, number_eq,
  or_else, refl, some, subst, sym, text_eq, true, unless_not, ℕ, ◌+◌, ◌∙◌, ◌≡◌, ◌⊎◌,
}
use kerf_app.Common.Text.{is_nonempty}
use kerf_app.Capture.Types.{CaptureItem, CaptureSession, CaptureSyncState, sync_eq, synced, syncing}
use kerf_app.Capture.Database.{get, get-key, get-put, get-put_other}
use kerf_app.Capture.Store.{CaptureDb, get_item, item_key, put_item}
use kerf_app.Capture.ItemStore.{ItemExtras, mark_found, mark_item_status, no_extras, with_status}
use kerf_app.Capture.StoreLaws.{some_inj, update_items}
use kerf_app.Capture.Queue.{
  Network, QueueState, Reply, UploadResult, answered, answered_null, count_call, fail_upload,
  is_retryable, mark_and_tell, network_error, receive, refused, send, synced_extras, upload_item,
  upload_skipped, upload_synced,
}
use kerf_app.Capture.QueueLaws.{choose}

-- A field that is given has the given value, and one that is not keeps its old value.
abbrev IsUpdated : {A : Type 0} → Option A → A → A → Type 0
IsUpdated none old new = new ≡ old
IsUpdated (some given) old new = new ≡ given

-- The item after a mark: the status, the time and the extras are new, all else is as it was.
pub record IsMarked (i : CaptureItem) (status : CaptureSyncState) (extras : ItemExtras) (now : ℕ)
    (j : CaptureItem) : Type 0 where
  status_set : j.status ≡ status
  time_set : j.updated_at ≡ now
  reason_set : IsUpdated extras.error_reason i.error_reason j.error_reason
  reference_set : IsUpdated extras.server_ref i.server_ref j.server_ref
  same_ids :
      (j.id ≡ i.id)
      × (j.session_id ≡ i.session_id)
      × (j.tenant_id ≡ i.tenant_id)
      × (j.user_id ≡ i.user_id)
  same_content :
      (j.kind ≡ i.kind) × (j.blob ≡ i.blob) × (j.name ≡ i.name) × (j.created_at ≡ i.created_at)

or_else-IsUpdated : {A : Type 0} (o : Option A) (old : A) → IsUpdated o old (or_else o old)
or_else-IsUpdated none old = refl
or_else-IsUpdated (some given) old = refl

with_status-IsMarked :
    (i : CaptureItem) (status : CaptureSyncState) (extras : ItemExtras) (now : ℕ)
    → IsMarked i status extras now (with_status i extras status now)
with_status-IsMarked i status extras now = record {
  status_set = refl;
  time_set = refl;
  reason_set = or_else-IsUpdated extras.error_reason i.error_reason;
  reference_set = or_else-IsUpdated extras.server_ref i.server_ref;
  same_ids = (refl, refl, refl, refl);
  same_content = (refl, refl, refl, refl);
}

-- Marking an item that is there returns it with the new status and time, with the given extras and
-- with all else as it was, and stores it so under its id; every other item stays as it was. Marking an
-- item that is not there returns none and changes nothing.
pub mark_item_status-stored :
    (item_id other : String) (status : CaptureSyncState) (extras : ItemExtras) (now rolled_at : ℕ)
    (db : CaptureDb)
    → let r = mark_item_status item_id status extras now rolled_at db in
      ((get_item db item_id ≡ none) × (r ≡ (none, db)))
      ⊎ ((i : CaptureItem) × (j : CaptureItem) × (get_item db item_id ≡ some i)
          × (r.0 ≡ some j)
          × (get_item r.1 item_id ≡ some j)
          × IsMarked i status extras now j
          × ((item_id ≡ other) ⊎ (get_item r.1 other ≡ get_item db other)))
unfolding mark_item_status
mark_item_status-stored item_id other status extras now rolled_at db =
    by_item (get_item db item_id) refl
  where
    by_item :
        (o : Option CaptureItem)
        → get_item db item_id ≡ o
        → let r = mark_found o status extras now rolled_at db in
          ((get_item db item_id ≡ none) × (r ≡ (none, db)))
          ⊎ ((i : CaptureItem) × (j : CaptureItem) × (get_item db item_id ≡ some i)
              × (r.0 ≡ some j)
              × (get_item r.1 item_id ≡ some j)
              × IsMarked i status extras now j
              × ((item_id ≡ other) ⊎ (get_item r.1 other ≡ get_item db other)))
    by_item none e = inl (e, refl)
    by_item (some i) e =
        let next = with_status i extras status now in
        let i-key = get-key item_key item_id i db.items e in
        let same = update_items i.session_id rolled_at (put_item next db) in
        inr (
          i,
          next,
          e,
          refl,
          ap (λ items. get item_key items item_id) same
              ∙ get-put item_key next item_id db.items i-key,
          with_status-IsMarked i status extras now,
          unless_not item_id other (λ n.
              ap (λ items. get item_key items other) same
              ∙ get-put_other item_key next other db.items (λ k. n (sym i-key ∙ k))),
        )

-- The receipt of the server for a request.
abbrev pub HasReceipt : Reply → String → Type 0
HasReceipt reply ref = (reply ≡ answered (some ref)) × (is_nonempty ref ≡ true)

-- Where the result says that an item was synced, the request had a receipt, and what is stored
-- under the id of the item, if anything, is synced with the reference of that receipt.
abbrev IsHonest : Reply → String → UploadResult × QueueState → Type 0
IsHonest reply item_id r =
    r.0 ≡ upload_synced
    → (ref : String) × HasReceipt reply ref
      × ((j : CaptureItem)
          → get_item r.1.db item_id ≡ some j
          → (j.status ≡ synced) × (j.server_ref ≡ some ref) × (j.error_reason ≡ none))

stored_mark :
    (net : Network) (item_id ref : String) (q : QueueState) (j : CaptureItem)
    → get_item (mark_and_tell net item_id synced (synced_extras ref) q).db item_id ≡ some j
    → (j.status ≡ synced) × (j.server_ref ≡ some ref) × (j.error_reason ≡ none)
stored_mark net item_id ref q j e =
    elim (mark_item_status-stored item_id item_id synced (synced_extras ref) (net.clock q.ticks)
      (net.clock (q.ticks + 1)) q.db) [
        | inl (missing, same) ↦ absurd (
            cc (ap (λ (r : Option CaptureItem × CaptureDb). get_item r.1 item_id) same, missing, e))
        | inr (i, k, found, told, stored, marked, others) ↦
            subst
              (λ (l : CaptureItem).
                (l.status ≡ synced) × (l.server_ref ≡ some ref) × (l.error_reason ≡ none))
              (some_inj k j (sym stored ∙ e))
              (marked.status_set, marked.reference_set, marked.reason_set)
      ]

receive-IsHonest :
    (net : Network) (item_id : String) (reply : Reply) (q : QueueState)
    → IsHonest reply item_id (receive net item_id reply q)
receive-IsHonest net item_id (network_error message) q = λ e. cc
receive-IsHonest net item_id (refused status) q = λ e. cc
receive-IsHonest net item_id (answered none) q = λ e. cc
receive-IsHonest net item_id answered_null q = λ e. cc
receive-IsHonest net item_id (answered (some ref)) q = receipt (is_nonempty ref) refl
  where
    receipt :
        (b : Bool)
        → is_nonempty ref ≡ b
        → IsHonest (answered (some ref)) item_id (
            if not b
            then fail_upload net item_id "missing_server_receipt" q
            else (upload_synced, mark_and_tell net item_id synced (synced_extras ref) q))
    receipt true n = λ e. (ref, (refl, n), λ j f. stored_mark net item_id ref q j f)
    receipt false n = λ e. cc

send-IsHonest :
    (net : Network) (item_id : String) (q : QueueState)
    → IsHonest (net.fetch q.calls) item_id (send net item_id q)
unfolding send
send-IsHonest net item_id q =
    receive-IsHonest net item_id (net.fetch q.calls)
      (count_call (mark_and_tell net item_id syncing no_extras q))

upload_item-IsHonest :
    (net : Network) (s : CaptureSession) (i : CaptureItem) (q : QueueState)
    → IsHonest (net.fetch q.calls) i.id (upload_item net s i q)
unfolding upload_item
upload_item-IsHonest net s i q =
    let P = IsHonest (net.fetch q.calls) i.id in
    choose P (not (is_some s.destination)) (upload_skipped, q) _ (λ e. cc)
      (choose P (not (is_retryable i.status)) (upload_skipped, q) _ (λ e. cc)
        (choose P (leb i.blob.size 0) (fail_upload net i.id "blob_missing" q) _ (λ e. cc)
          (choose P (not net.on_line) (fail_upload net i.id "offline" q) (send net i.id q) (λ e. cc)
            (send-IsHonest net i.id q))))

-- `uploadItem` reports an upload only after an answer of the server with a nonempty reference.
-- What is then stored under the id of the item is marked as synced, with that reference and
-- without a reason of an error.
pub upload_item-receipt :
    (net : Network) (s : CaptureSession) (i : CaptureItem) (q : QueueState) (j : CaptureItem)
    → (upload_item net s i q).0 ≡ upload_synced
    → get_item (upload_item net s i q).1.db i.id ≡ some j
    → (ref : String) × HasReceipt (net.fetch q.calls) ref
      × (j.status ≡ synced)
      × (j.server_ref ≡ some ref)
      × (j.error_reason ≡ none)
upload_item-receipt net s i q j e f =
    let (ref, receipt, stored) = upload_item-IsHonest net s i q e in
    let (status, given, clear) = stored j f in (ref, receipt, status, given, clear)
