-- ===== src/Capture/Examples.antt =====
-- The captures of src/app/lib on a concrete session.
use kerf_app.Common.{
  All, String, [], none, refl, some, suc, true, zero, ℕ, ◌+◌, ◌↔◌, ◌∷◌, ◌≡◌, ◌≢◌, ◌⊎◌,
}
use kerf_app.Capture.Types.{
  AddCaptureItemInput, CaptureItem, CapturePrincipalSnapshot, CaptureSession, daily_log, failed,
  photo, saved_on_phone, synced,
}
use kerf_app.Capture.Database.{get, put}
use kerf_app.Capture.Store.{
  CaptureDb, create_session, get_item, get_session, list_items, new_session,
  rollup_capture_session_status, update_session_rollup,
}
use kerf_app.Capture.ItemStore.{
  AddSeeds, add_item, added, capture_session_not_found, mark_item_status, thrown,
}
use kerf_app.Capture.Operations.{
  delete_session, list_pending, sessions_of, set_destination, with_destination, with_reason,
}
use kerf_app.Capture.StoreLaws.{IsConsistent}
use kerf_app.Capture.AddLaws.{IsSaved, add_item-added}
use kerf_app.Capture.Rollup.{Has, rollup-truth}
use kerf_app.Capture.Reachable.{
  Reachable, Reachable-IsConsistent, after_add, after_create, after_destination, empty_db, started,
}
use kerf_app.Capture.Queue.{
  Network, QueueState, Reply, answered, network_error, process_capture_upload_queue, process_item,
  process_items, process_session, process_sessions, send, upload_item,
}
use kerf_app.Capture.QueueLaws.{IsSoundEnd, process_queue-IsSound}
use kerf_app.Capture.UploadLaws.{HasReceipt, IsMarked, mark_item_status-stored, upload_item-receipt}
use kerf_app.Capture.DeleteLaws.{delete_session-gone}

-- Opens the store and the queue.
capture : Unit {0}
unfolding get put create_session add_item update_session_rollup list_items
    rollup_capture_session_status mark_item_status set_destination list_pending sessions_of
    upload_item send process_item process_items process_session process_sessions
    process_capture_upload_queue
capture = tt

abbrev ann : CapturePrincipalSnapshot
ann = record { tenant_id = "tenant_ggr"; user_id = "pm" }

abbrev picture : AddCaptureItemInput
picture = record { kind = photo; blob = record { size = 12; type = "image/png" }; name = "sill" }

abbrev seeds : AddSeeds
seeds = record { id = "i1"; now = 5; saved_at = 6; rolled_at = 7 }

abbrev with_session : CaptureDb
with_session = (create_session (some daily_log) ann "s1" 1 empty_db).1

abbrev with_item : CaptureDb
with_item = (add_item "s1" picture seeds with_session).1

abbrev with_destination_set : CaptureDb
with_destination_set =
    (set_destination "s1" (some (record { kind = "project"; id = "p1" })) 9 with_item).1

reached : Reachable with_destination_set
unfolding capture
reached =
    after_destination "s1" (some (record { kind = "project"; id = "p1" })) 9
      (after_add "s1" picture seeds refl (after_create (some daily_log) ann "s1" 1 refl started))

Reachable-IsConsistent_example : IsConsistent with_destination_set
Reachable-IsConsistent_example = Reachable-IsConsistent with_destination_set reached

abbrev saved : CaptureItem
saved = record {
  id = "i1";
  session_id = "s1";
  tenant_id = "tenant_ggr";
  user_id = "pm";
  kind = photo;
  blob = record { size = 12; type = "image/png" };
  name = "sill";
  created_at = 5;
  updated_at = 6;
  status = saved_on_phone;
  error_reason = none;
  server_ref = none;
}

add_item-added_example :
    let r = add_item "s1" picture seeds with_session in
    ((get_session with_session "s1" ≡ none)
      × (r ≡ (thrown capture_session_not_found, with_session)))
    ⊎ ((s : CaptureSession) × (j : CaptureItem) × (get_session with_session "s1" ≡ some s)
        × (r.0 ≡ added j)
        × IsSaved s picture seeds j
        × (get_item r.1 seeds.id ≡ some j)
        × ((seeds.id ≡ "i2") ⊎ (get_item r.1 "i2" ≡ get_item with_session "i2")))
add_item-added_example = add_item-added "s1" "i2" picture seeds with_session

rollup-truth_example :
    ((rollup_capture_session_status (saved ∷ []) ≡ failed) ↔ Has failed (saved ∷ []))
    × ((rollup_capture_session_status (saved ∷ []) ≡ synced)
        ↔ (((saved ∷ []) ≢ []) × All (λ (i : CaptureItem). i.status ≡ synced) (saved ∷ [])))
rollup-truth_example = rollup-truth (saved ∷ [])

mark_item_status-stored_example :
    let r = mark_item_status "i1" failed (with_reason "offline") 10 11 with_item in
    ((get_item with_item "i1" ≡ none) × (r ≡ (none, with_item)))
    ⊎ ((i : CaptureItem) × (j : CaptureItem) × (get_item with_item "i1" ≡ some i)
        × (r.0 ≡ some j)
        × (get_item r.1 "i1" ≡ some j)
        × IsMarked i failed (with_reason "offline") 10 j
        × ((◌≡◌ {A = String} "i1" "i2") ⊎ (get_item r.1 "i2" ≡ get_item with_item "i2")))
mark_item_status-stored_example =
    mark_item_status-stored "i1" "i2" failed (with_reason "offline") 10 11 with_item

-- A network that answers the first request and loses the others.
abbrev fetch_once : ℕ → Reply
fetch_once zero = answered (some "srv_1")
fetch_once (suc n) = network_error "network_failed"

abbrev net : Network
net = record { fetch = fetch_once; clock = λ n. 20 + n; on_line = true }

abbrev queue : QueueState
queue = record { db = with_destination_set; calls = 0; ticks = 0; told = [] }

process_queue-IsSound_example : IsSoundEnd net (process_capture_upload_queue net ann queue)
process_queue-IsSound_example =
    process_queue-IsSound net ann queue refl refl
      (Reachable-IsConsistent with_destination_set reached)

abbrev with_place : CaptureSession
with_place =
    with_destination (new_session (some daily_log) ann "s1" 1)
      (some (record { kind = "project"; id = "p1" })) 9

abbrev uploaded : CaptureItem
uploaded = record {
  id = "i1";
  session_id = "s1";
  tenant_id = "tenant_ggr";
  user_id = "pm";
  kind = photo;
  blob = record { size = 12; type = "image/png" };
  name = "sill";
  created_at = 5;
  updated_at = 22;
  status = synced;
  error_reason = none;
  server_ref = some "srv_1";
}

upload_item-receipt_example :
    (ref : String) × HasReceipt (answered (some "srv_1")) ref
    × (uploaded.status ≡ synced)
    × (uploaded.server_ref ≡ some ref)
    × (uploaded.error_reason ≡ none)
unfolding capture
upload_item-receipt_example = upload_item-receipt net with_place saved queue uploaded refl refl

delete_session-gone_example :
    let after = delete_session "s1" with_destination_set in
    (get_session after "s1" ≡ none)
    × (list_items after "s1" ≡ [])
    × ((◌≡◌ {A = String} "s1" "s2")
        ⊎ (get_session after "s2" ≡ get_session with_destination_set "s2"))
delete_session-gone_example = delete_session-gone "s1" "s2" with_destination_set
