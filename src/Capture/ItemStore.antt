-- ===== src/Capture/ItemStore.antt =====
-- src/app/lib/captureStore.ts: `addItem` and `markItemStatus`.
use kerf_app.Common.{
  Option, String, [], if◌then◌else◌, nat_beq, none, not, or_else, some, ℕ, ◌++◌, ◌∷◌,
}
use kerf_app.Capture.Types.{
  AddCaptureItemInput, CaptureItem, CaptureSession, CaptureSyncState, captured, saved_on_phone,
}
use kerf_app.Capture.Store.{
  CaptureDb, get_item, get_session, put_item, put_session, update_session_rollup,
}

pub data AddError : Type 0 where
  capture_session_not_found capture_readback_failed : AddError

-- The item, or the error that is thrown.
pub data AddOutcome : Type 0 where
  added : CaptureItem → AddOutcome
  thrown : AddError → AddOutcome

-- The ids and times that `addItem` takes: a new id, and three readings of the clock.
pub record AddSeeds : Type 0 where
  pub id : String
  pub now : ℕ
  pub saved_at : ℕ
  pub rolled_at : ℕ

abbrev pub captured_item : CaptureSession → AddCaptureItemInput → AddSeeds → CaptureItem
captured_item s input seeds = record {
  id = seeds.id;
  session_id = s.id;
  tenant_id = s.tenant_id;
  user_id = s.user_id;
  kind = input.kind;
  blob = input.blob;
  name = input.name;
  created_at = seeds.now;
  updated_at = seeds.now;
  status = captured;
  error_reason = none;
  server_ref = none;
}

abbrev pub session_with_item : CaptureSession → String → ℕ → CaptureSession
session_with_item s item_id now = record {
  id = s.id;
  tenant_id = s.tenant_id;
  user_id = s.user_id;
  created_at = s.created_at;
  updated_at = now;
  route_intent = s.route_intent;
  destination = s.destination;
  status = captured;
  item_ids = s.item_ids ++ item_id ∷ [];
}

-- What an update of an item may change, where a missing key keeps the value that is there.
pub record ItemExtras : Type 0 where
  pub error_reason : Option (Option String)
  pub server_ref : Option (Option String)

-- `{ ...item, ...extras, status, updated_at }`
abbrev pub with_status : CaptureItem → ItemExtras → CaptureSyncState → ℕ → CaptureItem
with_status i extras status now = record {
  id = i.id;
  session_id = i.session_id;
  tenant_id = i.tenant_id;
  user_id = i.user_id;
  kind = i.kind;
  blob = i.blob;
  name = i.name;
  created_at = i.created_at;
  updated_at = now;
  status = status;
  error_reason = or_else extras.error_reason i.error_reason;
  server_ref = or_else extras.server_ref i.server_ref;
}

abbrev pub no_extras : ItemExtras
no_extras = record { error_reason = none; server_ref = none }

-- The part of `addItem` after the item is read back.
abbrev pub save_confirmed :
    String
    → AddCaptureItemInput
    → AddSeeds
    → CaptureDb
    → Option CaptureItem
    → AddOutcome × CaptureDb
save_confirmed session_id input seeds db none = (thrown capture_readback_failed, db)
save_confirmed session_id input seeds db (some confirmed) =
    let saved = with_status confirmed no_extras saved_on_phone seeds.saved_at in
    if not (nat_beq confirmed.blob.size input.blob.size)
    then (thrown capture_readback_failed, db)
    else (added saved, update_session_rollup session_id seeds.rolled_at (put_item saved db))

-- `addItem`, on the session that was read.
abbrev pub add_to_session :
    Option CaptureSession
    → String
    → AddCaptureItemInput
    → AddSeeds
    → CaptureDb
    → AddOutcome × CaptureDb
add_to_session none session_id input seeds db = (thrown capture_session_not_found, db)
add_to_session (some s) session_id input seeds db =
    let i = captured_item s input seeds in
    let written = put_session (session_with_item s i.id seeds.now) (put_item i db) in
    save_confirmed session_id input seeds written (get_item written i.id)

unfoldable pub add_item :
    String → AddCaptureItemInput → AddSeeds → CaptureDb → AddOutcome × CaptureDb
add_item session_id input seeds db =
    add_to_session (get_session db session_id) session_id input seeds db

-- `markItemStatus`, on the item that was read.
abbrev pub mark_found :
    Option CaptureItem
    → CaptureSyncState
    → ItemExtras
    → ℕ
    → ℕ
    → CaptureDb
    → Option CaptureItem × CaptureDb
mark_found none status extras now rolled_at db = (none, db)
mark_found (some i) status extras now rolled_at db =
    let next = with_status i extras status now in
    (some next, update_session_rollup i.session_id rolled_at (put_item next db))

unfoldable pub mark_item_status :
    String → CaptureSyncState → ItemExtras → ℕ → ℕ → CaptureDb → Option CaptureItem × CaptureDb
mark_item_status item_id status extras now rolled_at db =
    mark_found (get_item db item_id) status extras now rolled_at db
