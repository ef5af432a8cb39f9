-- ===== src/Capture/Operations.antt =====
-- src/app/lib/captureStore.ts: the lists, the marks, the destination and the deletion.
use kerf_app.Common.{
  List, Option, String, [], if◌then◌else◌, keep, none, not, number_eq, some, text_eq, ℕ, ◌==◌, ◌||◌,
  ◌∷◌,
}
use kerf_app.Common.Text.{is_nonempty}
use kerf_app.Capture.Types.{
  CaptureDestination, CaptureItem, CapturePrincipalSnapshot, CaptureSession, failed,
  needs_attention, sync_eq, synced, syncing,
}
use kerf_app.Capture.Database.{delete_key}
use kerf_app.Capture.Store.{
  CaptureDb, capture_session_belongs_to_principal, get_session, item_key, list_items, put_session,
  session_key, sort_desc,
}
use kerf_app.Capture.ItemStore.{ItemExtras, mark_item_status, no_extras}

-- `getAll`, `filter` and `sort` of `listSessions` with a principal alone.
unfoldable pub sessions_of : CaptureDb → CapturePrincipalSnapshot → List CaptureSession
sessions_of db principal =
    sort_desc (λ (s : CaptureSession). s.updated_at)
      (keep (λ s. capture_session_belongs_to_principal s principal) db.sessions)

-- `listPending`; `none` is the error `capture_principal_filter_missing`.
unfoldable pub list_pending : CaptureDb → CapturePrincipalSnapshot → Option (List CaptureSession)
unfolding sessions_of
list_pending db principal =
    if not (is_nonempty principal.tenant_id) || not (is_nonempty principal.user_id)
    then none
    else some (keep (λ (s : CaptureSession). not (s.status == synced)) (sessions_of db principal))

abbrev pub with_destination : CaptureSession → Option CaptureDestination → ℕ → CaptureSession
with_destination s destination now = record {
  id = s.id;
  tenant_id = s.tenant_id;
  user_id = s.user_id;
  created_at = s.created_at;
  updated_at = now;
  route_intent = s.route_intent;
  destination = destination;
  status = s.status;
  item_ids = s.item_ids;
}

abbrev pub set_on :
    Option CaptureSession
    → Option CaptureDestination
    → ℕ
    → CaptureDb
    → Option CaptureSession × CaptureDb
set_on none destination now db = (none, db)
set_on (some s) destination now db =
    let next = with_destination s destination now in (some next, put_session next db)

unfoldable pub set_destination :
    String → Option CaptureDestination → ℕ → CaptureDb → Option CaptureSession × CaptureDb
set_destination session_id destination now db =
    set_on (get_session db session_id) destination now db

abbrev pub mark_syncing : String → ℕ → ℕ → CaptureDb → Option CaptureItem × CaptureDb
mark_syncing item_id now rolled_at db = mark_item_status item_id syncing no_extras now rolled_at db

abbrev pub mark_synced : String → String → ℕ → ℕ → CaptureDb → Option CaptureItem × CaptureDb
mark_synced item_id server_ref now rolled_at db =
    mark_item_status item_id synced
      (record { error_reason = some none; server_ref = some (some server_ref) }) now rolled_at db

abbrev pub with_reason : String → ItemExtras
with_reason reason = record { error_reason = some (some reason); server_ref = none }

abbrev pub mark_needs_attention :
    String → String → ℕ → ℕ → CaptureDb → Option CaptureItem × CaptureDb
mark_needs_attention item_id reason now rolled_at db =
    mark_item_status item_id needs_attention (with_reason reason) now rolled_at db

abbrev pub mark_failed : String → String → ℕ → ℕ → CaptureDb → Option CaptureItem × CaptureDb
mark_failed item_id reason now rolled_at db =
    mark_item_status item_id failed (with_reason reason) now rolled_at db

abbrev pub delete_items : List CaptureItem → List CaptureItem → List CaptureItem
delete_items [] items = items
delete_items (i ∷ rest) items = delete_items rest (delete_key item_key i.id items)

unfoldable pub delete_session : String → CaptureDb → CaptureDb
delete_session id db = record {
  sessions = delete_key session_key id db.sessions;
  items = delete_items (list_items db id) db.items;
}
