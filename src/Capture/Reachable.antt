-- ===== src/Capture/Reachable.antt =====
-- The databases that the operations of src/app/lib/captureStore.ts lead to.
use kerf_app.Common.{Option, String, [], none, ℕ, ◌≡◌}
use kerf_app.Capture.Types.{
  AddCaptureItemInput, CaptureDestination, CapturePrincipalSnapshot, CaptureRouteIntent,
  CaptureSyncState,
}
use kerf_app.Capture.Database.{get}
use kerf_app.Capture.Store.{CaptureDb, create_session, get_item, list_items}
use kerf_app.Capture.ItemStore.{AddSeeds, ItemExtras, add_item, mark_item_status}
use kerf_app.Capture.Operations.{set_destination}
use kerf_app.Capture.StoreLaws.{
  IsConsistent, create_session-IsConsistent, mark_item_status-IsConsistent,
}
use kerf_app.Capture.AddLaws.{add_item-IsConsistent, set_destination-IsConsistent}

abbrev pub empty_db : CaptureDb
empty_db = record { sessions = []; items = [] }

-- Any sequence of operations from the empty database, in which the random ids are new.
-- `deleteSession` is not among them.
pub data Reachable : CaptureDb → Type 0 where
  started : Reachable empty_db
  after_create :
      {db : CaptureDb} (intent : Option CaptureRouteIntent) (principal : CapturePrincipalSnapshot)
      (id : String) (now : ℕ)
      → list_items db id ≡ []
      → Reachable db
      → Reachable (create_session intent principal id now db).1
  after_add :
      {db : CaptureDb} (session_id : String) (input : AddCaptureItemInput) (seeds : AddSeeds)
      → get_item db seeds.id ≡ none
      → Reachable db
      → Reachable (add_item session_id input seeds db).1
  after_mark :
      {db : CaptureDb} (item_id : String) (status : CaptureSyncState) (extras : ItemExtras)
      (now rolled_at : ℕ)
      → Reachable db
      → Reachable (mark_item_status item_id status extras now rolled_at db).1
  after_destination :
      {db : CaptureDb} (session_id : String) (destination : Option CaptureDestination) (now : ℕ)
      → Reachable db
      → Reachable (set_destination session_id destination now db).1

-- In every database that the creations, additions, marks and destinations lead to from the empty
-- one, with new random ids, each session has the roll-up of its items as its status and the ids of
-- its items, in the order of their creation, as its ids.
pub Reachable-IsConsistent : (db : CaptureDb) → Reachable db → IsConsistent db
unfolding get
Reachable-IsConsistent _ started other s found = cc
Reachable-IsConsistent _ (after_create intent principal id now fresh r) other s found =
    create_session-IsConsistent intent principal id now _ fresh (Reachable-IsConsistent _ r) other s
      found
Reachable-IsConsistent _ (after_add session_id input seeds fresh r) other s found =
    add_item-IsConsistent session_id input seeds _ fresh (Reachable-IsConsistent _ r) other s found
Reachable-IsConsistent _ (after_mark item_id status extras now rolled_at r) other s found =
    mark_item_status-IsConsistent item_id status extras now rolled_at _ (Reachable-IsConsistent _ r)
      other s found
Reachable-IsConsistent _ (after_destination session_id destination now r) other s found =
    set_destination-IsConsistent session_id destination now _ (Reachable-IsConsistent _ r) other s
      found
