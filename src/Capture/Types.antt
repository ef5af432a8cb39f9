-- ===== src/Capture/Types.antt =====
-- src/app/lib/captureStore.ts and captureSyncState.ts: sessions and items.
use kerf_app.Common.{HasEq, List, Option, String, arith, index_eq, ℕ, ◌≡◌}

pub data CaptureSyncState : Type 0 where
  captured saved_on_phone syncing synced needs_attention failed : CaptureSyncState

abbrev pub sync_index : CaptureSyncState → ℕ
sync_index captured = 0
sync_index saved_on_phone = 1
sync_index syncing = 2
sync_index synced = 3
sync_index needs_attention = 4
sync_index failed = 5

pub sync_index_injective : (a b : CaptureSyncState) → sync_index a ≡ sync_index b → a ≡ b
sync_index_injective a b h = ground arith

instance abbrev pub sync_eq : HasEq CaptureSyncState
sync_eq = index_eq sync_index sync_index_injective

pub data CaptureRouteIntent : Type 0 where
  estimate_walk daily_log lead review : CaptureRouteIntent

pub data CaptureItemKind : Type 0 where
  photo video scan note : CaptureItemKind

pub record CaptureDestination : Type 0 where
  pub kind : String
  pub id : String

pub record CapturePrincipalSnapshot : Type 0 where
  pub tenant_id : String
  pub user_id : String

-- Of a `Blob` the code reads its size and its type.
pub record Blob : Type 0 where
  pub size : ℕ
  pub type : String

-- `null` is `none`.
pub record CaptureSession : Type 0 where
  pub id : String
  pub tenant_id : String
  pub user_id : String
  pub created_at : ℕ
  pub updated_at : ℕ
  pub route_intent : Option CaptureRouteIntent
  pub destination : Option CaptureDestination
  pub status : CaptureSyncState
  pub item_ids : List String

-- The metadata is carried along and not read: it is left out.
pub record CaptureItem : Type 0 where
  pub id : String
  pub session_id : String
  pub tenant_id : String
  pub user_id : String
  pub kind : CaptureItemKind
  pub blob : Blob
  pub name : String
  pub created_at : ℕ
  pub updated_at : ℕ
  pub status : CaptureSyncState
  pub error_reason : Option String
  pub server_ref : Option String

pub record AddCaptureItemInput : Type 0 where
  pub kind : CaptureItemKind
  pub blob : Blob
  pub name : String
