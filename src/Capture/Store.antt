-- ===== src/Capture/Store.antt =====
-- src/app/lib/captureStore.ts: the operations on the two object stores. Each call of the clock and
-- each random id is an argument. Opening the database and awaiting a transaction are not modelled:
-- an operation either runs whole or reports the error that its own tests report.
use kerf_app.Common.{
  Bool, List, Option, String, [], all, any, if◌then◌else◌, is_empty, keep, leb, map, none,
  number_eq, some, text_eq, ℕ, ◌&&◌, ◌==◌, ◌||◌, ◌∷◌,
}
use kerf_app.Capture.Types.{
  CaptureItem, CapturePrincipalSnapshot, CaptureRouteIntent, CaptureSession, CaptureSyncState,
  captured, failed, needs_attention, saved_on_phone, sync_eq, synced, syncing,
}
use kerf_app.Capture.Database.{get, put}

pub record CaptureDb : Type 0 where
  pub sessions : List CaptureSession
  pub items : List CaptureItem

pub record PendingFilter : Type 0 where
  pub tenant_id : String
  pub user_id : String
  pub status : Option CaptureSyncState

abbrev pub session_key : CaptureSession → String
session_key s = s.id

abbrev pub item_key : CaptureItem → String
item_key i = i.id

-- `items.some((item) => item.status === s)`
abbrev pub some_status : CaptureSyncState → List CaptureItem → Bool
some_status s items = any (λ (i : CaptureItem). i.status == s) items

unfoldable pub rollup_capture_session_status : List CaptureItem → CaptureSyncState
rollup_capture_session_status items =
    if some_status failed items
    then failed
    else if some_status needs_attention items
    then needs_attention
    else if some_status syncing items
    then syncing
    else if is_empty items || some_status captured items
    then captured
    else if all (λ (i : CaptureItem). i.status == synced) items
    then synced
    else saved_on_phone

abbrev pub capture_session_belongs_to_principal : CaptureSession → CapturePrincipalSnapshot → Bool
capture_session_belongs_to_principal s principal =
    s.tenant_id == principal.tenant_id && s.user_id == principal.user_id

-- A stable sort by a number, as `sort` with a difference of numbers.
abbrev pub insert_by {ℓ} : {A : Type ℓ} → (A → ℕ) → A → List A → List A
insert_by f x [] = x ∷ []
insert_by f x (y ∷ ys) =
    let rest = insert_by f x ys in if leb (f x) (f y) then x ∷ y ∷ ys else y ∷ rest

abbrev pub sort_by {ℓ} : {A : Type ℓ} → (A → ℕ) → List A → List A
sort_by f [] = []
sort_by f (x ∷ xs) = insert_by f x (sort_by f xs)

-- The descending order of `listSessions`.
abbrev pub insert_desc {ℓ} : {A : Type ℓ} → (A → ℕ) → A → List A → List A
insert_desc f x [] = x ∷ []
insert_desc f x (y ∷ ys) =
    let rest = insert_desc f x ys in if leb (f y) (f x) then x ∷ y ∷ ys else y ∷ rest

abbrev pub sort_desc {ℓ} : {A : Type ℓ} → (A → ℕ) → List A → List A
sort_desc f [] = []
sort_desc f (x ∷ xs) = insert_desc f x (sort_desc f xs)

abbrev pub new_session :
    Option CaptureRouteIntent → CapturePrincipalSnapshot → String → ℕ → CaptureSession
new_session intent principal id now = record {
  id = id;
  tenant_id = principal.tenant_id;
  user_id = principal.user_id;
  created_at = now;
  updated_at = now;
  route_intent = intent;
  destination = none;
  status = captured;
  item_ids = [];
}

abbrev pub put_session : CaptureSession → CaptureDb → CaptureDb
put_session s db = record { sessions = put session_key s db.sessions; items = db.items }

abbrev pub put_item : CaptureItem → CaptureDb → CaptureDb
put_item i db = record { sessions = db.sessions; items = put item_key i db.items }

unfoldable pub create_session :
    Option CaptureRouteIntent
    → CapturePrincipalSnapshot
    → String
    → ℕ
    → CaptureDb
    → CaptureSession × CaptureDb
create_session intent principal id now db =
    let s = new_session intent principal id now in (s, put_session s db)

abbrev pub get_session : CaptureDb → String → Option CaptureSession
get_session db id = get session_key db.sessions id

abbrev pub get_item : CaptureDb → String → Option CaptureItem
get_item db id = get item_key db.items id

unfoldable pub list_items : CaptureDb → String → List CaptureItem
list_items db session_id =
    sort_by (λ (i : CaptureItem). i.created_at)
      (keep (λ (i : CaptureItem). i.session_id == session_id) db.items)

abbrev pub rolled_up : CaptureSession → List CaptureItem → ℕ → CaptureSession
rolled_up s items now = record {
  id = s.id;
  tenant_id = s.tenant_id;
  user_id = s.user_id;
  created_at = s.created_at;
  updated_at = now;
  route_intent = s.route_intent;
  destination = s.destination;
  status = rollup_capture_session_status items;
  item_ids = map (λ (i : CaptureItem). i.id) items;
}

-- `updateSessionRollup`, on the session that was read.
abbrev pub update_rollup : Option CaptureSession → String → ℕ → CaptureDb → CaptureDb
update_rollup none session_id now db = db
update_rollup (some s) session_id now db =
    put_session (rolled_up s (list_items db session_id) now) db

unfoldable pub update_session_rollup : String → ℕ → CaptureDb → CaptureDb
update_session_rollup session_id now db =
    update_rollup (get_session db session_id) session_id now db
