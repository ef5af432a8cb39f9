-- ===== src/Capture/Queue.antt =====
-- src/app/lib/captureUploadQueue.ts: the upload of what is pending. The network and the clock are
-- functions from the number of the call; `onItemStatus` is the list of the items it is called with.
use kerf_app.Common.{
  Bool, List, Option, String, [], false, if◌then◌else◌, is_some, leb, none, not, some, true, ℕ,
  ◌++◌, ◌+◌, ◌∷◌,
}
use kerf_app.Common.Text.{decimal, is_nonempty, ◌+++◌}
use kerf_app.Capture.Types.{
  CaptureItem, CapturePrincipalSnapshot, CaptureSession, CaptureSyncState, failed, saved_on_phone,
  synced, syncing,
}
use kerf_app.Capture.Store.{CaptureDb, get_session, list_items}
use kerf_app.Capture.ItemStore.{ItemExtras, mark_item_status, no_extras}
use kerf_app.Capture.Operations.{list_pending, with_reason}

-- What a request ends in: an exception with its message, an answer that is not ok, one that is ok and
-- whose body has a server reference or not, because it does not parse or lacks it, or one that is ok
-- and whose body is the value `null`.
pub data Reply : Type 0 where
  network_error : String → Reply
  refused : ℕ → Reply
  answered : Option String → Reply
  answered_null : Reply

pub record Network : Type 0 where
  pub fetch : ℕ → Reply
  pub clock : ℕ → ℕ
  pub on_line : Bool

pub record QueueState : Type 0 where
  pub db : CaptureDb
  pub calls : ℕ
  pub ticks : ℕ
  pub told : List CaptureItem

-- `upload_threw` is the exception on reading a body that is `null`.
pub data UploadResult : Type 0 where
  upload_synced upload_failed upload_skipped upload_threw : UploadResult

abbrev pub is_retryable : CaptureSyncState → Bool
is_retryable saved_on_phone = true
is_retryable failed = true
is_retryable syncing = true
is_retryable _ = false

-- `if (item) onItemStatus?.(item)`
abbrev pub tell : Option CaptureItem → List CaptureItem → List CaptureItem
tell none told = told
tell (some i) told = told ++ i ∷ []

-- A mark, which reads the clock twice, and the call of `onItemStatus` with what it returns.
abbrev pub mark_and_tell :
    Network → String → CaptureSyncState → ItemExtras → QueueState → QueueState
mark_and_tell net item_id status extras q =
    let marked =
      mark_item_status item_id status extras (net.clock q.ticks) (net.clock (q.ticks + 1)) q.db in
    record { db = marked.1; calls = q.calls; ticks = q.ticks + 2; told = tell marked.0 q.told }

abbrev pub fail_upload : Network → String → String → QueueState → UploadResult × QueueState
fail_upload net item_id reason q =
    (upload_failed, mark_and_tell net item_id failed (with_reason reason) q)

abbrev pub synced_extras : String → ItemExtras
synced_extras server_ref = record { error_reason = some none; server_ref = some (some server_ref) }

-- The part of `uploadItem` after the body is read.
abbrev pub finish_upload : Network → String → Option String → QueueState → UploadResult × QueueState
finish_upload net item_id none q = fail_upload net item_id "missing_server_receipt" q
finish_upload net item_id (some server_ref) q =
    if not (is_nonempty server_ref)
    then fail_upload net item_id "missing_server_receipt" q
    else (upload_synced, mark_and_tell net item_id synced (synced_extras server_ref) q)

-- The part of `uploadItem` after the request.
abbrev pub receive : Network → String → Reply → QueueState → UploadResult × QueueState
receive net item_id (network_error message) q = fail_upload net item_id message q
receive net item_id (refused status) q =
    fail_upload net item_id ("upload_failed_" +++ decimal status) q
receive net item_id (answered server_ref) q = finish_upload net item_id server_ref q
receive net item_id answered_null q = (upload_threw, q)

abbrev pub count_call : QueueState → QueueState
count_call q = record { db = q.db; calls = q.calls + 1; ticks = q.ticks; told = q.told }

-- The request itself, after the mark `syncing`.
unfoldable pub send : Network → String → QueueState → UploadResult × QueueState
send net item_id q =
    let marked = mark_and_tell net item_id syncing no_extras q in
    receive net item_id (net.fetch q.calls) (count_call marked)

unfoldable pub upload_item :
    Network → CaptureSession → CaptureItem → QueueState → UploadResult × QueueState
unfolding send
upload_item net session item q =
    if not (is_some session.destination)
    then (upload_skipped, q)
    else if not (is_retryable item.status)
    then (upload_skipped, q)
    else if leb item.blob.size 0
    then fail_upload net item.id "blob_missing" q
    else if not net.on_line
    then fail_upload net item.id "offline" q
    else send net item.id q

-- The counters, and whether an upload threw, which ends both loops.
pub record Tally : Type 0 where
  pub attempted : ℕ
  pub synced_items : ℕ
  pub failed_items : ℕ
  pub skipped : ℕ
  pub threw : Bool

abbrev pub skip_one : Tally → Tally
skip_one t = record {
  attempted = t.attempted;
  synced_items = t.synced_items;
  failed_items = t.failed_items;
  skipped = t.skipped + 1;
  threw = t.threw;
}

-- The count of an attempt with its result.
abbrev pub count_result : UploadResult → Tally → Tally
count_result upload_synced t = record {
  attempted = t.attempted + 1;
  synced_items = t.synced_items + 1;
  failed_items = t.failed_items;
  skipped = t.skipped;
  threw = t.threw;
}
count_result upload_failed t = record {
  attempted = t.attempted + 1;
  synced_items = t.synced_items;
  failed_items = t.failed_items + 1;
  skipped = t.skipped;
  threw = t.threw;
}
count_result upload_skipped t = record {
  attempted = t.attempted + 1;
  synced_items = t.synced_items;
  failed_items = t.failed_items;
  skipped = t.skipped + 1;
  threw = t.threw;
}
count_result upload_threw t = record t { attempted = t.attempted + 1; threw = true }

-- The body of the inner loop.
unfoldable pub process_item :
    Network → CaptureSession → CaptureItem → Tally × QueueState → Tally × QueueState
process_item net session item tq =
    let up = upload_item net session item tq.1 in
    if tq.0.threw
    then tq
    else if not (is_retryable item.status)
    then (skip_one tq.0, tq.1)
    else (count_result up.0 tq.0, up.1)

unfoldable pub process_items :
    Network → CaptureSession → List CaptureItem → Tally × QueueState → Tally × QueueState
process_items net session [] tq = tq
process_items net session (i ∷ rest) tq =
    process_items net session rest (process_item net session i tq)

-- The body of the outer loop, on the session that was read again.
unfoldable pub process_session :
    Network → Option CaptureSession → Tally × QueueState → Tally × QueueState
process_session net none tq = if tq.0.threw then tq else (skip_one tq.0, tq.1)
process_session net (some session) tq =
    let done = process_items net session (list_items tq.1.db session.id) tq in
    if tq.0.threw
    then tq
    else if not (is_some session.destination)
    then (skip_one tq.0, tq.1)
    else done

unfoldable pub process_sessions :
    Network → List CaptureSession → Tally × QueueState → Tally × QueueState
process_sessions net [] tq = tq
process_sessions net (s ∷ rest) tq =
    process_sessions net rest (process_session net (get_session tq.1.db s.id) tq)

abbrev pub no_tally : Tally
no_tally = record { attempted = 0; synced_items = 0; failed_items = 0; skipped = 0; threw = false }

-- The queue rejects with the error of `listPending`, it rejects with the exception of an upload, or it
-- returns the counters.
pub data QueueOutcome : Type 0 where
  not_listed : QueueOutcome
  stopped : QueueState → QueueOutcome
  finished : Tally → QueueState → QueueOutcome

abbrev pub outcome_of : Tally × QueueState → QueueOutcome
outcome_of tq = if tq.0.threw then stopped tq.1 else finished tq.0 tq.1

abbrev pub process_pending : Network → Option (List CaptureSession) → QueueState → QueueOutcome
process_pending net none q = not_listed
process_pending net (some sessions) q = outcome_of (process_sessions net sessions (no_tally, q))

unfoldable pub process_capture_upload_queue :
    Network → CapturePrincipalSnapshot → QueueState → QueueOutcome
process_capture_upload_queue net principal q = process_pending net (list_pending q.db principal) q
