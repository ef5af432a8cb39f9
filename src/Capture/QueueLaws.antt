-- ===== src/Capture/QueueLaws.antt =====
-- What the upload queue of src/app/lib/captureUploadQueue.ts counts, and what it leaves stored.
use kerf_app.Common.{
  Bool, List, Option, String, [], ap, arith, false, if◌then◌else◌, inl, inr, is_some, keep, leb,
  none, not, number_eq, refl, some, subst, sym, text_eq, true, ℕ, ◌+◌, ◌==◌, ◌||◌, ◌∷◌, ◌≡◌, ◌≢◌,
  ◌⊎◌,
}
use kerf_app.Common.Text.{is_nonempty}
use kerf_app.Capture.Types.{
  CaptureItem, CapturePrincipalSnapshot, CaptureSession, CaptureSyncState, failed, sync_eq, synced,
  syncing,
}
use kerf_app.Capture.Store.{get_session, list_items}
use kerf_app.Capture.ItemStore.{ItemExtras, no_extras}
use kerf_app.Capture.Operations.{list_pending, sessions_of, with_reason}
use kerf_app.Capture.StoreLaws.{IsConsistent, mark_item_status-IsConsistent}
use kerf_app.Capture.Queue.{
  Network, QueueOutcome, QueueState, Reply, Tally, UploadResult, answered, answered_null,
  count_call, count_result, fail_upload, finished, is_retryable, mark_and_tell, network_error,
  no_tally, not_listed, outcome_of, process_capture_upload_queue, process_item, process_items,
  process_pending, process_session, process_sessions, receive, refused, send, skip_one, stopped,
  synced_extras, upload_failed, upload_item, upload_skipped, upload_synced, upload_threw,
}

-- Some request is answered with a body that is `null`.
abbrev HasNullBody : Network → Type 0
HasNullBody net = (n : ℕ) × (net.fetch n ≡ answered_null)

-- The attempts are the uploads and the failures.
abbrev IsBalanced : Tally → Type 0
IsBalanced t = t.attempted ≡ t.synced_items + t.failed_items

-- The counters are in balance, or an upload threw on a body that is `null`.
abbrev IsTallied : Network → Tally → Type 0
IsTallied net t = ((t.threw ≡ false) × IsBalanced t) ⊎ ((t.threw ≡ true) × HasNullBody net)

abbrev IsSound : Network → Tally × QueueState → Type 0
IsSound net tq = IsTallied net tq.0 × IsConsistent tq.1.db

-- An upload that was not skipped, threw at most on a body that is `null`, and left the sessions in
-- agreement.
abbrev IsAttempt : Network → UploadResult × QueueState → Type 0
IsAttempt net r =
    (r.0 ≢ upload_skipped) × ((r.0 ≢ upload_threw) ⊎ HasNullBody net) × IsConsistent r.1.db

tell-IsConsistent :
    (net : Network) (item_id : String) (status : CaptureSyncState) (extras : ItemExtras)
    (q : QueueState)
    → IsConsistent q.db
    → IsConsistent (mark_and_tell net item_id status extras q).db
tell-IsConsistent net item_id status extras q c =
    mark_item_status-IsConsistent item_id status extras (net.clock q.ticks)
      (net.clock (q.ticks + 1)) q.db c

fail-IsAttempt :
    (net : Network) (item_id reason : String) (q : QueueState)
    → IsConsistent q.db
    → IsAttempt net (fail_upload net item_id reason q)
fail-IsAttempt net item_id reason q c =
    (λ e. cc, inl (λ e. cc), tell-IsConsistent net item_id failed (with_reason reason) q c)

-- What holds of both branches holds of the conditional.
pub choose : {A : Type 0} (P : A → Type 0) (b : Bool) (x y : A) → P x → P y → P (if b then x else y)
choose P true x y px py = px
choose P false x y px py = py

-- An early return, and what follows it under its test.
guard :
    {A : Type 0} (P : A → Type 0) (b : Bool) (x y : A)
    → P x
    → (b ≡ true → P y)
    → P (if not b then x else y)
guard P true x y px py = py refl
guard P false x y px py = px

-- Two guards that let pass.
passes_both :
    {A : Type 0} (P : A → Type 0) (a b : Bool) (x y z : A)
    → a ≡ true
    → b ≡ true
    → P z
    → P (if not a then x else if not b then y else z)
passes_both P true true x y z ha hb pz = pz
passes_both P true false x y z ha hb pz = cc
passes_both P false b x y z ha hb pz = cc

receive-IsAttempt :
    (net : Network) (item_id : String) (n : ℕ) (reply : Reply) (q : QueueState)
    → net.fetch n ≡ reply
    → IsConsistent q.db
    → IsAttempt net (receive net item_id reply q)
receive-IsAttempt net item_id n (network_error message) q e c =
    fail-IsAttempt net item_id message q c
receive-IsAttempt net item_id n (refused status) q e c = fail-IsAttempt net item_id _ q c
receive-IsAttempt net item_id n (answered none) q e c = fail-IsAttempt net item_id _ q c
receive-IsAttempt net item_id n (answered (some r)) q e c =
    choose (IsAttempt net) (not (is_nonempty r))
      (fail_upload net item_id "missing_server_receipt" q)
      (upload_synced, mark_and_tell net item_id synced (synced_extras r) q)
      (fail-IsAttempt net item_id _ q c)
      (λ e. cc, inl (λ e. cc), tell-IsConsistent net item_id synced (synced_extras r) q c)
receive-IsAttempt net item_id n answered_null q e c = (λ e. cc, inr (n, e), c)

send-IsAttempt :
    (net : Network) (item_id : String) (q : QueueState)
    → IsConsistent q.db
    → IsAttempt net (send net item_id q)
unfolding send
send-IsAttempt net item_id q c =
    receive-IsAttempt net item_id q.calls (net.fetch q.calls)
      (count_call (mark_and_tell net item_id syncing no_extras q)) refl
      (tell-IsConsistent net item_id syncing no_extras q c)

upload_item-IsAttempt :
    (net : Network) (s : CaptureSession) (i : CaptureItem) (q : QueueState)
    → is_some s.destination ≡ true
    → is_retryable i.status ≡ true
    → IsConsistent q.db
    → IsAttempt net (upload_item net s i q)
unfolding upload_item
upload_item-IsAttempt net s i q d r c =
    let P = IsAttempt net in
    let sent =
      choose P (not net.on_line) (fail_upload net i.id "offline" q) (send net i.id q)
        (fail-IsAttempt net i.id _ q c) (send-IsAttempt net i.id q c) in
    let checked =
      choose P (leb i.blob.size 0) (fail_upload net i.id "blob_missing" q) _
        (fail-IsAttempt net i.id _ q c) sent in
    passes_both P _ _ _ _ _ d r checked

count-IsTallied :
    (net : Network) (r : UploadResult) (t : Tally)
    → r ≢ upload_skipped
    → (r ≢ upload_threw) ⊎ HasNullBody net
    → t.threw ≡ false
    → IsBalanced t
    → IsTallied net (count_result r t)
count-IsTallied net upload_synced t n o e h = inl (e, omega arith)
count-IsTallied net upload_failed t n o e h = inl (e, omega arith)
count-IsTallied net upload_skipped t n o e h = absurd (n refl)
count-IsTallied net upload_threw t n (inl calm) e h = absurd (calm refl)
count-IsTallied net upload_threw t n (inr null) e h = inr (refl, null)

-- Where no upload threw the loops go on, from counters in balance.
going_on :
    (net : Network) (tq more : Tally × QueueState)
    → IsSound net tq
    → (tq.0.threw ≡ false → IsBalanced tq.0 → IsSound net more)
    → IsSound net (if tq.0.threw then tq else more)
going_on net tq more (inl (e, h), c) f =
    subst (λ b. IsSound net (if b then tq else more)) (sym e) (f e h)
going_on net tq more (inr (e, null), c) f =
    subst (λ b. IsSound net (if b then tq else more)) (sym e) (inr (e, null), c)

process_item-IsSound :
    (net : Network) (s : CaptureSession) (i : CaptureItem) (tq : Tally × QueueState)
    → is_some s.destination ≡ true
    → IsSound net tq
    → IsSound net (process_item net s i tq)
unfolding process_item
process_item-IsSound net s i tq d h =
    let up = upload_item net s i tq.1 in
    going_on net tq _ h (λ e b.
      guard (IsSound net) (is_retryable i.status) (skip_one tq.0, tq.1)
        (count_result up.0 tq.0, up.1) (inl (e, b), h.1)
        (λ r.
          let (attempt, threw, c) = upload_item-IsAttempt net s i tq.1 d r h.1 in
          (count-IsTallied net up.0 tq.0 attempt threw e b, c)))

process_items-IsSound :
    (net : Network) (s : CaptureSession) (items : List CaptureItem) (tq : Tally × QueueState)
    → is_some s.destination ≡ true
    → IsSound net tq
    → IsSound net (process_items net s items tq)
unfolding process_items
process_items-IsSound net s [] tq d h = h
process_items-IsSound net s (i ∷ rest) tq d h =
    process_items-IsSound net s rest _ d (process_item-IsSound net s i tq d h)

process_session-IsSound :
    (net : Network) (o : Option CaptureSession) (tq : Tally × QueueState)
    → IsSound net tq
    → IsSound net (process_session net o tq)
unfolding process_session
process_session-IsSound net none tq h = going_on net tq _ h (λ e b. (inl (e, b), h.1))
process_session-IsSound net (some s) tq h = going_on net tq _ h (λ e b.
    guard (IsSound net) (is_some s.destination) (skip_one tq.0, tq.1)
      (process_items net s (list_items tq.1.db s.id) tq) (inl (e, b), h.1)
      (λ d. process_items-IsSound net s (list_items tq.1.db s.id) tq d h))

process_sessions-IsSound :
    (net : Network) (sessions : List CaptureSession) (tq : Tally × QueueState)
    → IsSound net tq
    → IsSound net (process_sessions net sessions tq)
unfolding process_sessions
process_sessions-IsSound net [] tq h = h
process_sessions-IsSound net (s ∷ rest) tq h =
    process_sessions-IsSound net rest _
      (process_session-IsSound net (get_session tq.1.db s.id) tq h)

pending_lem :
    {A : Type 0} (a b : Bool) (x : A)
    → a ≡ true
    → b ≡ true
    → (if not a || not b then none else some x) ≡ some x
pending_lem a b x ha hb = ground arith

-- How the queue ends for a principal that may list its sessions.
abbrev pub IsSoundEnd : Network → QueueOutcome → Type 0
IsSoundEnd net not_listed = ⊥
IsSoundEnd net (stopped q) = HasNullBody net × IsConsistent q.db
IsSoundEnd net (finished t q) = IsBalanced t × IsConsistent q.db

outcome-IsSoundEnd :
    (net : Network) (tq : Tally × QueueState) → IsSound net tq → IsSoundEnd net (outcome_of tq)
outcome-IsSoundEnd net tq (inl (e, h), c) =
    subst (λ b. IsSoundEnd net (if b then stopped tq.1 else finished tq.0 tq.1)) (sym e) (h, c)
outcome-IsSoundEnd net tq (inr (e, null), c) =
    subst (λ b. IsSoundEnd net (if b then stopped tq.1 else finished tq.0 tq.1)) (sym e) (null, c)

-- For every principal that has a tenant and a user the queue returns its counters, unless some
-- request is answered with a body that is `null`, on which it stops with an exception. When it
-- returns, each attempt was counted either as synced or as failed, so that none was skipped. Either
-- way it leaves each session with the roll-up of its items when they had it before.
pub process_queue-IsSound :
    (net : Network) (principal : CapturePrincipalSnapshot) (q : QueueState)
    → is_nonempty principal.tenant_id ≡ true
    → is_nonempty principal.user_id ≡ true
    → IsConsistent q.db
    → IsSoundEnd net (process_capture_upload_queue net principal q)
unfolding process_capture_upload_queue list_pending
process_queue-IsSound net principal q ht hu c =
    let sessions =
      keep (λ (s : CaptureSession). not (s.status == synced)) (sessions_of q.db principal) in
    let listed : list_pending q.db principal ≡ some sessions =
      pending_lem (is_nonempty principal.tenant_id) (is_nonempty principal.user_id) sessions ht
        hu in
    subst (IsSoundEnd net) (sym (ap (λ o. process_pending net o q) listed)) (
      outcome-IsSoundEnd net (process_sessions net sessions (no_tally, q))
        (process_sessions-IsSound net sessions (no_tally, q) (inl (refl, refl), c)))
