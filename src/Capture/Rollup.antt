-- ===== src/Capture/Rollup.antt =====
-- What `rollupCaptureSessionStatus` of src/app/lib/captureStore.ts says of the items.
use kerf_app.Common.{
  All, Bool, Bool-cases, List, Member, [], all, all-Member, any_iff, ap, arith, false,
  if◌then◌else◌, inl, inr, is_empty, number_eq, refl, sym, text_eq, true, ↔-trans, ◌==◌, ◌||◌, ◌↔◌,
  ◌∙◌, ◌∷◌, ◌≡◌, ◌≢◌,
}
use kerf_app.Capture.Types.{
  CaptureItem, CaptureSyncState, captured, failed, needs_attention, saved_on_phone, sync_eq, synced,
  syncing,
}
use kerf_app.Capture.Store.{rollup_capture_session_status, some_status}

-- What the roll-up says of the items.
abbrev pub Has : CaptureSyncState → List CaptureItem → Type 0
Has status items = (i : CaptureItem) × Member i items × (i.status ≡ status)

some_status_iff :
    (status : CaptureSyncState) (items : List CaptureItem)
    → (some_status status items ≡ true) ↔ Has status items
some_status_iff status items =
    any_iff (λ (i : CaptureItem). i.status == status) (λ i. sync_eq.eqb_iff i.status status) items

-- The chain of tests of the roll-up.
abbrev cascade : Bool → Bool → Bool → Bool → Bool → CaptureSyncState
cascade f a s c y =
    if f
    then failed
    else if a
    then needs_attention
    else if s
    then syncing
    else if c
    then captured
    else if y
    then synced
    else saved_on_phone

cascade_failed : (f a s c y : Bool) → (cascade f a s c y ≡ failed) ↔ (f ≡ true)
cascade_failed f a s c y = ground arith

cascade_synced : (f a s e c y : Bool) → cascade f a s (e || c) y ≡ synced → (e ≡ false) × (y ≡ true)
cascade_synced f a s e c y h = ground arith

none_of :
    (status : CaptureSyncState) (items : List CaptureItem)
    → synced ≢ status
    → all (λ (i : CaptureItem). i.status == synced) items ≡ true
    → some_status status items ≡ false
none_of status items n every = elim (Bool-cases (some_status status items)) [
  | inl h ↦
      let (i, m, is) = (some_status_iff status items).0 h in
      let i-synced =
        (sync_eq.eqb_iff i.status synced).0
          (all-Member (λ (j : CaptureItem). j.status == synced) i items every m) in
      absurd (n (sym i-synced ∙ is))
  | inr h ↦ h
]

all_synced_iff :
    (items : List CaptureItem)
    → (all (λ (i : CaptureItem). i.status == synced) items ≡ true)
      ↔ All (λ (i : CaptureItem). i.status ≡ synced) items
all_synced_iff [] = (λ h. tt, λ h. refl)
all_synced_iff (i ∷ rest) = ground (arith, sync_eq.eqb_iff i.status synced, all_synced_iff rest)

-- The roll-up is `failed` exactly when some item failed. It is `synced` exactly when there are items
-- and each of them is synced.
pub rollup-truth :
    (items : List CaptureItem)
    → ((rollup_capture_session_status items ≡ failed) ↔ Has failed items)
      × ((rollup_capture_session_status items ≡ synced)
          ↔ ((items ≢ []) × All (λ (i : CaptureItem). i.status ≡ synced) items))
unfolding rollup_capture_session_status
rollup-truth items = (
  ↔-trans (cascade_failed (some_status failed items) _ _ _ _) (some_status_iff failed items),
  (
    λ h.
        let (nonempty, y) =
          cascade_synced _ _ _ (is_empty items) (some_status captured items) _ h in
        (λ e. cc (ap is_empty e, nonempty), (all_synced_iff items).0 y),
    λ (nonempty, each).
        let every = (all_synced_iff items).1 each in
        rw (none_of failed items (λ e. cc) every) (
          rw (none_of needs_attention items (λ e. cc) every) (
            rw (none_of syncing items (λ e. cc) every) (
              rw (filled items nonempty)
                (rw (none_of captured items (λ e. cc) every) (rw every refl))))),
  ),
)
  where
    filled : (xs : List CaptureItem) → xs ≢ [] → is_empty xs ≡ false
    filled [] n = absurd (n refl)
    filled (x ∷ xs) n = refl
