-- ===== src/Capture.antt =====
-- Captures that a phone keeps and uploads (src/app/lib/captureStore.ts, captureUploadQueue.ts).
pub mod Types
pub mod Database
pub mod Store
pub mod ItemStore
pub mod Operations
pub mod Rollup
pub mod StoreLaws
pub mod AddLaws
pub mod Reachable
pub mod Queue
pub mod QueueLaws
pub mod UploadLaws
pub mod DeleteLaws
mod Examples
