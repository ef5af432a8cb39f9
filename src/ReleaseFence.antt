-- ===== src/ReleaseFence.antt =====
-- Whether a line component may be released for ordering, fabrication or installation
-- (src/releaseFence).
pub mod Types
pub mod Fence
pub mod Component
pub mod FenceTests
pub mod FenceLaws
pub mod Demands
mod Examples
