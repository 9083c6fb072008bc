-- ===== src/Planner.antt =====
-- runtime/planner.cpp: the requests of a batch become transfers. Checks has what is tested of a request,
-- Merge how a transfer grows, and Transfers `plan_transfers`.
pub mod Checks
pub mod Merge
pub mod Transfers
pub mod Validate
pub mod Screen
pub mod Slices
pub mod Grow
pub mod Memory
pub mod Serves
pub mod Bounds
pub mod Limits
pub mod Success
mod Tests
