-- ===== src/Engine.antt =====
-- runtime/engine.cpp: what the loops of the engine do with a transfer.
pub mod Retry
pub mod Budget
pub mod Files
pub mod Local
pub mod Reads
pub mod Copies
pub mod Delivered
pub mod Ends
mod Tests
