-- ===== src/Config.antt =====
-- src/config.cpp: the options of a client, from the environment, from the program and for one path.
pub mod Names
pub mod Builder
pub mod Snapshot
pub mod Values
pub mod Headers
pub mod Freeze
pub mod Rules
pub mod Layers
pub mod Spellings
pub mod Changes
pub mod Invariant
pub mod Limits
mod Tests
