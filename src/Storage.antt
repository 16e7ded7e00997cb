-- ===== src/Storage.antt =====
-- main/storage_engine.h and main/storage_engine.c: the index of events in memory, their files on
-- LittleFS, and the copy of the index in NVS. Each operation runs under the engine's mutex, so a
-- call is one step.
pub mod Types
pub mod Persist
pub mod Ops
pub mod Sweep
pub mod Query
pub mod Numbering
pub mod Invariant
pub mod Content
pub mod Saving
pub mod Deleting
pub mod Keeping
pub mod Presence
pub mod Keepsake
pub mod Matches
pub mod Cleanup
pub mod Purge
pub mod Compaction
pub mod Expiry
pub mod Answers
pub mod Searching
pub mod Chunks
pub mod Recovery
pub mod Tests
pub mod NvsTests
mod FlushTests
