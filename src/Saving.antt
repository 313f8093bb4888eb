-- ===== src/Saving.antt =====
-- src/TaskRestore.cpp: what the node saves of its decoders, windows and sounds as JSON, and how it is
-- read back.
pub mod Json
pub mod Info
pub mod Write
pub mod Read
pub mod Fits
pub mod Parts
pub mod RoundTrip
pub mod Third
pub mod Entries
pub mod Windows
pub mod Restart
pub mod Tree
pub mod Tests
