-- ===== src/Collab.antt =====
-- The collaborators: what reads a buffer's notifications and answers with edits.
pub mod Latch
pub mod Regex
pub mod Fixit
pub mod Format
pub mod Files
pub mod Godbolt
pub mod Libclang
pub mod Terminal
pub mod Registry
pub mod Unsaved
pub mod Cursors
