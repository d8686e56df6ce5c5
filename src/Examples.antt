-- ===== src/Examples.antt =====
-- The theorems at concrete inputs: maps and sets, identifiers, texts, and what stands around them.
mod Maps
mod Texts
mod Screens
mod Threads
mod Edits
mod Sites
mod Files
mod Orders
mod Systems
mod Projects
