-- ===== src/Avl.antt =====
-- avl.h: persistent AVL trees.
pub mod Tree
pub mod Assoc
pub mod Entries
pub mod Balance
pub mod Map
pub mod Set
