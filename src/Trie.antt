-- ===== src/Trie.antt =====
-- The PATRICIA trie: src/ubgp/patriciatrie.c and src/ubgp/patriciatrie.h.
pub mod Store
pub mod Search
pub mod Shape
pub mod Exact
pub mod Insert
pub mod Remove
pub mod Best
pub mod Longest
pub mod Glue
pub mod Supernet
pub mod FreeList
pub mod Walk
