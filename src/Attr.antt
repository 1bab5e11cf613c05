-- ===== src/Attr.antt =====
-- Path attributes: the accessors of src/ubgp/bgpattribs.h and the builders of src/ubgp/bgpattribs.c. An
-- attribute is the block of memory that holds it and the offset `p` of its first byte.
pub mod Header
pub mod Build
pub mod Append
pub mod Communities
pub mod Multiprotocol
pub mod Fields
