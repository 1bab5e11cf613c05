-- ===== src/Bgp.antt =====
-- BGP messages: src/ubgp/bgp.c.
pub mod State
pub mod Message
pub mod Fields
pub mod Write
pub mod Read
pub mod Open
pub mod Create
pub mod Finish
pub mod Append
pub mod Prefixes
pub mod Decode
pub mod Lists
pub mod Update
pub mod RoundTrip
pub mod Attribs
pub mod Seek
pub mod Scan
pub mod Search
pub mod Lookup
pub mod Growth
pub mod Parameters
pub mod Path
pub mod Hops
pub mod Communities
pub mod CommunityWalk
pub mod PathStep
pub mod PathWalk
pub mod PathMerge
pub mod PathReal
pub mod PathStart
