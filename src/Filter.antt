-- ===== src/Filter.antt =====
-- The filter machine: src/ubgp/filterpacket.c, filterpacket.h, filterintrin.c and filterintrin.h.
pub mod State
pub mod Basic
pub mod Access
pub mod Packet
pub mod Paths
pub mod Segments
pub mod Opcodes
pub mod Machine
pub mod Loop
pub mod Frame
pub mod FrameBasic
pub mod FramePacket
pub mod FramePaths
pub mod FrameExec
pub mod FrameJump
pub mod Safety
pub mod Dispatch
pub mod Returns
pub mod PathMatch
pub mod PathSearch
pub mod Exargs
pub mod Emit
pub mod Answers
pub mod Open
pub mod Settling
