-- ===== src/Examples.antt =====
-- The theorems applied at concrete inputs.
mod NetAddrRuns
mod AttrRuns
mod BgpRuns
mod PathRuns
mod U128Runs
mod TrieRuns
mod FilterRuns
