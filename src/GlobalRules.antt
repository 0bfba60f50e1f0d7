-- ===== src/GlobalRules.antt =====
-- app/lib/indexer.ts, the rules BR_G49 to BR_G90, BR_G98, BR_G101, BR_G103 and BR_G108 that a block
-- must meet once its index rows are completed, and `DuniterBlockchain.checkBlock`, which runs them.
pub mod Context
pub mod Rows
pub mod ProofOfWork
pub mod Check
pub mod Passed
pub mod ValidRows
pub mod Accepted
