-- ===== src/Tests.antt =====
-- Runs on concrete blocks, transactions and rows, and the theorems applied to them.
mod Sample
mod Transfers
mod Heads
mod Blocks
mod Objects
mod Forks
mod Locals
mod Whole
mod Money
mod Keys
mod Exclusions
mod Stored
