-- ===== src/LocalRules.antt =====
-- app/lib/rules/local_rules.ts: the rules that a block must meet by itself, and
-- app/lib/rules/index.ts, the order in which they are run.
pub mod Context
pub mod Documents
pub mod Unicity
pub mod Chaining
pub mod Txs
pub mod All
pub mod Depth
