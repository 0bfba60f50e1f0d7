-- ===== src/Lib.antt =====
-- Duniter: the rules that make a block valid and the state that a valid block computes.
--
-- A block is a list of documents. `Indexer.localIndex` turns it into rows of four indexes
-- (identities, memberships, certifications, sources); the local rules test the block and its rows
-- alone; `Indexer.completeGlobalScope` computes the HEAD of the block from the stored HEADs and
-- completes the rows from the stored ones; the rules on the completed block accept or refuse it
-- (`DuniterBlockchain.checkBlock`); stored rows of one key are read as what they reduce to.
--
-- Base: lists, Boolean tests, signed integers, results that may be errors (a thrown error is
-- `throw`), and the floating-point operations of the engine as a record that the formulas take.
-- Transactions: app/lib/dto/TransactionDTO.ts; Transactions/Amounts is `checkTxAmountsValidity` of
-- app/lib/rules/local_rules.ts.
-- Block: app/lib/dto/BlockDTO.ts and the documents in a block, as the objects that `fromInline` gives.
-- Index: the rows of app/lib/indexer.ts; Index/Local is `localIndex` and `localSIndex`.
-- Head: app/lib/db/DBHead.ts; Head/Issuers, Head/Difficulty and Head/Dividend are the `prepare...`
-- methods of app/lib/indexer.ts (BR_G01 to BR_G18), Head/Complete is the part of
-- `completeGlobalScope` that calls them.
-- GlobalRules: the `rule...` methods of app/lib/indexer.ts (BR_G49 to BR_G90, BR_G98, BR_G101,
-- BR_G103, BR_G108); GlobalRules/Check is the part of `DuniterBlockchain.checkBlock`
-- (app/lib/blockchain/DuniterBlockchain.ts) that runs them.
-- Enrichment: the rest of `completeGlobalScope`, which completes the rows of the block from the store:
-- Enrichment/Identities, Memberships, Certifications and Sources take the rules of one index each
-- (BR_G19 to BR_G48, BR_G102, BR_G107), Enrichment/Distance is `checkPeopleAreNotOudistanced`, and
-- Enrichment/Complete is the whole of `checkBlock`: local rows, local rules, HEAD, completed rows,
-- rules. The store is the record IndexDal, as far as the rules ask it. Web of trust, signatures and
-- the native `sourceIsUnlockable` are parameters.
-- Unlock: app/lib/common-libs/txunlock.ts and `evalParams` of app/lib/rules/global_rules.ts. The parser
-- that jison builds from the grammar is a parameter; what its actions compute is the evaluation of
-- the expression that it reads.
-- Dividends: app/lib/dal/indexDAL/common/DividendDaoHandler.ts, the dividends of one member;
-- Dividends/Table is app/lib/dal/indexDAL/leveldb/LevelDBDividend.ts, the table of all of them, with
-- `updateDividend` of app/lib/dal/fileDAL.ts.
-- Wallets: `updateWallets` of DuniterBlockchain, the wallets of app/lib/dal/fileDAL.ts, and the steps
-- of `saveBlockData` and `revertBlock` that move money.
-- LocalRules: app/lib/rules/local_rules.ts; LocalRules/All is the two sequences of
-- app/lib/rules/index.ts.
-- Switcher: app/lib/blockchain/Switcher.ts; Switcher/Suites is `findPotentialSuites` and `tryToFork`. Its
-- data access object is the interface that the source declares; what the blockchain behind it
-- promises is the record IsBlockchain of Switcher/Trials.
-- Records: `reduce`, `reduceOrNull`, `reduceForDBTrimming` and `reduceBy` of app/lib/indexer.ts.
-- Generated: the rows on identities, memberships and certifications that a block adds by itself
-- (BR_G92 to BR_G96 of app/lib/indexer.ts), in the order of `generateIndexes` of
-- app/lib/dal/fileDAL.ts. The views that the exclusions read stand for the rows.
-- Storing: `updateBlocksComputedVars`, `requiredBindexSizeForTail` and the bound of `trimIndexes` of
-- DuniterBlockchain.
-- Tests: runs on concrete data, and the theorems at concrete inputs.
--
-- State and numbers. A function that mutates its HEAD gives the new HEAD back; one that pushes rows
-- gives the list of rows back. Whole JavaScript numbers are exact: natural numbers, or integers where
-- the code may go below zero; amounts are meant below 2^53, where the engine is exact. The operations
-- on fractions (division, logarithm, rounding) are parameters; the laws of them that the theorems on
-- the personalized difficulty take as a hypothesis are the record EngineLaws of Head/Handicap. Hashes
-- and signatures are parameters as well; the hash of a HEAD, which the code computes again from the
-- block, is a value of its own beside the hash that the block announces.
--
-- Bounds. The loops are structural recursions on lists. `getTransactionDepth` calls itself while its
-- depth is below 5: the model counts the levels left from 5 down, so it needs no fuel. The loop on
-- the unit bases counts from 0 to the largest base of the outputs. The walk down from a candidate in
-- `findPotentialSuites` is given `forkWindowSize` rounds: each goes one number down, and the loop stops
-- at that distance from the candidate. The loop of `unconsumeDividends` has one round more than there
-- are consumptions: each removes one, and the last finds none. The grouping of `reduceBy` lists the
-- groups in the order of their first row: an engine would put identifiers that read as whole numbers
-- first, which those of the callers are not.
--
-- Not modelled: of the rows that are generated after a block, the garbage of small accounts and the
-- dates of expiry (BR_G97, BR_G104 to BR_G106); in `saveBlockData` and `revertBlock`, the members and
-- links of the web of trust, the trimming of the stored rows and the clean-up of the sandboxes; the
-- rules on single documents of the sandboxes; `checkGrammar`. The engines of the databases, the
-- network, the proof-of-work engine, the HTTP API and the command line are mostly input and output.
pub mod Base
pub mod Block
pub mod Dividends
pub mod Enrichment
pub mod Generated
pub mod GlobalRules
pub mod Head
pub mod Index
pub mod LocalRules
pub mod Records
pub mod Storing
pub mod Switcher
pub mod Tests
pub mod Transactions
pub mod Unlock
pub mod Wallets
