-- ===== src/Lib.antt =====
-- Verification of the Hermez node: the encodings, signatures and identifiers of the rollup's
-- transactions, the account storage, the processor that applies the transactions of a batch, the
-- selector that chooses them, and the coordinator that forges it.
--
-- The parts and their files:
--   * Prelude, Bytes, Exec: shared names, big-endian numbers, and methods that change a state and may
--     return an error. An error keeps what was written before it, as in Go. Exec/Success takes a
--     chain of methods that returns without an error apart into its links; Exec/Ensures has one rule
--     for each way to build a method, for conditions that hold after a result and after an error.
--   * Crypto: the libraries that the node calls, as a parameter: point compression and Poseidon
--     (go-iden3-crypto) and the Merkle tree (go-merkletree). `CryptoLaws` are the laws relied on:
--     compression can be undone, Poseidon refuses what is outside the field, and no two inputs have
--     one hash. Tests/Instance has a concrete instance of them.
--   * Common/Ids: Idx, Nonce, TokenID, BatchNum (common/account.go, common/nonce/nonce.go,
--     common/token.go, common/batch.go).
--   * Common/Float40: common/float40.go. Common/Fee: common/fee.go, with the table of factors.
--   * Common/Account: the account leaf (common/account.go). Common/Tx: the transactions and `SetType`
--     (common/tx.go, common/l1tx.go, common/l2tx.go, common/pooll2tx.go).
--   * Common/Codec: the bytes of transactions in the data availability and in the calls of the contract
--     (common/l1tx.go, common/l2tx.go, common/utils.go), and `VerifySignature` of
--     common/accountcreationauths.go. Common/Signing: the compressed data, `HashToSign` and the
--     identifiers (common/pooll2tx.go, common/l1tx.go, common/l2tx.go).
--   * KvDb: the key-value database with its checkpoints (db/kvdb/kvdb.go), over any content.
--   * StateDb: the state database (db/statedb/statedb.go, db/statedb/utils.go). StateDb/Tree is the
--     storage of accounts, used for the state and for the exit tree: an index leads to the hash of a
--     leaf, a hash to the leaf's bytes.
--   * TxProcessor: txprocessor/txprocessor.go. State has its fields and `createAccount`,
--     `updateAccount`; Effective `computeEffectiveAmounts`; Apply `applyTransfer`, `applyDeposit`,
--     `applyCreateAccount`, `applyCreateAccountDepositTransfer`; Exit `applyExit`; Process
--     `ProcessL1Tx`, `ProcessL2Tx`, `CheckEnoughBalance`; Batch `ProcessTxs`.
--   * TxSelector: txselector/txselector.go, errors.go and `RequestOffset2RelativePosition` of
--     api/atomicpool.go. State has the data and the capacity tests; Pick a monad for the body of the
--     loop of `processL2Txs`, with its `continue`, its failed group and its error; Receiver
--     `coordAccountForTokenID`, `processTxToEthAddrBJJ`, `checkPendingToCreateFutureTxs`; Step
--     `processL2Txs`; Groups the filters of atomic groups, `isAtomicGroupValid` and the average fee;
--     Sort `sortL2Txs`; Selection `getL1L2TxSelection`. The selector runs the processor over its
--     StateDb, and goes back to a checkpoint of it where an atomic group fails. Pick/Leads has one rule
--     for each way to build a body, Step/Accounts and Step/Walk walk the body, and Step/Loop the loop; Capacity,
--     Partition and Whole are invariants of that walk.
--   * Coordinator: Coordinator/Slots has the slots of the auction (common/ethauction.go, common/bid.go)
--     and `canForge` (coordinator/coordinator.go), Coordinator/Queue the queue of batches
--     (coordinator/txmanager.go), Coordinator/Purger the times of the purges (coordinator/purger.go).
--     Coordinator/Pipeline has the policies and `forgeBatch` of coordinator/pipeline.go, its child Reset
--     `reset`, and its child Loops the two goroutines of `Start`, which interleave as a list of events.
--     Coordinator/Messages has `syncStats`, `handleMsgSyncBlock`, `handleReorg` and
--     `handleStopPipeline` (coordinator/coordinator.go).
--   * Tests: concrete runs.
--
-- A Go method on a pointer is a function from the state to a result and a state. A map is an
-- association list, a big.Int a natural number: an amount is never negative, and where the source
-- subtracts and tests the sign, the test comes first. Wrap-around of a fixed width is written out.
-- The loops over digits in Float40 are recursive on the accessibility of `<`. Two loops of the
-- selector have fuel: the selection loop one unit for each transaction and one more, since an
-- iteration that goes on selects one, and the restarts one for each transaction of the pool and one
-- more, since each takes a group with a transaction away. Every other loop is recursive on its list.
--
-- What the selector takes from outside of the source is a parameter: the pool and the authorizations
-- in the L2 database, the arithmetic and order of floats, `sort.Slice` and the order of a loop over a
-- map. `Permutes` says what is relied on: the last two permute. So are the signatures of go-ethereum
-- (`EthSigner`), `Keccak256Hash`, with the range and the lack of collisions that `HashLaws` states,
-- `LeftPadBytes`, and what the coordinator calls: `PipelineOps` and `CoordinatorOps` are methods on a
-- state of their own, and so is `ResetOps`; of all of these nothing is relied on. The share of the
-- timeout after which an L1 batch is due, a product of floats, is a function that is a parameter.
--
-- Not modelled: the circuit inputs (`zki`, the BatchBuilder's type), Merkle proofs, the I/O errors
-- of Pebble, logging, metrics and the texts of messages, runs that a context cuts off; and the
-- coordinator's transactions to the contract with their receipts, the synchronizer, the SQL
-- databases, the Ethereum client, the API and the node around them.
pub mod Prelude
pub mod Bytes
pub mod Exec
pub mod Crypto
pub mod Common
pub mod KvDb
pub mod StateDb
pub mod TxProcessor
pub mod TxSelector
pub mod Coordinator
pub mod Tests
