-- ===== src/Lib.antt =====
-- Serai: an exchange of coins of several networks, run by validators. The core of the program is a
-- set of state machines. The pallets of the chain (substrate/) keep the coins and the votes of the
-- validators. The coordinator (coordinator/) runs a chain of its own for each validator set, the
-- tributary, on a Tendermint consensus. The processor (processor/) holds the keys of the external
-- networks and schedules which outputs are spent on which payments. The chain's burns become the
-- scheduler's payments, and the tributary orders what the coordinators of a set tell each other.
--
-- Common and its children hold the shared helpers: Boolean tests and an equality interface (Tests),
-- lists measured by native numbers (Lists), key-value storage as association lists (Maps), calls
-- that return, fail or panic and leave a state (Outcomes), machine integers (Words), and bytes that
-- are written and read (Codecs).
--
-- Primitives   substrate/primitives/src/: networks, coins and balances.
-- Coins        substrate/coins/pallet/src/lib.rs. Types holds the storage items; Coins the functions
--              of the pallet under their names; Calls the dispatchable calls as one entry. Supply
--              and Invariant say when a storage is sound; Mint, Transfers and Genesis are about the
--              operations of these names.
-- Signals      substrate/signals/pallet/src/lib.rs, in the same layout. Types has what it reads of
--              substrate/validator-sets/pallet/src/lib.rs. Tally, Locking and Calls are about the
--              tallies, the lock of a retirement and the calls.
-- Scheduler    processor/src/multisigs/scheduler.rs. Execute, Outputs, Schedule and Created hold
--              `execute`, `add_outputs`, `schedule` with `consume_payments`, and `created_output`.
--              A state is the scheduler in memory with the one in the database. Ledger, Branching
--              and Planning are about `execute`, Conservation about `schedule`, Amortizing about
--              `created_output`. Encoding has `serialize`, `read` and `from_db`, and
--              `read` and `write` of processor/src/plan.rs; its Payments and RoundTrip are
--              about them.
-- Tendermint   coordinator/tributary/tendermint/src/: Types (lib.rs), Weighing (ext.rs), Log
--              (message_log.rs), Rounds (time.rs, round.rs, block.rs), Machine and Handler (lib.rs:
--              the machine with its timeouts, and `message`). Quorums, Logged, Times and Sending are
--              about the parts; Deciding, Finality, over Overlap, Voting and Blame about the handler;
--              Evidence about evidence, with `verify_tendermint_evience`.
-- Tributary    coordinator/tributary/src/: Types (transaction.rs), Block (block.rs), Mempool
--              (mempool.rs), Chain (provided.rs and blockchain.rs). Ordering and Counting are about
--              them.
-- ValidatorSets substrate/validator-sets/pallet/src/lib.rs: the allocations and the handover. Types
--              holds the storage items; Sorting is about the sorted view of the allocations, Deallocating
--              and Unlocking about the stake taken back. Selecting has `new_set`, with the reduction of
--              key shares in primitives/; Reducing, Shares and Chosen are about it.
-- InInstructions substrate/in-instructions/pallet/src/lib.rs, with the types of primitives/. It mints
--              by the coins and retires sets by ValidatorSets; the exchange is a record of two calls,
--              which are taken to move coins by transfers of the coins pallet (Trading).
--              Accepting, Sequence and Executing are about what is validated, in which order, and
--              what the execution does.
-- MessageQueue message-queue/src/queue.rs and main.rs; Delivery is about what is queued and fetched.
-- Cosign       coordinator/src/substrate/cosign.rs and coordinator/src/cosign_evaluator.rs. Cosign has
--              the functions of the first, Evaluator those of the second; Types holds the database
--              and what the chain's node answers. Events, Window, Cosigners, Scanning and Advance
--              are about the choice of the block to cosign and of its cosigners, Asking and Answers
--              about that it returns; Quorum is about the latest cosigned block, Handling, Keeping,
--              Distinct and Restart about received cosigns.
-- Each component's Samples has concrete inputs.
--
-- Keys, hashes, signatures and addresses are numbers, which the code only compares. Integers are
-- native numbers with the wrap-around of release builds written out. A hash map is an association
-- list; where the code iterates over one, the list's order stands for the unspecified one. An
-- `assert!`, an `unwrap` or a missing key is a panic, an outcome of its own.
--
-- Loops are by recursion on their list, or on the number of their rounds where the code fixes it.
-- The two that are not are on fuel: the loop of `execute` is
-- given one more than the number of payments, and `created_output` takes its fuel as an argument.
-- The chunks of outputs are given the number of outputs, and each takes one at least.
--
-- Not modelled: other encodings, signatures and hashes, which are parameters where the code relies
-- on them; the networking and the asynchronous loops; the wallets of the external networks and the
-- cryptography; the other pallets, with the exchange, which is a copy of Substrate's; the rotation
-- of validator sets and the setting of their keys; the coordinator's own handling of transactions;
-- its loop over blocks to cosign, 1,000 at a time, and the tasks and the sleeping of the cosign
-- evaluator.
pub mod Common
pub mod MessageQueue
pub mod Primitives
pub mod Coins
pub mod Scheduler
pub mod Signals
pub mod Tendermint
pub mod Tributary
pub mod ValidatorSets
pub mod InInstructions
pub mod Cosign
