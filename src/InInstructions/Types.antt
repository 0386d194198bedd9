-- ===== src/InInstructions/Types.antt =====
-- substrate/in-instructions/pallet/src/lib.rs: the storage items, the events and the errors, and the
-- types of substrate/in-instructions/primitives/src/lib.rs.
use serai.Common.{ℕ, Bool, List, Map, Action}
use serai.Primitives.{NetworkId, Coin, Balance, network_eq}
use serai.Coins
use serai.ValidatorSets

pub data OutAddress : Type 0 where
  native : ℕ → OutAddress
  external : List ℕ → OutAddress

pub data DexCall : Type 0 where
  swap_and_add_liquidity : ℕ → DexCall
  swap : Balance → OutAddress → DexCall

pub data InInstruction : Type 0 where
  transfer : ℕ → InInstruction
  dex : DexCall → InInstruction

pub record InInstructionWithBalance : Type 0 where
  pub instruction : InInstruction
  pub balance : Balance

pub record Batch : Type 0 where
  pub network : NetworkId
  pub id : ℕ
  pub block : ℕ
  pub instructions : List InInstructionWithBalance

pub record SignedBatch : Type 0 where
  pub batch : Batch
  pub signature : ℕ

pub data Event : Type 0 where
  batch_executed : NetworkId → ℕ → ℕ → ℕ → Event
  instruction_failure : NetworkId → ℕ → ℕ → Event
  halt : NetworkId → Event

-- What a call fails with: an error of this pallet, of the coins or of the exchange, or a signed
-- origin where none is expected.
pub data Failure : Type 0 where
  invalid_address_for_coin bad_origin : Failure
  of_coins : Coins.Error → Failure
  of_coins_call : Coins.DispatchError → Failure
  of_dex : ℕ → Failure

pub data InvalidTransaction : Type 0 where
  exhausts_resources bad_proof future stale : InvalidTransaction
  custom : ℕ → InvalidTransaction

-- The coins, with the state of the exchange.
pub record World (D : Type 0) : Type 0 where
  pub coins : Coins.Storage
  pub dex : D

-- The two calls of the exchange: the sender, the path, the amounts in and out, and the receiver;
-- and the sender, the coin, the two desired amounts, the two minima, and the receiver.
pub record Dex (D : Type 0) : Type 0 where
  pub swap_exact_tokens_for_tokens : ℕ → List Coin → ℕ → ℕ → ℕ → Action (World D) Failure (Unit {0})
  pub add_liquidity : ℕ → Coin → ℕ → ℕ → ℕ → ℕ → ℕ → Action (World D) Failure (Unit {0})

-- The block under execution, and the account that the instructions are executed as. The size and
-- the hash are of encodings; `verify` checks a signature of a batch by a key.
pub record Chain : Type 0 where
  pub block_number : ℕ
  pub coins_config : Coins.Config
  pub executor : ℕ
  pub size : Batch → ℕ
  pub hash : List InInstructionWithBalance → ℕ
  pub verify : ℕ → Batch → ℕ → Bool

pub record Storage (D : Type 0) : Type 0 where
  pub last_batch : Map NetworkId ℕ
  pub last_batch_block : Map NetworkId ℕ
  pub halted : Map NetworkId (Unit {0})
  pub latest_network_block : Map NetworkId ℕ
  pub events : List Event
  pub sets : ValidatorSets.Storage
  pub world : World D
