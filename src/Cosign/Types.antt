-- ===== src/Cosign/Types.antt =====
-- coordinator/src/substrate/cosign.rs and coordinator/src/cosign_evaluator.rs: what the database
-- holds, and what a node of the chain answers. An answer may fail, which is a `SeraiError`.
use serai.Common.{ℕ, Option, none, some, List, Map, Bool, Action, ok_or, nat_eq, pair_eq}
use serai.Primitives.{NetworkId}
use serai.ValidatorSets.{ValidatorSet}

pub data HasEvents : Type 0 where
  key_gen yes no : HasEvents

pub data SeraiError : Type 0 where
  connection_error : SeraiError

pub record Block : Type 0 where
  pub hash : ℕ
  pub parent_hash : ℕ

abbrev pub Answer : Type 0 → Type 0
Answer = Option

-- The finalized blocks, and as of the block with a hash: whether it has events of each kind, the
-- sessions, the keys that are set, the validators, and the stake. `latest` is the number and the
-- hash of the latest finalized block.
pub record Serai : Type 0 where
  pub latest : Answer (ℕ × ℕ)
  pub finalized_block_by_number : ℕ → Answer (Option Block)
  pub key_gen_events : ℕ → Answer Bool
  pub burn_with_instruction_events : ℕ → Answer Bool
  pub batch_events : ℕ → Answer Bool
  pub new_set_events : ℕ → Answer Bool
  pub set_retired_events : ℕ → Answer Bool
  pub session : ℕ → NetworkId → Answer (Option ℕ)
  pub keys : ℕ → ValidatorSet → Answer (Option ℕ)
  pub participants : ℕ → NetworkId → Answer (Option (List ℕ))
  pub total_allocated_stake : ℕ → NetworkId → Answer (Option ℕ)
  pub last_batch_for_network : ℕ → NetworkId → Answer (Option ℕ)

-- A cosign to send to the tributary of a network: the session, the block's number and its hash.
pub record CosignTransaction : Type 0 where
  pub network : NetworkId
  pub session : ℕ
  pub number : ℕ
  pub hash : ℕ

pub record Db : Type 0 where
  pub scan_cosign_from : Option ℕ
  pub intended_cosign : Option (ℕ × Option ℕ)
  pub block_has_events_cache : Map ℕ HasEvents
  pub latest_cosigned_block : Option ℕ
  pub serai_block_number : Map ℕ ℕ
  pub cosign_transactions : List CosignTransaction

abbrev pub Txn : Type 0 → Type 0
Txn = Action Db SeraiError

abbrev pub ask : {S A : Type 0} → Answer A → Action S SeraiError A
ask a = ok_or a connection_error

abbrev pub or_default : ℕ → Option ℕ → ℕ
or_default d none = d
or_default d (some n) = n

abbrev pub cosign_distance : ℕ
cosign_distance = 50
