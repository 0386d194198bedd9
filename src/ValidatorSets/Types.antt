-- ===== src/ValidatorSets/Types.antt =====
-- substrate/validator-sets/pallet/src/lib.rs: the storage items, the events and the errors, and the
-- types of substrate/validator-sets/primitives/src/lib.rs.
use serai.Common.{ℕ, ◌+◌, ◌-◌, ◌%◌, Option, List, Map, u32_mod, nat_eq, pair_eq}
use serai.Primitives.{NetworkId, network_eq}

-- A validator set is the network with the session.
abbrev pub ValidatorSet : Type 0
ValidatorSet = NetworkId × ℕ

pub record KeyPair : Type 0 where
  pub signing_key : ℕ
  pub external_key : List ℕ

pub data Event : Type 0 where
  new_set accepted_handover set_retired : ValidatorSet → Event
  participant_removed : ValidatorSet → ℕ → Event
  key_gen : ValidatorSet → KeyPair → Event
  allocation_increased : ℕ → NetworkId → ℕ → Event
  allocation_decreased : ℕ → NetworkId → ℕ → Option ℕ → Event
  deallocation_claimed : ℕ → NetworkId → ℕ → Event

pub data Error : Type 0 where
  non_existent_validator_set insufficient_allocation not_enough_allocated : Error
  allocation_would_remove_fault_tolerance allocation_would_prevent_fault_tolerance : Error
  deallocation_would_remove_participant deallocation_would_remove_fault_tolerance : Error
  non_existent_deallocation already_generated_keys bad_signature non_existent_validator : Error
  deallocation_would_remove_economic_security : Error

-- A key of the sorted view: the network, the amount, the hash and the validator.
abbrev pub SortedKey : Type 0
SortedKey = (NetworkId × ℕ) × (ℕ × ℕ)

-- `sorted` is in the order of the database's keys. `babe` are the members of Serai's active set,
-- which the consensus keeps.
pub record Storage : Type 0 where
  pub current_session : Map NetworkId ℕ
  pub allocation_per_key_share : Map NetworkId ℕ
  pub in_set : Map (NetworkId × ℕ) ℕ
  pub total_allocated_stake : Map NetworkId ℕ
  pub allocations : Map (NetworkId × ℕ) ℕ
  pub sorted : List SortedKey
  pub pending_deallocations : Map ((NetworkId × ℕ) × ℕ) ℕ
  pub keys : Map ValidatorSet KeyPair
  pub pending_slash_report : Map NetworkId ℕ
  pub participants : Map NetworkId (List (ℕ × ℕ))
  pub babe : List ℕ
  pub events : List Event

-- `+ 1` and `- 1` of a session, which is 32-bit.
abbrev pub next : ℕ → ℕ
next n = (n + 1) % u32_mod

abbrev pub previous : ℕ → ℕ
previous n = (n + u32_mod - 1) % u32_mod
