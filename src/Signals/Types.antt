-- ===== src/Signals/Types.antt =====
-- The storage items, the events, the errors and the configuration of substrate/signals/pallet, and
-- what it reads of the validator-sets pallet. Block numbers and stakes are 64-bit.
use serai.Common.{
  ℕ, ◌+◌, ◌≡◌, ◌↔◌, Bool, ◌&&◌, true, false, Option, none, some, List, [], ◌∷◌, arith, Eq, beq,
  if◌then◌else◌, Map, lookup, contains_key, nat_eq, pair_eq, ==_iff, ◌==◌, u32_mod, ◌%◌,
}
use serai.Primitives.{NetworkId, network_eq, network_beq_iff}

pub data SignalId : Type 0 where
  retirement : ℕ → SignalId
  halt : NetworkId → SignalId

abbrev signal_beq : SignalId → SignalId → Bool
signal_beq (SignalId.retirement a) (SignalId.retirement b) = a == b
signal_beq (SignalId.halt m) (SignalId.halt n) = beq m n
signal_beq _ _ = false

pub signal_beq_iff : (a b : SignalId) → (signal_beq a b ≡ true) ↔ (a ≡ b)
signal_beq_iff (SignalId.retirement a) (SignalId.retirement b) = ground (arith, ==_iff a b)
signal_beq_iff (SignalId.retirement a) (SignalId.halt n) = ground arith
signal_beq_iff (SignalId.halt m) (SignalId.retirement b) = ground arith
signal_beq_iff (SignalId.halt m) (SignalId.halt n) = ground (arith, network_beq_iff m n)

instance abbrev pub signal_eq : Eq SignalId
signal_eq = record { beq = signal_beq; beq_iff = signal_beq_iff }

-- A validator set is the network with the session.
abbrev pub ValidatorSet : Type 0
ValidatorSet = NetworkId × ℕ

-- What the pallet reads of the storage of the validator-sets pallet.
pub record Sets : Type 0 where
  pub current_session : Map NetworkId ℕ
  pub in_set : Map (NetworkId × ℕ) ℕ
  pub total_allocated_stake : Map NetworkId ℕ
  pub allocations : Map (NetworkId × ℕ) ℕ

abbrev next_session : NetworkId → ℕ → ℕ
next_session NetworkId.serai_network n = (n + 1) % u32_mod
next_session _ n = n

-- For Serai, the next session is decided already.
abbrev pub latest_decided_session : NetworkId → Sets → Option ℕ
latest_decided_session net v = elim (lookup net v.current_session) [
  | none ↦ none
  | some n ↦ some (next_session net n)
]

abbrev pub in_latest_decided_set : NetworkId → ℕ → Sets → Bool
in_latest_decided_set net who v = contains_key (net, who) v.in_set

pub record RegisteredRetirementSignal : Type 0 where
  pub in_favor_of : ℕ
  pub registrant : ℕ
  pub registered_at : ℕ

pub data Event : Type 0 where
  retirement_signal_registered : ℕ → ℕ → ℕ → Event
  retirement_signal_revoked : ℕ → Event
  signal_favored : SignalId → ℕ → NetworkId → Event
  set_in_favor : SignalId → ValidatorSet → Event
  retirement_signal_locked : ℕ → Event
  set_no_longer_in_favor : SignalId → ValidatorSet → Event
  favor_revoked : SignalId → ℕ → NetworkId → Event
  against_signal : SignalId → ℕ → NetworkId → Event
  halted_network : NetworkId → Event

-- `bad_origin` is the failure of `ensure_signed`.
pub data Error : Type 0 where
  retirement_signal_locked_in : Error
  retirement_signal_already_registered : Error
  not_retirement_signal_registrant : Error
  non_existent_retirement_signal : Error
  expired_retirement_signal : Error
  not_validator : Error
  revoking_non_existent_favor : Error
  bad_origin : Error

-- The block under execution and the constants of the runtime. `signal_hash` is the id of a signal:
-- BLAKE2 of its encoding.
pub record Chain : Type 0 where
  pub block_number : ℕ
  pub validity_duration : ℕ
  pub lock_in_duration : ℕ
  pub signal_hash : RegisteredRetirementSignal → ℕ
  pub sets : Sets

-- `halted` is the item of the in-instructions pallet.
pub record Storage : Type 0 where
  pub registered : Map ℕ RegisteredRetirementSignal
  pub favors : Map ((SignalId × NetworkId) × ℕ) (Unit {0})
  pub sets_in_favor : Map (SignalId × ValidatorSet) (Unit {0})
  pub locked_in : Option (ℕ × ℕ)
  pub halted : Map NetworkId (Unit {0})
  pub events : List Event

-- The accounts that favor a signal for a network: `iter_prefix_values`.
abbrev pub favoring : SignalId → NetworkId → Map ((SignalId × NetworkId) × ℕ) (Unit {0}) → List ℕ
favoring sid net [] = []
favoring sid net ((((i, n), who), _) ∷ m) =
    if beq i sid && beq n net then who ∷ favoring sid net m else favoring sid net m
