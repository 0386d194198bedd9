-- ===== src/Coins/Types.antt =====
-- The storage items, the events, the errors and the configuration of substrate/coins/pallet.
use serai.Common.{ℕ, Bool, Option, none, some, List, Map, lookup, insert, erase, nat_eq, pair_eq}
use serai.Primitives.{Coin, Balance, coin_eq}

-- substrate/coins/primitives: where a burn asks its coins to be sent.
pub record OutInstruction : Type 0 where
  pub address : List ℕ
  pub memo : Option (List ℕ)

pub record OutInstructionWithBalance : Type 0 where
  pub instruction : OutInstruction
  pub balance : Balance

pub data Error : Type 0 where
  amount_overflowed not_enough_coins burn_with_instruction_not_allowed mint_not_allowed : Error

pub data Event : Type 0 where
  mint : ℕ → Balance → Event
  burn : ℕ → Balance → Event
  burn_with_instruction : ℕ → OutInstructionWithBalance → Event
  transfer : ℕ → ℕ → Balance → Event

pub record Config : Type 0 where
  pub allow_mint : Balance → Bool
  pub liquidity_tokens : Bool
  pub fee_account : ℕ

pub record Storage : Type 0 where
  pub balances : Map (ℕ × Coin) ℕ
  pub supply : Map Coin ℕ
  pub events : List Event

-- `ValueQuery`: a missing value reads as zero.
abbrev pub or_zero : Option ℕ → ℕ
or_zero none = 0
or_zero (some n) = n

abbrev pub balance_of : ℕ → Coin → Storage → ℕ
balance_of who coin s = or_zero (lookup (who, coin) s.balances)

abbrev pub supply_of : Coin → Storage → ℕ
supply_of coin s = or_zero (lookup coin s.supply)

abbrev pub set_balance : ℕ → Coin → ℕ → Storage → Storage
set_balance who coin n s = record s { balances = insert (who, coin) n s.balances }

abbrev pub remove_balance : ℕ → Coin → Storage → Storage
remove_balance who coin s = record s { balances = erase (who, coin) s.balances }

abbrev pub set_supply : Coin → ℕ → Storage → Storage
set_supply coin n s = record s { supply = insert coin n s.supply }
