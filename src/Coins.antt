-- ===== src/Coins.antt =====
-- substrate/coins/pallet/src/lib.rs: the balances and the supply of every coin.
-- A storage item is a map, an event is appended to `events`. `allow_mint`, the instance and the fee
-- account are the pallet's configuration. A writer of an error keeps what it wrote before it.
mod Types
pub mod Supply
pub mod Invariant
pub mod Mint
pub mod Transfers
pub mod Genesis
pub mod Calls
mod Samples
pub use Types.*
use serai.Common.{
  ℕ, ◌≡◌, Bool, true, false, Option, none, some, List, [], ◌∷◌, ◌++◌, ◌==◌, if◌then◌else◌, Map,
  lookup, insert, erase, beq, checked_add, checked_sub, saturating_sub, Outcome, Action, ok, err,
  panic, ◌>>=◌, ◌>>◌, nat_eq, pair_eq, pure, throw, gets, modify, throw_if, ok_or, unwrap, map_err,
  expect,
}
use Types.{
  OutInstructionWithBalance, Error, Event, Config, Storage, balance_of, supply_of, set_balance,
  remove_balance, set_supply, amount_overflowed, not_enough_coins,
  burn_with_instruction_not_allowed, mint_not_allowed,
}
use serai.Primitives.{Coin, Balance, coins, coin_eq}

abbrev deposit_event : Event → Storage → Storage
deposit_event e s = record s { events = s.events ++ e ∷ [] }

pub decrease_balance_internal : ℕ → Balance → Action Storage Error (Unit {0})
decrease_balance_internal from b = do
  current ← gets (balance_of from b.coin)
  new_amount ← ok_or (checked_sub current b.amount) not_enough_coins
  modify
      (if new_amount == 0 then remove_balance from b.coin else set_balance from b.coin new_amount)

unfoldable pub increase_balance_internal : ℕ → Balance → Action Storage Error (Unit {0})
increase_balance_internal to b = do
  current ← gets (balance_of to b.coin)
  new_amount ← ok_or (checked_add current b.amount) amount_overflowed
  modify (set_balance to b.coin new_amount)

unfoldable pub mint : Config → ℕ → Balance → Action Storage Error (Unit {0})
mint cfg to b = do
  throw_if (if cfg.allow_mint b then false else true) mint_not_allowed
  increase_balance_internal to b
  current ← gets (supply_of b.coin)
  new_supply ← ok_or (checked_add current b.amount) amount_overflowed
  modify (set_supply b.coin new_supply)
  modify (deposit_event (Event.mint to b))

reduce_supply : ℕ → Balance → Action Storage Error (Unit {0})
reduce_supply from b = do
  decrease_balance_internal from b
  current ← gets (supply_of b.coin)
  new_supply ← unwrap (checked_sub current b.amount)
  modify (set_supply b.coin new_supply)

pub burn_internal : ℕ → Balance → Action Storage Error (Unit {0})
unfolding reduce_supply
burn_internal from b = if b.amount == 0 then pure tt else reduce_supply from b

pub transfer_internal : ℕ → ℕ → Balance → Action Storage Error (Unit {0})
transfer_internal from to b = do
  decrease_balance_internal from b
  increase_balance_internal to b
  modify (deposit_event (Event.transfer from to b))

-- The dispatchable calls. The origin is the account that signed, if any did.
pub data DispatchError : Type 0 where
  bad_origin : DispatchError
  of_pallet : Error → DispatchError

abbrev pub ensure_signed : Option ℕ → Action Storage DispatchError ℕ
ensure_signed origin = ok_or origin bad_origin

pub transfer : Option ℕ → ℕ → Balance → Action Storage DispatchError (Unit {0})
transfer origin to b = do
  from ← ensure_signed origin
  map_err of_pallet (transfer_internal from to b)

pub burn : Option ℕ → Balance → Action Storage DispatchError (Unit {0})
burn origin b = do
  from ← ensure_signed origin
  map_err of_pallet (burn_internal from b)
  modify (deposit_event (Event.burn from b))

abbrev is_serai : Coin → Bool
is_serai c = beq c Coin.serai_coin

pub burn_with_instruction :
    Config → Option ℕ → OutInstructionWithBalance → Action Storage DispatchError (Unit {0})
burn_with_instruction cfg origin i = do
  throw_if (is_serai i.balance.coin) (of_pallet burn_with_instruction_not_allowed)
  throw_if cfg.liquidity_tokens (of_pallet burn_with_instruction_not_allowed)
  from ← ensure_signed origin
  map_err of_pallet (burn_internal from i.balance)
  modify (deposit_event (Event.burn_with_instruction from i))

-- The hook at the start of each block: the fees of the previous block are burnt.
pub on_initialize : Config → Action Storage Error (Unit {0})
on_initialize cfg = do
  amount ← gets (balance_of cfg.fee_account Coin.serai_coin)
  expect (burn_internal cfg.fee_account (record { coin = Coin.serai_coin; amount = amount }))

-- `OnChargeTransaction`. A failure is `InvalidTransaction::Payment`.
pub data InvalidTransaction : Type 0 where
  payment : InvalidTransaction

pub withdraw_fee : Config → ℕ → ℕ → Action Storage InvalidTransaction (Option ℕ)
withdraw_fee cfg who fee =
    if fee == 0
    then pure none
    else (map_err (λ _. payment)
          (transfer_internal who cfg.fee_account (record { coin = Coin.serai_coin; amount = fee }))
        >> pure (some fee))

abbrev refund : Config → ℕ → ℕ → Option ℕ → Action Storage InvalidTransaction (Unit {0})
refund cfg who corrected none = pure tt
refund cfg who corrected (some paid) =
    map_err (λ _. payment)
      (transfer_internal cfg.fee_account who
        (record { coin = Coin.serai_coin; amount = saturating_sub paid corrected }))

pub correct_and_deposit_fee :
    Config → ℕ → ℕ → Option ℕ → Action Storage InvalidTransaction (Unit {0})
correct_and_deposit_fee = refund

-- Genesis: every supply is zero, then each account is minted its balance.
init_supply : List Coin → Storage → Storage
init_supply [] s = s
init_supply (c ∷ cs) s = init_supply cs (set_supply c 0 s)

mint_all : Config → List (ℕ × Balance) → Action Storage Error (Unit {0})
mint_all cfg [] = pure tt
mint_all cfg ((who, b) ∷ rest) =
    let later = mint_all cfg rest in expect {F = Error} (mint cfg who b) >> later

pub build : Config → List (ℕ × Balance) → Action Storage Error (Unit {0})
unfolding init_supply mint_all
build cfg accounts = modify (init_supply coins) >> mint_all cfg accounts
