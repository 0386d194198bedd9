-- ===== src/Coins/Samples.antt =====
-- Storages and calls at which the theorems on the coins pallet apply.
use serai.Common.{
  ℕ, ◌+◌, ◌≤◌, ◌<◌, ◌≡◌, ◌⊎◌, refl, true, false, some, List, [], ◌∷◌, arith, nat_eq, pair_eq,
  u64_mod, ok, err,
}
use serai.Primitives.{Coin, Balance, coin_eq}
use serai.Coins.Types.{
  Config, Storage, balance_of, supply_of, mint_not_allowed, amount_overflowed, not_enough_coins,
}
use serai.Coins.{mint, transfer_internal}
use serai.Coins.Supply.{total, share}
use serai.Coins.Invariant.{IsSound}
use serai.Coins.Mint.{mint_cases, moved}
use serai.Coins.Transfers.{transfer_cases, sent}
use serai.Coins.Calls.{Call, dispatch, dispatch-Settles, Settles}

abbrev config : Config
config = record { allow_mint = λ _. true; liquidity_tokens = false; fee_account = 9 }

abbrev ten : Balance
ten = record { coin = Coin.serai_coin; amount = 10 }

abbrev store : Storage
store = record {
  balances = ((1, Coin.serai_coin), 50) ∷ ((2, Coin.bitcoin), 7) ∷ ((9, Coin.serai_coin), 4) ∷ [];
  supply = (Coin.serai_coin, 54) ∷ (Coin.bitcoin, 7) ∷ [];
  events = [];
}

abbrev grants : List (ℕ × Balance)
grants = (1, ten) ∷ (2, ten) ∷ []

store-backed : (c : Coin) → total c store.balances ≡ supply_of c store
store-backed Coin.serai_coin = refl
store-backed Coin.bitcoin = refl
store-backed Coin.ether = refl
store-backed Coin.dai = refl
store-backed Coin.monero = refl

store-bounded : (c : Coin) → supply_of c store < u64_mod
store-bounded Coin.serai_coin = omega arith
store-bounded Coin.bitcoin = omega arith
store-bounded Coin.ether = omega arith
store-bounded Coin.dai = omega arith
store-bounded Coin.monero = omega arith

store-IsSound : IsSound store
store-IsSound = record {
  backed = store-backed;
  bounded = store-bounded;
  distinct = (refl, (refl, (refl, tt)));
}

mint_cases_example :
    let (r, s') = mint config 1 ten store in
    ((config.allow_mint ten ≡ false) × (r ≡ err mint_not_allowed) × (s' ≡ store))
    ⊎ ((config.allow_mint ten ≡ true)
        × (u64_mod ≤ supply_of ten.coin store + ten.amount)
        × (r ≡ err amount_overflowed))
    ⊎ ((config.allow_mint ten ≡ true)
        × (supply_of ten.coin store + ten.amount < u64_mod)
        × (r ≡ ok tt)
        × IsSound s'
        × ((d : Coin) → supply_of d s' ≡ supply_of d store + share d ten.coin ten.amount)
        × ((w : ℕ) (d : Coin)
            → balance_of w d s'
              ≡ moved 1 ten.coin (balance_of 1 ten.coin store + ten.amount) store w d))
mint_cases_example = mint_cases config 1 ten store store-IsSound

transfer_cases_example :
    let (r, s') = transfer_internal 1 2 ten store in
    ((balance_of 1 ten.coin store < ten.amount) × (r ≡ err not_enough_coins) × (s' ≡ store))
    ⊎ ((ten.amount ≤ balance_of 1 ten.coin store)
        × (r ≡ ok tt)
        × IsSound s'
        × (s'.supply ≡ store.supply)
        × ((w : ℕ) (d : Coin) → balance_of w d s' ≡ sent 1 2 ten.coin ten.amount store w d))
transfer_cases_example = transfer_cases 1 2 ten store store-IsSound

dispatch-Settles_example : Settles store (dispatch config (some 1) (Call.burns ten) store)
dispatch-Settles_example = dispatch-Settles config (some 1) (Call.burns ten) store store-IsSound
