-- ===== src/Coins/Invariant.antt =====
-- The invariant of the pallet's storage, and what the two writes to a balance do to it.
use serai.Common.{
  ℕ, ◌+◌, ◌-◌, ◌≤◌, ◌<◌, ◌≡◌, ◌⊎◌, ◌&&◌, arith, ◌==◌, if◌then◌else◌, beq, nat_eq, pair_eq, Distinct,
  lookup-insert, lookup-erase, insert, erase, insert-Distinct, erase-Distinct, u64_mod, ok, err,
}
use serai.Primitives.{Coin, Balance, coin_eq}
use serai.Coins.Types.{
  Storage, balance_of, supply_of, set_balance, set_supply, not_enough_coins, amount_overflowed,
}
use serai.Coins.{decrease_balance_internal, increase_balance_internal}
use serai.Coins.Supply.{total, share, total-insert, total-erase, lookup-le-total}

-- Every supply is the sum of the balances and fits its type, and a balance is stored once.
pub record IsSound (s : Storage) : Type 0 where
  pub backed : (c : Coin) → total c s.balances ≡ supply_of c s
  pub bounded : (c : Coin) → supply_of c s < u64_mod
  pub distinct : Distinct s.balances

-- The state after a debit that the balance covers, and after a credit.
abbrev pub debited : ℕ → Coin → ℕ → Storage → Storage
debited who c n s = record s {
  balances =
      if balance_of who c s - n == 0
      then erase (who, c) s.balances
      else insert (who, c) (balance_of who c s - n) s.balances;
}

abbrev pub credited : ℕ → Coin → ℕ → Storage → Storage
credited who c n s = set_balance who c (balance_of who c s + n) s

pub decrease_cases :
    (who : ℕ) (b : Balance) (s : Storage)
    → ((b.amount ≤ balance_of who b.coin s)
        × (decrease_balance_internal who b s ≡ (ok tt, debited who b.coin b.amount s)))
      ⊎ ((balance_of who b.coin s < b.amount)
          × (decrease_balance_internal who b s ≡ (err not_enough_coins, s)))
unfolding decrease_balance_internal
decrease_cases who b s = ground arith

pub increase_cases :
    (who : ℕ) (b : Balance) (s : Storage)
    → ((balance_of who b.coin s + b.amount < u64_mod)
        × (increase_balance_internal who b s ≡ (ok tt, credited who b.coin b.amount s)))
      ⊎ ((u64_mod ≤ balance_of who b.coin s + b.amount)
          × (increase_balance_internal who b s ≡ (err amount_overflowed, s)))
unfolding increase_balance_internal
increase_cases who b s = ground arith

module _ (who : ℕ) (c : Coin) (n : ℕ) (s : Storage) where
  pub balance_of-debited :
      (w : ℕ) (d : Coin)
      → Distinct s.balances
      → balance_of w d (debited who c n s)
        ≡ (if who == w && beq c d then balance_of who c s - n else balance_of w d s)
  balance_of-debited w d h = ground (
    arith,
    lookup-erase (who, c) (w, d) s.balances h,
    lookup-insert (who, c) (w, d) (balance_of who c s - n) s.balances,
  )

  pub balance_of-credited :
      (w : ℕ) (d : Coin)
      → balance_of w d (credited who c n s)
        ≡ (if who == w && beq c d then balance_of who c s + n else balance_of w d s)
  balance_of-credited w d =
      ground (arith, lookup-insert (who, c) (w, d) (balance_of who c s + n) s.balances)

  pub total-debited :
      (d : Coin)
      → n ≤ balance_of who c s
      → total d (debited who c n s).balances + share d c n ≡ total d s.balances
  total-debited d h = ground (
    arith,
    total-insert d who c (balance_of who c s - n) s.balances,
    total-erase d who c s.balances,
  )

  pub total-credited :
      (d : Coin) → total d (credited who c n s).balances ≡ total d s.balances + share d c n
  total-credited d = ground (arith, total-insert d who c (balance_of who c s + n) s.balances)

  pub debited-Distinct : Distinct s.balances → Distinct (debited who c n s).balances
  debited-Distinct h = ground (
    arith,
    insert-Distinct (who, c) (balance_of who c s - n) s.balances h,
    erase-Distinct (who, c) s.balances h,
  )

  pub credited-Distinct : Distinct s.balances → Distinct (credited who c n s).balances
  credited-Distinct h = insert-Distinct (who, c) (balance_of who c s + n) s.balances h

pub supply_of-set :
    (c : Coin) (n : ℕ) (s : Storage) (d : Coin)
    → supply_of d (set_supply c n s) ≡ (if beq c d then n else supply_of d s)
supply_of-set c n s d = ground (arith, lookup-insert c d n s.supply)

pub balance-le-total : (who : ℕ) (c : Coin) (s : Storage) → balance_of who c s ≤ total c s.balances
balance-le-total who c s = lookup-le-total c who s.balances
