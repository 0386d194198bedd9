-- ===== src/Coins/Supply.antt =====
-- The sum of the balances of one coin, under the writes to a balance.
use serai.Common.{
  ℕ, ◌+◌, ◌≤◌, ◌≡◌, [], ◌∷◌, arith, if◌then◌else◌, Map, lookup, insert, erase, beq, nat_eq, pair_eq,
  ==_iff,
}
use serai.Primitives.{Coin, coin_eq}
use serai.Coins.Types.{or_zero}

-- What an entry adds to the sum for `c`.
abbrev pub share : Coin → Coin → ℕ → ℕ
share c d n = if beq d c then n else 0

abbrev pub total : Coin → Map (ℕ × Coin) ℕ → ℕ
total c [] = 0
total c (((who, d), n) ∷ m) = share c d n + total c m

pub total-insert :
    (c : Coin) (who : ℕ) (d : Coin) (n : ℕ) (m : Map (ℕ × Coin) ℕ)
    → total c (insert (who, d) n m) + share c d (or_zero (lookup (who, d) m))
      ≡ total c m + share c d n
total-insert c who d n [] = ground arith
total-insert c who d n (((w, k), v) ∷ m) =
    ground (arith, coin_eq.beq_iff k d, ==_iff w who, total-insert c who d n m)

pub total-erase :
    (c : Coin) (who : ℕ) (d : Coin) (m : Map (ℕ × Coin) ℕ)
    → total c (erase (who, d) m) + share c d (or_zero (lookup (who, d) m)) ≡ total c m
total-erase c who d [] = ground arith
total-erase c who d (((w, k), v) ∷ m) =
    ground (arith, coin_eq.beq_iff k d, ==_iff w who, total-erase c who d m)

-- One balance is at most the sum.
pub lookup-le-total :
    (c : Coin) (who : ℕ) (m : Map (ℕ × Coin) ℕ) → or_zero (lookup (who, c) m) ≤ total c m
lookup-le-total c who [] = omega arith
lookup-le-total c who (((w, k), v) ∷ m) =
    ground (arith, coin_eq.beq_iff k c, ==_iff w who, lookup-le-total c who m)
