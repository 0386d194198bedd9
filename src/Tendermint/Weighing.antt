-- ===== src/Tendermint/Weighing.antt =====
-- The trait `Weights` of coordinator/tributary/tendermint/src/ext.rs.
use serai.Common.{wrapping_sub, ℕ, ◌+◌, ◌*◌, ◌/◌, ◌%◌, ◌≤◌, ◌<◌, sum_of, u64_mod, Distinct, nat_eq}
use serai.Tendermint.Types.{RoundLog}

-- What an implementation supplies.
pub record Weights : Type 0 where
  pub total_weight : ℕ
  pub weight : ℕ → ℕ
  pub proposer : ℕ → ℕ → ℕ

-- The default methods, over `u64`.
unfoldable pub threshold : Weights → ℕ
threshold w = (w.total_weight * 2) % u64_mod / 3 + 1

unfoldable pub fault_threshold : Weights → ℕ
unfolding threshold
fault_threshold w = (wrapping_sub w.total_weight (threshold w) + 1) % u64_mod

-- What the trait asks of an implementation: distinct validators weigh at most the total.
pub record IsWeighing (w : Weights) : Type 0 where
  pub small : w.total_weight * 2 < u64_mod
  pub covers : (r : RoundLog) → Distinct r → sum_of (λ e. w.weight e.0) r ≤ w.total_weight
