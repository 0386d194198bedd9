-- ===== src/Tendermint/Quorums.antt =====
-- The thresholds, and the contents that have consensus in one round of the log.
use serai.Common.{
  ℕ, ◌+◌, ◌*◌, ◌≤◌, ◌<◌, ◌≡◌, true, false, Option, none, some, [], ◌∷◌, arith, lookup, nat_eq,
  Distinct, sum_of, Bool-cases, inl, inr, u64_mod,
}
use serai.Tendermint.Types.{
  Data, step_of, data_beq, step_eq, SignedMessage, RoundLog, MessageLog, data_beq_trans,
}
use serai.Tendermint.Weighing.{Weights, IsWeighing, threshold, fault_threshold}
use serai.Tendermint.Log.{has_consensus, message_instances, agreeing, agreeing_weight}

-- For a total weight that is not zero and doubles within 64 bits: the threshold is over two thirds
-- of the total and at most the total, and the two thresholds add up to one more than the total.
pub threshold_bounds :
    (w : Weights)
    → w.total_weight * 2 < u64_mod
    → 0 < w.total_weight
    → (w.total_weight * 2 < threshold w * 3)
      × (threshold w ≤ w.total_weight)
      × (threshold w + fault_threshold w ≡ w.total_weight + 1)
unfolding threshold fault_threshold
threshold_bounds w small some_weight = omega arith

two_quorums :
    (w : Weights) → w.total_weight * 2 < u64_mod → w.total_weight < threshold w + threshold w
unfolding threshold
two_quorums w small = omega arith

-- One message agrees with two contents only if these agree with each other.
agreeing_weight_once :
    (w : Weights) (d d' : Data) (who : ℕ) (o : Option SignedMessage)
    → data_beq d d' ≡ false
    → agreeing_weight w d who o + agreeing_weight w d' who o ≤ w.weight who
agreeing_weight_once w d d' who none apart = omega arith
agreeing_weight_once w d d' who (some m) apart = ground (arith, data_beq_trans d d' m.msg.content)

agreeing_once :
    (w : Weights) (d d' : Data) (r : RoundLog)
    → step_of d ≡ step_of d'
    → data_beq d d' ≡ false
    → agreeing w d r + agreeing w d' r ≤ sum_of (λ e. w.weight e.0) r
agreeing_once w d d' [] same apart = omega arith
agreeing_once w d d' ((who, ms) ∷ r) same apart =
    let one : agreeing_weight w d who (lookup (step_of d) ms)
          + agreeing_weight w d' who (lookup (step_of d') ms)
        ≤ w.weight who =
      rw (← same) (agreeing_weight_once w d d' who (lookup (step_of d) ms) apart) in
    omega (arith, agreeing_once w d d' r same apart)

pub has_consensus-agreeing :
    (w : Weights) (n : ℕ) (d : Data) (l : MessageLog) (r : RoundLog)
    → lookup n l ≡ some r
    → has_consensus w n d l ≡ some true
    → threshold w ≤ agreeing w d r
unfolding has_consensus message_instances
has_consensus-agreeing w n d l r e h = ground (arith, e, h)

pub has_consensus-round :
    (w : Weights) (n : ℕ) (d : Data) (l : MessageLog)
    → has_consensus w n d l ≡ some true
    → (r : RoundLog) × (lookup n l ≡ some r)
unfolding has_consensus message_instances
has_consensus-round w n d l h = ground arith

-- Agreement: with weights that keep their contract and one entry for each validator, two contents
-- of the same step that both have consensus in a round are equal, as `Data` compares.
pub consensus_agrees :
    (w : Weights) (n : ℕ) (d d' : Data) (l : MessageLog)
    → IsWeighing w
    → ((r : RoundLog) → lookup n l ≡ some r → Distinct r)
    → step_of d ≡ step_of d'
    → has_consensus w n d l ≡ some true
    → has_consensus w n d' l ≡ some true
    → data_beq d d' ≡ true
consensus_agrees w n d d' l contract distinct same h h' =
    let (r, e) = has_consensus-round w n d l h in
    elim (Bool-cases (data_beq d d')) [
      | inl equal ↦ equal
      | inr apart ↦ absurd (
          omega (
            arith,
            two_quorums w contract.small,
            has_consensus-agreeing w n d l r e h,
            has_consensus-agreeing w n d' l r e h',
            agreeing_once w d d' r same apart,
            contract.covers r (distinct r e),
          ))
    ]
