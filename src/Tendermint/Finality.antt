-- ===== src/Tendermint/Finality.antt =====
-- Decisions of different machines in one round. The logs may differ; the validators that are not
-- faulty say the same to all.
use serai.Common.{
  ℕ, ◌<◌, ◌≡◌, refl, some, arith, nat_eq, ◌==◌, ==_iff, lookup, Distinct, sum_of, Bool-cases, inl,
  inr,
}
use serai.Tendermint.Types.{Step, Data, RoundLog, step_eq}
use serai.Tendermint.Weighing.{Weights, IsWeighing, fault_threshold}
use serai.Tendermint.Machine.{Network, TendermintMachine}
use serai.Tendermint.Handler.{precommit_for}
use serai.Tendermint.Deciding.{IsDecided}
use serai.Tendermint.Quorums.{has_consensus-agreeing, has_consensus-round}
use serai.Tendermint.Overlap.{AreConsistent, agreeing_bound, quorums_overlap}

-- The logs of two machines have one entry for each validator of the round, and the validators
-- that are not faulty have precommitted to the same in both.
pub record AreFair (faulty : RoundLog) (n : ℕ) (s t : TendermintMachine) : Type 0 where
  pub distinct_faulty : Distinct faulty
  pub distinct_first : (r : RoundLog) → lookup n s.log ≡ some r → Distinct r
  pub distinct_second : (r : RoundLog) → lookup n t.log ≡ some r → Distinct r
  pub consistent :
      (a b : RoundLog)
      → lookup n s.log ≡ some a
      → lookup n t.log ≡ some b
      → AreConsistent faulty Step.precommit a b

-- Safety of a round: with weights that keep their contract, if the faulty validators weigh less
-- than the fault threshold, and the others have precommitted to the same in the logs of two
-- machines, then the blocks that the two machines decide on in the round have the same identifier.
pub decisions_agree :
    (net : Network) (faulty : RoundLog) (n b b' : ℕ) (s t : TendermintMachine)
    → IsWeighing net.weights
    → AreFair faulty n s t
    → sum_of (λ e. net.weights.weight e.0) faulty < fault_threshold net.weights
    → IsDecided net n b s
    → IsDecided net n b' t
    → net.id_of b ≡ net.id_of b'
decisions_agree net faulty n b b' s t contract fair few (_, _, _, _, h) (_, _, _, _, h') =
    let w : Weights = net.weights in
    let d : Data = precommit_for (net.id_of b) in
    let d' : Data = precommit_for (net.id_of b') in
    let (ra, ea) = has_consensus-round w n d s.log h in
    let (rb, eb) = has_consensus-round w n d' t.log h' in
    elim (Bool-cases (net.id_of b == net.id_of b')) [
      | inl equal ↦ (==_iff (net.id_of b) (net.id_of b')).0 equal
      | inr apart ↦ absurd (
          omega (
            arith,
            quorums_overlap w contract.small (sum_of (λ e. w.weight e.0) faulty) few,
            has_consensus-agreeing w n d s.log ra ea h,
            has_consensus-agreeing w n d' t.log rb eb h',
            agreeing_bound w faulty ra rb d d' contract fair.distinct_faulty
                (fair.distinct_first ra ea) (fair.distinct_second rb eb) refl
                (fair.consistent ra rb ea eb) apart,
          ))
    ]
