-- ===== src/Cosign/Keeping.antt =====
-- coordinator/src/cosign_evaluator.rs: which cosigns in memory the steps of the evaluator keep.
use serai.Common.{
  ◌≡◌, ◌⊎◌, refl, Bool, true, false, [], ◌∷◌, arith, if◌then◌else◌, Map, insert, nat_eq, pair_eq,
  inl, inr, Option-cases, beq, ok, err, pure, abort,
}
use serai.Primitives.{NetworkId, network_eq, networks}
use serai.ValidatorSets.{ValidatorSet}
use serai.Cosign.{SeraiError}
use serai.Cosign.Evaluator.{
  CosignedBlock, Evaluator, Settled, Evaluation, on_distinct_chain, mark_distinct,
  update_latest_cosign, count_stake, is_split,
}
use serai.Cosign.Quorum.{Holds}

pub Holds-insert :
    (net : NetworkId) (cosign c : CosignedBlock) (m : Map NetworkId CosignedBlock)
    → Holds (insert net cosign m) c
    → (cosign ≡ c) ⊎ Holds m c
Holds-insert net cosign c [] (inl same) = inl same
Holds-insert net cosign c [] (inr none_left) = absurd none_left
Holds-insert net cosign c ((n, d) ∷ m) held =
    replaced (beq n net) held (Holds-insert net cosign c m)
  where
    replaced :
        (b : Bool)
        → Holds (if b then (net, cosign) ∷ m else (n, d) ∷ insert net cosign m) c
        → (Holds (insert net cosign m) c → (cosign ≡ c) ⊎ Holds m c)
        → (cosign ≡ c) ⊎ ((d ≡ c) ⊎ Holds m c)
    replaced true (inl same) rest = inl same
    replaced true (inr before) rest = inr (inr before)
    replaced false (inl same) rest = inr (inl same)
    replaced false (inr before) rest = elim (rest before) [
      | inl same ↦ inl same
      | inr held ↦ inr (inr held)
    ]

pub update_latest_cosign-latest_cosigns :
    (e : Evaluator) → (update_latest_cosign e).latest_cosigns ≡ e.latest_cosigns
unfolding update_latest_cosign
update_latest_cosign-latest_cosigns e = elim (Option-cases e.stakes) [
  | inl unknown ↦ ground (arith, unknown)
  | inr (stakes, known) ↦ ground (arith, known)
]

abbrev pub ends : Bool → Evaluation (Unit {0})
ends split = if split then abort else pure tt

pub on_distinct_chain-latest_cosigns :
    (later : Settled) (cosign : CosignedBlock) (set : ValidatorSet) (e : Evaluator)
    → (on_distinct_chain later cosign set e).1.latest_cosigns ≡ e.latest_cosigns
on_distinct_chain-latest_cosigns later cosign set e = split (
    is_split
      (count_stake later cosign.network (mark_distinct set e).distinct_chain networks (0, 0)))
  where
    split : (b : Bool) → (ends b (mark_distinct set e)).1.latest_cosigns ≡ e.latest_cosigns
    split true = refl
    split false = refl

pub ok_is_not_err : {x : SeraiError} → ok tt ≡ err x → ⊥
ok_is_not_err e = absurd (ground (arith, e))

pub on_distinct_chain_answers :
    (later : Settled) (cosign : CosignedBlock) (set : ValidatorSet) (e : Evaluator) (x : SeraiError)
    → (on_distinct_chain later cosign set e).0 ≡ err x
    → ⊥
on_distinct_chain_answers later cosign set e x = split (
    is_split
      (count_stake later cosign.network (mark_distinct set e).distinct_chain networks (0, 0)))
  where
    split : (b : Bool) → (ends b (mark_distinct set e)).0 ≡ err x → ⊥
    split true h = absurd (ground (arith, h))
    split false h = absurd (ground (arith, h))
