-- ===== src/Cosign/Restart.antt =====
-- coordinator/src/cosign_evaluator.rs: what a restart makes of a cosign of a distinct block.
use serai.Common.{
  ◌≡◌, sym, ap, ◌∙◌, subst, false, Option, none, some, arith, ◌==◌, ==_iff, lookup,
  lookup-insert_self, nat_eq, Outcome, ok, panic, inl, inr, [],
}
use serai.Primitives.{network_eq, networks}
use serai.ValidatorSets.{ValidatorSet}
use serai.Cosign.{Serai, SeraiError, Block}
use serai.Cosign.Evaluator.{
  CosignedBlock, Evaluator, Settled, Verify, handle_new_cosign, on_distinct_chain, save_cosign, new,
}
use serai.Cosign.Handling.{IsOurs, handle_new_cosign-cases}
use serai.Cosign.Distinct.{load_lem, networks_lem, on_distinct_chain-latest_cosign}

ok_is_not_panic : {a : Outcome SeraiError (Unit {0})} → ok tt ≡ a → a ≡ panic → ⊥
ok_is_not_panic e f = absurd (ground (arith, e, f))

-- The block of a number is one.
same_block :
    (a : Option (Option Block)) (b c : Block) → a ≡ some (some b) → a ≡ some (some c) → b ≡ c
same_block a b c h k = unwrapped (sym h ∙ k)
  where
    held : Option (Option Block) → Block
    held none = b
    held (some none) = b
    held (some (some d)) = d

    unwrapped : some (some b) ≡ some (some c) → b ≡ c
    unwrapped e = ap held e

-- After a call that saves the cosign and finds it on a distinct chain, a restart holds it.
restarts :
    (later : Settled) (cosign : CosignedBlock) (set : ValidatorSet) (e : Evaluator)
    → set.0 ≡ cosign.network
    → lookup cosign.network
        (new (on_distinct_chain later cosign set (save_cosign set cosign e)).1).latest_cosigns
      ≡ some cosign
unfolding new
restarts later cosign set e of_network =
    load_lem cosign.network cosign networks
      (on_distinct_chain later cosign set (save_cosign set cosign e)).1.latest_cosign []
      (networks_lem cosign.network)
      (ap (lookup cosign.network)
          (on_distinct_chain-latest_cosign later cosign set (save_cosign set cosign e))
        ∙ subst (λ net. lookup net (save_cosign set cosign e).latest_cosign ≡ some cosign)
            of_network (lookup-insert_self set.0 cosign e.latest_cosign))

-- Where the handling of a cosign panics, the cosign is not of our chain, and the evaluator that is
-- started on the database that was left holds it among the latest cosigns.
pub new-handle_new_cosign :
    (verify : Verify) (serai : Serai) (later : Settled) (cosign : CosignedBlock) (e : Evaluator)
    → (handle_new_cosign verify serai later cosign e).0 ≡ panic
    → (lookup cosign.network (new (handle_new_cosign verify serai later cosign e).1).latest_cosigns
        ≡ some cosign)
      × (¬ IsOurs verify serai cosign)
new-handle_new_cosign verify serai later cosign e panicked =
    elim (handle_new_cosign-cases verify serai later cosign e) [
      | inl left ↦ absurd (ok_is_not_panic (sym (ap (λ r. r.0) left)) panicked)
      | inr (inl failed) ↦ absurd (ground (arith, failed, panicked))
      | inr (inr (block, set, signed, inl (same, went))) ↦
          absurd (ok_is_not_panic (sym (ap (λ r. r.0) went)) panicked)
      | inr (inr (block, set, signed, inr (distinct, went))) ↦ (
        subst (λ t. lookup cosign.network (new t).latest_cosigns ≡ some cosign)
            (sym (ap (λ r. r.1) went)) (restarts later cosign set e signed.1),
        λ (other, _, (known, _, _), same). absurd (
            apart block other distinct
              (same_block (serai.finalized_block_by_number cosign.block_number) block other signed.0
                known)
              same),
      )
    ]
  where
    apart :
        (block other : Block)
        → (cosign.block == block.hash) ≡ false
        → block ≡ other
        → cosign.block ≡ other.hash
        → ⊥
    apart block other distinct equal same = absurd (
        ground
          (arith, distinct, ==_iff cosign.block block.hash, same, ap (λ (b : Block). b.hash) equal))
