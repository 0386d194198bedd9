-- ===== src/Cosign/Handling.antt =====
-- coordinator/src/cosign_evaluator.rs: what `handle_new_cosign` does with a cosign.
use serai.Common.{
  ℕ, ◌+◌, ◌-◌, ◌%◌, ◌≡◌, ◌⊎◌, refl, sym, ap, ◌∙◌, subst, Bool, true, false, not, Option, none, some,
  ◌==◌, ==_iff, ltb, if◌then◌else◌, insert, nat_eq, pair_eq, u64_mod, inl, inr, Outcome, ok, err,
  ◌>>=◌, ◌>>◌, pure, modify,
}
use serai.Primitives.{NetworkId, network_eq}
use serai.ValidatorSets.{ValidatorSet}
use serai.Cosign.{Serai, SeraiError, connection_error, Block, Answer, ask}
use serai.Cosign.Evaluator.{
  CosignedBlock, Evaluator, Settled, Verify, Evaluation, handle_new_cosign, check_signed,
  with_block, on_our_chain, on_distinct_chain, save_cosign, is_superseded, cosign_lifetime,
}
use serai.Cosign.Quorum.{Holds}
use serai.Cosign.Keeping.{
  Holds-insert, update_latest_cosign-latest_cosigns, on_distinct_chain-latest_cosigns,
  on_distinct_chain_answers, ok_is_not_err,
}

-- The set that is found is one of the network.
abbrev IsOf : NetworkId → Option ValidatorSet → Type 0
IsOf net none = Unit
IsOf net (some set) = set.0 ≡ net

module _ (verify : Verify) (serai : Serai) where
  -- A cosign of the block's number that the set, of the cosign's network, has signed.
  abbrev pub IsSigned : CosignedBlock → Block → ValidatorSet → Type 0
  IsSigned cosign block set =
      (serai.finalized_block_by_number cosign.block_number ≡ some (some block))
      × (set.0 ≡ cosign.network)
      × ((key : ℕ) × (serai.keys block.parent_hash set ≡ some (some key))
          × (verify key (cosign.block_number, cosign.block) cosign.signature ≡ true))

  -- The ways in which a cosign is handled: it is left, there is no answer, it is on our chain or on
  -- a distinct one.
  abbrev pub IsHandled :
      Settled → CosignedBlock → Evaluator → Outcome SeraiError (Unit {0}) × Evaluator → Type 0
  IsHandled later cosign e r =
      (r ≡ (ok tt, e))
      ⊎ ((r ≡ (err connection_error, e))
          ⊎ ((block : Block) × (set : ValidatorSet) × IsSigned cosign block set
              × (((cosign.block ≡ block.hash)
                    × (r ≡ on_our_chain cosign (save_cosign set cosign e)))
                  ⊎ (((cosign.block == block.hash) ≡ false)
                      × (r ≡ on_distinct_chain later cosign set (save_cosign set cosign e))))))

  check_signed_lem :
      (later : Settled) (cosign : CosignedBlock) (block : Block) (o : Option ValidatorSet)
      (e : Evaluator)
      → serai.finalized_block_by_number cosign.block_number ≡ some (some block)
      → IsOf cosign.network o
      → IsHandled later cosign e (check_signed verify serai later cosign block o e)
  check_signed_lem later cosign block none e known ours = inl refl
  check_signed_lem later cosign block (some set) e known ours =
      asked (serai.keys block.parent_hash set) refl
    where
      signed_by : ℕ → Evaluation (Unit {0})
      signed_by key =
          if not (verify key (cosign.block_number, cosign.block) cosign.signature)
          then pure tt
          else (modify (save_cosign set cosign)
              >> (if cosign.block == block.hash
                  then on_our_chain cosign
                  else on_distinct_chain later cosign set))

      compared :
          (key : ℕ)
          → serai.keys block.parent_hash set ≡ some (some key)
          → verify key (cosign.block_number, cosign.block) cosign.signature ≡ true
          → (same : Bool) → (cosign.block == block.hash) ≡ same
          → IsHandled later cosign e (
              (if same then on_our_chain cosign else on_distinct_chain later cosign set)
                (save_cosign set cosign e))
      compared key held signed true h = inr (
          inr (
            block,
            set,
            (known, ours, (key, held, signed)),
            inl ((==_iff cosign.block block.hash).0 h, refl),
          ))
      compared key held signed false h =
          inr (inr (block, set, (known, ours, (key, held, signed)), inr (h, refl)))

      verified :
          (key : ℕ)
          → serai.keys block.parent_hash set ≡ some (some key)
          → (v : Bool) → verify key (cosign.block_number, cosign.block) cosign.signature ≡ v
          → IsHandled later cosign e (
              (if not v
                  then pure tt
                  else (modify (save_cosign set cosign)
                      >> (if cosign.block == block.hash
                          then on_our_chain cosign
                          else on_distinct_chain later cosign set)))
                e)
      verified key held false h = inl refl
      verified key held true h = compared key held h (cosign.block == block.hash) refl

      asked :
          (a : Answer (Option ℕ))
          → serai.keys block.parent_hash set ≡ a
          → IsHandled later cosign e (
              (ask a >>= λ keys. elim keys as (λ _. Evaluation (Unit {0})) [
                | none ↦ pure tt
                | some key ↦ signed_by key
              ])
                e)
      asked none h = inr (inl refl)
      asked (some none) h = inl refl
      asked (some (some key)) h =
          verified key h (verify key (cosign.block_number, cosign.block) cosign.signature) refl

  with_block_lem :
      (later : Settled) (cosign : CosignedBlock) (o : Option Block) (e : Evaluator)
      → serai.finalized_block_by_number cosign.block_number ≡ some o
      → IsHandled later cosign e (with_block verify serai later cosign o e)
  with_block_lem later cosign none e known = inl refl
  with_block_lem later cosign (some block) e known =
      in_session (serai.session block.parent_hash net)
    where
      net : NetworkId
      net = cosign.network

      then_checked : Option ValidatorSet → Evaluation (Unit {0})
      then_checked = check_signed verify serai later cosign block

      of_session : ℕ → Option ℕ → Option ValidatorSet
      of_session latest prior = some (elim prior as (λ _. ValidatorSet) [
        | none ↦ (net, latest)
        | some key ↦ (net, latest - 1)
      ])

      prior_keys :
          (latest : ℕ) (a : Answer (Option ℕ))
          → IsHandled later cosign e
              (((ask a >>= λ prior. pure (of_session latest prior)) >>= then_checked) e)
      prior_keys latest none = inr (inl refl)
      prior_keys latest (some none) =
          check_signed_lem later cosign block (some (net, latest)) e known refl
      prior_keys latest (some (some key)) =
          check_signed_lem later cosign block (some (net, latest - 1)) e known refl

      in_session :
          (a : Answer (Option ℕ))
          → IsHandled later cosign e (
              (ask a
                  >>= (λ session. elim session as (λ _. Evaluation (Option ValidatorSet)) [
                    | none ↦ pure none
                    | some latest ↦
                        ask (serai.keys block.parent_hash (net, latest - 1)) >>= λ prior.
                        pure (of_session latest prior)
                  ])
                  >>= then_checked)
                e)
      in_session none = inr (inl refl)
      in_session (some none) = inl refl
      in_session (some (some latest)) =
          prior_keys latest (serai.keys block.parent_hash (net, latest - 1))

  pub handle_new_cosign-cases :
      (later : Settled) (cosign : CosignedBlock) (e : Evaluator)
      → IsHandled later cosign e (handle_new_cosign verify serai later cosign e)
  unfolding handle_new_cosign
  handle_new_cosign-cases later cosign e = superseded (is_superseded cosign e)
    where
      H : Outcome SeraiError (Unit {0}) × Evaluator → Type 0
      H = IsHandled later cosign e

      asks_block : Evaluation (Unit {0})
      asks_block =
          ask (serai.finalized_block_by_number cosign.block_number)
          >>= with_block verify serai later cosign

      blocks :
          (a : Answer (Option Block))
          → serai.finalized_block_by_number cosign.block_number ≡ a
          → H ((ask a >>= with_block verify serai later cosign) e)
      blocks none h = inr (inl refl)
      blocks (some o) h = with_block_lem later cosign o e h

      aged : (old : Bool) → H ((if old then pure tt else asks_block) e)
      aged true = inl refl
      aged false = blocks (serai.finalized_block_by_number cosign.block_number) refl

      answers :
          (a : Answer (ℕ × ℕ))
          → H (
              (ask a >>= λ latest.
              if ltb ((cosign.block_number + cosign_lifetime) % u64_mod) latest.0
              then pure tt
              else asks_block)
                e)
      answers none = inr (inl refl)
      answers (some latest) =
          aged (ltb ((cosign.block_number + cosign_lifetime) % u64_mod) latest.0)

      superseded :
          (old : Bool)
          → H (
              (if old
                  then pure tt
                  else (ask serai.latest >>= λ latest.
                      if ltb ((cosign.block_number + cosign_lifetime) % u64_mod) latest.0
                      then pure tt
                      else asks_block))
                e)
      superseded true = inl refl
      superseded false = answers serai.latest

  -- A cosign of our own block, by a set of its network.
  abbrev pub IsOurs : CosignedBlock → Type 0
  IsOurs cosign =
      (block : Block) × (set : ValidatorSet) × IsSigned cosign block set
      × (cosign.block ≡ block.hash)

  -- If every cosign held in memory is of the block that our chain has at its number, and signed by the
  -- key that a set of its network had as of the block before, so is every one after any cosign is
  -- handled, whatever comes of it.
  pub handle_new_cosign-IsOurs :
      (later : Settled) (cosign : CosignedBlock) (e : Evaluator)
      → ((c : CosignedBlock) → Holds e.latest_cosigns c → IsOurs c)
      → (c : CosignedBlock)
      → Holds (handle_new_cosign verify serai later cosign e).1.latest_cosigns c
      → IsOurs c
  handle_new_cosign-IsOurs later cosign e ours c held =
      let r : Outcome SeraiError (Unit {0}) × Evaluator =
        handle_new_cosign verify serai later cosign e in
      let back : (t : Evaluator) → r.1 ≡ t → Holds t.latest_cosigns c =
        λ t same. subst (λ t. Holds t.latest_cosigns c) same held in
      elim (handle_new_cosign-cases later cosign e) [
        | inl left ↦ ours c (back _ (ap (λ r. r.1) left))
        | inr (inl failed) ↦ ours c (back _ (ap (λ r. r.1) failed))
        | inr (inr (block, set, signed, inr (distinct, went))) ↦ ours c (
            subst (λ m. Holds m c)
              (on_distinct_chain-latest_cosigns later cosign set (save_cosign set cosign e))
              (back _ (ap (λ r. r.1) went)))
        | inr (inr (block, set, signed, inl (same, went))) ↦
            elim (Holds-insert cosign.network cosign c e.latest_cosigns (
              subst (λ m. Holds m c)
                (update_latest_cosign-latest_cosigns (record (save_cosign set cosign e) {
                  latest_cosigns = insert cosign.network cosign e.latest_cosigns;
                }))
                (back _ (ap (λ r. r.1) went)))) [
                  | inl new_one ↦ subst IsOurs new_one (block, set, signed, same)
                  | inr before ↦ ours c before
                ]
      ]

  -- A cosign whose handling fails, and so is to be retried, has changed nothing.
  pub handle_new_cosign_retries :
      (later : Settled) (cosign : CosignedBlock) (e : Evaluator) (x : SeraiError)
      → (handle_new_cosign verify serai later cosign e).0 ≡ err x
      → (handle_new_cosign verify serai later cosign e).1 ≡ e
  handle_new_cosign_retries later cosign e x failed =
      elim (handle_new_cosign-cases later cosign e) [
        | inl left ↦ ap (λ r. r.1) left
        | inr (inl asked) ↦ ap (λ r. r.1) asked
        | inr (inr (block, set, signed, inr (distinct, went))) ↦ absurd (
            on_distinct_chain_answers later cosign set (save_cosign set cosign e) x
              (sym (ap (λ r. r.0) went) ∙ failed))
        | inr (inr (block, set, signed, inl (same, went))) ↦
            absurd (ok_is_not_err (sym (ap (λ r. r.0) went) ∙ failed))
      ]
