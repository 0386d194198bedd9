-- ===== src/InInstructions/Accepting.antt =====
-- substrate/in-instructions/pallet/src/lib.rs: which batches `validate_unsigned` accepts, and what
-- it records of them.
use serai.Common.{
  ℕ, ◌<◌, ◌≡◌, ◌≢◌, ◌⊎◌, refl, sym, ◌∙◌, subst, ap, Bool, true, false, not, ◌&&◌, ◌||◌, Option,
  none, some, List, [], ◌∷◌, arith, ltb, lookup, insert, contains_key, beq, nat_eq, pair_eq, ok,
  All, Ensures, Ensures-inv, Ensures-intro, Ensures->>=, Option-cases, Bool-cases, inl, inr,
  throw_if, Action, ◌>>=◌, ◌>>◌,
}
use serai.Primitives.{NetworkId, network_eq, network_of, network_beq_iff}
use serai.ValidatorSets
use serai.InInstructions.{
  Batch, SignedBatch, InInstructionWithBalance, InvalidTransaction, Chain, Storage, Keys,
  validate_unsigned, keys_for_network, check_next, check_signature, hand_over, are_of, expected,
  max_batch_size, or_zero, following, is_signed_by, is_some, signing_key_of, prior_key,
  keys_of_session,
}

-- The coins are all of the network.
abbrev AreOf : NetworkId → List InInstructionWithBalance → Type 0
AreOf net is = All (λ (i : InInstructionWithBalance). network_of i.balance.coin ≡ net) is

are_of-AreOf :
    (net : NetworkId) (is : List InInstructionWithBalance) → are_of net is ≡ true → AreOf net is
are_of-AreOf net [] h = tt
are_of-AreOf net (i ∷ more) h =
    ground (arith, are_of-AreOf net more, network_beq_iff (network_of i.balance.coin) net)

is_signed_by-key :
    (c : Chain) (b : SignedBatch) (o : Option ℕ)
    → is_signed_by c b o ≡ true
    → (key : ℕ) × (o ≡ some key) × (c.verify key b.batch b.signature ≡ true)
is_signed_by-key c b none h = ground (arith, h)
is_signed_by-key c b (some key) h = (key, refl, h)

not_serai :
    (net : NetworkId) → beq net NetworkId.serai_network ≡ false → net ≢ NetworkId.serai_network
not_serai net h e = absurd (ground (arith, h, (network_beq_iff net NetworkId.serai_network).1 e))

module _ {D : Type 0} where
  -- The keys are those of the current session and of the one before it.
  abbrev AreKeys : NetworkId → Storage D → Keys → Storage D → Type 0
  AreKeys net s (n, (prior, latest)) t =
      (ValidatorSets.session net s.sets ≡ some n)
      × (prior ≡ prior_key net n s)
      × (latest ≡ signing_key_of net n s)
      × (t ≡ s)

  keys_of_session_lem :
      (net : NetworkId) (n : ℕ) (prior latest : Option ℕ) (s : Storage D)
      → Ensures
          (λ ks t. (ks ≡ (n, (prior, latest))) × (t ≡ s))
          (keys_of_session net n prior latest s)
  keys_of_session_lem net n none none s = tt
  keys_of_session_lem net n none (some k) s = (refl, refl)
  keys_of_session_lem net n (some k) latest s = (refl, refl)

  keys_for_network-AreKeys :
      (net : NetworkId) (s : Storage D) → Ensures (AreKeys net s) (keys_for_network net s)
  unfolding keys_for_network
  keys_for_network-AreKeys net s = elim (Option-cases (ValidatorSets.session net s.sets)) [
    | inl absent ↦ ground (arith, absent)
    | inr (n, known) ↦
        ground
          (arith, known, keys_of_session_lem net n (prior_key net n s) (signing_key_of net n s) s)
  ]

  hand_over_lem :
      (net : NetworkId) (n : ℕ) (accepts : Bool) (s : Storage D)
      → Ensures
          (λ _ t.
            (t.last_batch ≡ s.last_batch)
            × (t.last_batch_block ≡ s.last_batch_block)
            × (t.world ≡ s.world))
          (hand_over net n accepts s)
  hand_over_lem net n accepts s = ground arith

  -- The batch is the next one of its network, in a later block than the last one, and of its coins.
  abbrev pub IsNext : Chain → Batch → Storage D → Storage D → Type 0
  IsNext c b s t =
      (or_zero (lookup b.network s.last_batch_block) < c.block_number)
      × (b.id ≡ expected b.network s)
      × AreOf b.network b.instructions
      × (t.last_batch ≡ insert b.network b.id s.last_batch)
      × (t.last_batch_block ≡ insert b.network c.block_number s.last_batch_block)
      × (t.world ≡ s.world)

  check_next-IsNext :
      (c : Chain) (b : Batch) (s : Storage D) → Ensures (λ _ t. IsNext c b s t) (check_next c b s)
  unfolding check_next
  check_next-IsNext c b s = ground (arith, are_of-AreOf b.network b.instructions)

  -- The batch is signed by the key of the current set of the network, or of the one before.
  abbrev IsSigned : Chain → SignedBatch → Storage D → Type 0
  IsSigned c b s =
      (n : ℕ) × (key : ℕ) × (ValidatorSets.session b.batch.network s.sets ≡ some n)
      × ((prior_key b.batch.network n s ≡ some key)
          ⊎ (signing_key_of b.batch.network n s ≡ some key))
      × (c.verify key b.batch b.signature ≡ true)

  abbrev pub IsAccepted : Chain → SignedBatch → Storage D → Storage D → Type 0
  IsAccepted c b s t =
      (b.batch.network ≢ NetworkId.serai_network)
      × (contains_key b.batch.network s.halted ≡ false)
      × IsSigned c b s
      × IsNext c b.batch s t

  signed :
      (c : Chain) (b : SignedBatch) (n : ℕ) (prior current : Option ℕ) (s : Storage D)
      → AreKeys b.batch.network s (n, (prior, current)) s
      → (is_signed_by c b prior || is_signed_by c b current) ≡ true
      → IsSigned c b s
  signed c b n prior current s (known, p, l, _) h = elim (Bool-cases (is_signed_by c b prior)) [
    | inl old ↦
        let (key, is, valid) = is_signed_by-key c b prior old in
        (n, key, known, inl (sym p ∙ is), valid)
    | inr other ↦
        let (key, is, valid) = is_signed_by-key c b current (ground (arith, h, other)) in
        (n, key, known, inr (sym l ∙ is), valid)
  ]

  -- The part of the acceptance that is checked of a signed batch.
  abbrev Passes : Chain → SignedBatch → Storage D → Storage D → Type 0
  Passes c b s t =
      (contains_key b.batch.network s.halted ≡ false) × IsSigned c b s × IsNext c b.batch s t

  check_next-Passes :
      (c : Chain) (b : SignedBatch) (n : ℕ) (accepts : Bool) (s : Storage D)
      → contains_key b.batch.network s.halted ≡ false
      → IsSigned c b s
      → Ensures
          (λ _ t. Passes c b s t)
          ((hand_over b.batch.network n accepts >> check_next c b.batch) s)
  check_next-Passes c b n accepts s open_to sig =
      Ensures->>=
        (λ _ t.
          (t.last_batch ≡ s.last_batch)
          × (t.last_batch_block ≡ s.last_batch_block)
          × (t.world ≡ s.world))
        (λ _ t. Passes c b s t) (hand_over b.batch.network n accepts) (λ _. check_next c b.batch) s
        (hand_over_lem b.batch.network n accepts s)
        (λ _ t (l, m, w).
          Ensures-intro (λ _ u. Passes c b s u) (check_next c b.batch t)
            (λ tag u e.
              let (later, is_next, coins, last, last_block, world) =
                Ensures-inv (λ _ u. IsNext c b.batch t u) _ tag u (check_next-IsNext c b.batch t)
                  e in
              (
                open_to,
                sig,
                (
                  subst (λ x. or_zero (lookup b.batch.network x) < c.block_number) m later,
                  is_next ∙ ap (λ x. following (lookup b.batch.network x)) l,
                  coins,
                  last ∙ ap (insert b.batch.network b.batch.id) l,
                  last_block ∙ ap (insert b.batch.network c.block_number) m,
                  world ∙ w,
                ),
              )))

  check_signature-Passes :
      (c : Chain) (b : SignedBatch) (n : ℕ) (prior current : Option ℕ) (s : Storage D)
      → AreKeys b.batch.network s (n, (prior, current)) s
      → Ensures (λ _ t. Passes c b s t) (check_signature c b (n, (prior, current)) s)
  check_signature-Passes c b n prior current s h =
      elim (Bool-cases (is_signed_by c b prior || is_signed_by c b current)) [
        | inr bad ↦ ground (arith, bad)
        | inl valid ↦ elim (Bool-cases (contains_key b.batch.network s.halted)) [
          | inl stopped ↦ ground (arith, valid, stopped)
          | inr open_to ↦ ground (
            arith,
            valid,
            open_to,
            check_next-Passes c b n (is_some prior && not (is_signed_by c b prior)) s open_to
                (signed c b n prior current s h valid),
          )
        ]
      ]

  keyed-Passes :
      (c : Chain) (b : SignedBatch) (s : Storage D)
      → Ensures
          (λ _ t. Passes c b s t)
          ((keys_for_network b.batch.network >>= check_signature c b) s)
  keyed-Passes c b s =
      Ensures->>= (AreKeys b.batch.network s) (λ _ t. Passes c b s t)
        (keys_for_network b.batch.network) (check_signature c b) s
        (keys_for_network-AreKeys b.batch.network s)
        (λ (n, (prior, current)) t h.
          subst (λ u. Ensures (λ _ t. Passes c b s t) (check_signature c b (n, (prior, current)) u))
            (sym h.3) (check_signature-Passes c b n prior current s (h.0, h.1, h.2, refl)))

  admitted :
      (too_large is_serai : Bool) (k : Action (Storage D) InvalidTransaction (NetworkId × ℕ))
      (s t : Storage D) (tag : NetworkId × ℕ)
      → (throw_if too_large InvalidTransaction.exhausts_resources
            >> (throw_if is_serai (InvalidTransaction.custom 0) >> k))
          s
        ≡ (ok tag, t)
      → (is_serai ≡ false) × (k s ≡ (ok tag, t))
  admitted true is_serai k s t tag e = absurd (ground (arith, e))
  admitted false true k s t tag e = absurd (ground (arith, e))
  admitted false false k s t tag e = (refl, e)

  -- A batch that is accepted is of an external network that is not halted, is signed by the key of
  -- its current set or of the one before, is the next one in order, in a later block than the last
  -- batch of the network, and has coins of the network only. It is recorded as the last one, and no
  -- coins are moved yet.
  pub validate_unsigned-IsAccepted :
      (c : Chain) (b : SignedBatch) (s t : Storage D) (tag : NetworkId × ℕ)
      → validate_unsigned c b s ≡ (ok tag, t)
      → IsAccepted c b s t
  unfolding validate_unsigned
  validate_unsigned-IsAccepted c b s t tag e =
      let (external, continues) =
        admitted (ltb max_batch_size (c.size b.batch)) (beq b.batch.network NetworkId.serai_network)
          (keys_for_network b.batch.network >>= check_signature c b) s t tag e in
      let passes = Ensures-inv (λ _ t. Passes c b s t) _ tag t (keyed-Passes c b s) continues in
      (not_serai b.batch.network external, passes.0, passes.1, passes.2)
