-- ===== src/Cosign/Events.antt =====
-- coordinator/src/substrate/cosign.rs: the events of a block, and their cache.
use serai.Common.{
  ℕ, ◌≡◌, ◌⊎◌, refl, ◌∙◌, sym, subst, Bool, true, false, Option, none, some, List, [], ◌∷◌, arith,
  ◌==◌, ==_iff, lookup, insert, Distinct, lookup-insert, insert-Distinct, nat_eq, ◌>>=◌, unwrap,
  Ensures, Ensures->>=, Option-cases, Bool-cases, inl, inr,
}
use serai.Cosign.{
  HasEvents, Block, Serai, Db, ask, block_has_events, events_unless, find_events, Answer, all_empty,
  events_if, cache_events,
}

-- Where the scan starts, and what the cosigners have been told.
abbrev pub Untouched : Db → Db → Type 0
Untouched s t =
    (t.scan_cosign_from ≡ s.scan_cosign_from) × (t.cosign_transactions ≡ s.cosign_transactions)

pub Untouched-trans : (s t u : Db) → Untouched s t → Untouched t u → Untouched s u
Untouched-trans s t u (from, told) (from', told') = (from' ∙ from, told' ∙ told)

-- What the cache and the record of block numbers have no part in.
abbrev pub Same : Db → Db → Type 0
Same s t = (t.intended_cosign ≡ s.intended_cosign) × Untouched s t

module _ (serai : Serai) where
  -- What the chain says of the events of a block with a hash.
  abbrev IsKind : ℕ → HasEvents → Type 0
  IsKind hash HasEvents.key_gen = serai.key_gen_events hash ≡ some true
  IsKind hash HasEvents.yes =
      (serai.key_gen_events hash ≡ some false)
      × ((serai.burn_with_instruction_events hash ≡ some true)
          ⊎ (serai.batch_events hash ≡ some true)
          ⊎ (serai.new_set_events hash ≡ some true)
          ⊎ (serai.set_retired_events hash ≡ some true))
  IsKind hash HasEvents.no =
      (serai.key_gen_events hash ≡ some false)
      × (serai.burn_with_instruction_events hash ≡ some false)
      × (serai.batch_events hash ≡ some false)
      × (serai.new_set_events hash ≡ some false)
      × (serai.set_retired_events hash ≡ some false)

  abbrev pub HasKind : ℕ → HasEvents → Type 0
  HasKind n e = (b : Block) × (serai.finalized_block_by_number n ≡ some (some b)) × IsKind b.hash e

  -- The cache agrees with the chain.
  abbrev pub IsCached : Db → Type 0
  IsCached s =
      Distinct s.block_has_events_cache
      × ((n : ℕ) (e : HasEvents) → lookup n s.block_has_events_cache ≡ some e → HasKind n e)

  insert-IsCached :
      (n : ℕ) (e : HasEvents) (s : Db)
      → IsCached s
      → HasKind n e
      → IsCached (record s { block_has_events_cache = insert n e s.block_has_events_cache })
  insert-IsCached n e s (d, h) k = (
    insert-Distinct n e s.block_has_events_cache d,
    λ m f found. elim (Bool-cases (n == m)) [
      | inl same ↦
          let n_is : n ≡ m = (==_iff n m).0 same in
          let e_is : e ≡ f =
            ground (arith, lookup-insert n m e s.block_has_events_cache, same, found) in
          subst (λ j. HasKind j f) n_is (subst (HasKind n) e_is k)
      | inr other ↦
          h m f (ground (arith, lookup-insert n m e s.block_has_events_cache, other, found))
    ],
  )

  -- The four kinds of events other than those of key generation.
  abbrev others : ℕ → List (Answer Bool)
  others hash =
      serai.burn_with_instruction_events hash
      ∷ serai.batch_events hash
      ∷ serai.new_set_events hash
      ∷ serai.set_retired_events hash
      ∷ []

  all_empty_lem :
      (hash : ℕ) (s : Db)
      → serai.key_gen_events hash ≡ some false
      → Ensures (λ r t. (t ≡ s) × IsKind hash (events_if r)) (all_empty (others hash) s)
  all_empty_lem hash s none_generated = ground (arith, none_generated)

  find_events_lem :
      (n : ℕ) (b : Block) (s : Db)
      → IsCached s
      → serai.finalized_block_by_number n ≡ some (some b)
      → Ensures (λ e t. HasKind n e × IsCached t × Same s t) (find_events serai n b.hash s)
  find_events_lem n b s c known = elim (Option-cases (serai.key_gen_events b.hash)) [
    | inl failed ↦ ground (arith, failed)
    | inr (true, generated) ↦ ground (arith, generated, known, c)
    | inr (false, none_generated) ↦
        let rest : Ensures (λ e t. HasKind n e × IsCached t × Same s t)
            ((all_empty (others b.hash) >>= λ r. cache_events n (events_if r)) s) =
          Ensures->>= (λ r t. (t ≡ s) × IsKind b.hash (events_if r))
            (λ e t. HasKind n e × IsCached t × Same s t) (all_empty (others b.hash))
            (λ r. cache_events n (events_if r)) s (all_empty_lem b.hash s none_generated)
            (λ r t (same, kind).
              subst
                (λ u.
                  Ensures (λ e t. HasKind n e × IsCached t × Same s t)
                    (cache_events n (events_if r) u))
                (sym same)
                (
                  (b, known, kind),
                  insert-IsCached n (events_if r) s c (b, known, kind),
                  (refl, (refl, refl)),
                )) in
        ground (arith, none_generated, rest)
  ]

  -- A kind that is found, in a state whose cache agrees with the chain.
  abbrev pub Found : ℕ → Db → HasEvents → Db → Type 0
  Found n s e t = HasKind n e × IsCached t × Same s t

  pub block_has_events_lem :
      (n : ℕ) (s : Db) → IsCached s → Ensures (Found n s) (block_has_events serai n s)
  unfolding block_has_events
  block_has_events_lem n s c = elim (Option-cases (lookup n s.block_has_events_cache)) [
    | inr (e, cached) ↦
        subst (λ o. Ensures (Found n s) (events_unless serai n o s)) (sym cached)
          (c.1 n e cached, c, (refl, (refl, refl)))
    | inl fresh ↦
        subst (λ o. Ensures (Found n s) (events_unless serai n o s)) (sym fresh)
          (asked (serai.finalized_block_by_number n) refl)
  ]
    where
      asked :
          (a : Answer (Option Block))
          → serai.finalized_block_by_number n ≡ a
          → Ensures
              (Found n s)
              ((ask a >>= λ found. unwrap found >>= λ b. find_events serai n b.hash) s)
      asked none e = tt
      asked (some none) e = tt
      asked (some (some b)) e = find_events_lem n b s c e
