-- ===== src/Cosign/Quorum.antt =====
-- coordinator/src/cosign_evaluator.rs: which block `update_latest_cosign` takes for cosigned.
use serai.Common.{
  ℕ, ◌*◌, ◌≤◌, ◌<◌, ◌≡◌, ◌⊎◌, refl, sym, ◌∙◌, subst, Bool, true, false, none, some, [], ◌∷◌, arith,
  ltb, if◌then◌else◌, Map, u64_mod, inl, inr,
}
use serai.Primitives.{NetworkId}
use serai.Cosign.{latest_cosigned_block, max, Db, set_latest, at_least_one}
use serai.Cosign.Evaluator.{
  CosignedBlock, Evaluator, sum_values, sum_stake, needed_stake, reaches, highest_block,
  update_latest_cosign, raise,
}

-- A cosign that is among them.
abbrev pub Holds : Map NetworkId CosignedBlock → CosignedBlock → Type 0
Holds [] cosign = ⊥
Holds ((net, c) ∷ m) cosign = (c ≡ cosign) ⊎ Holds m cosign

-- The networks whose latest cosign is of the block or a later one have more than two thirds of the
-- stake, or there is no stake.
abbrev pub IsQuorate : Map NetworkId ℕ → Map NetworkId CosignedBlock → ℕ → Type 0
IsQuorate stakes cosigns n =
    (sum_values stakes ≡ 0) ⊎ (2 * sum_values stakes < 3 * sum_stake stakes n cosigns)

reaches-IsQuorate :
    (stakes : Map NetworkId ℕ) (cosigns : Map NetworkId CosignedBlock) (n : ℕ)
    → 2 * sum_values stakes < u64_mod
    → reaches stakes cosigns n ≡ true
    → IsQuorate stakes cosigns n
reaches-IsQuorate stakes cosigns n fits h = ground (arith, fits, h)

-- The highest block is one of those that are tested, or where the search began, and no tested one
-- that enough stake has cosigned is above it.
abbrev IsHighest :
    Map NetworkId ℕ → Map NetworkId CosignedBlock → Map NetworkId CosignedBlock → ℕ → ℕ → Type 0
IsHighest stakes cosigns left from highest =
    ((highest ≡ from)
      ⊎ ((c : CosignedBlock) × Holds left c
          × (c.block_number ≡ highest)
          × (reaches stakes cosigns highest ≡ true)))
    × (from ≤ highest)
    × ((c : CosignedBlock)
        → Holds left c
        → reaches stakes cosigns c.block_number ≡ true
        → c.block_number ≤ highest)

-- A cosign that reaches is put before those that are left.
IsHighest-behind :
    (stakes : Map NetworkId ℕ) (cosigns left : Map NetworkId CosignedBlock) (net : NetworkId)
    (cosign : CosignedBlock) (from next highest : ℕ)
    → ((next ≡ from) ⊎ ((cosign.block_number ≡ next) × (reaches stakes cosigns next ≡ true)))
    → from ≤ next
    → (reaches stakes cosigns cosign.block_number ≡ true → cosign.block_number ≤ next)
    → IsHighest stakes cosigns left next highest
    → IsHighest stakes cosigns ((net, cosign) ∷ left) from highest
IsHighest-behind stakes cosigns left net cosign from next highest is_next above covers
      (attained, up, covered) =
    (
      elim attained [
        | inr (c, held, at, r) ↦ inr (c, inr held, at, r)
        | inl same ↦ elim is_next [
          | inl stays ↦ inl (same ∙ stays)
          | inr (n_is, h) ↦ inr (
            cosign,
            inl refl,
            n_is ∙ sym same,
            subst (λ n. reaches stakes cosigns n ≡ true) (sym same) h,
          )
        ]
      ],
      omega (arith, above, up),
      λ c held r. elim held [
        | inr later ↦ covered c later r
        | inl same ↦
            subst (λ d. d.block_number ≤ highest) same
              (omega (
                arith,
                up,
                covers (subst (λ d. reaches stakes cosigns d.block_number ≡ true) (sym same) r),
              ))
      ],
    )

max-cases : (a b : ℕ) → ((max a b ≡ a) × (b ≤ a)) ⊎ ((max a b ≡ b) × (a ≤ b))
max-cases a b = ground arith

highest_block_lem :
    (stakes : Map NetworkId ℕ) (cosigns left : Map NetworkId CosignedBlock) (from : ℕ)
    → IsHighest stakes cosigns left from (highest_block stakes cosigns left from)
highest_block_lem stakes cosigns [] from = (inl refl, omega arith, λ c h r. absurd h)
highest_block_lem stakes cosigns ((net, cosign) ∷ left) from =
    tested (λ next. highest_block_lem stakes cosigns left next)
      (reaches stakes cosigns cosign.block_number) refl
  where
    n : ℕ
    n = cosign.block_number

    tested :
        ((next : ℕ) → IsHighest stakes cosigns left next (highest_block stakes cosigns left next))
        → (r : Bool) → reaches stakes cosigns n ≡ r
        → IsHighest stakes cosigns
            ((net, cosign) ∷ left)
            from
            (highest_block stakes cosigns left (if r then max from n else from))
    tested rest true e =
        IsHighest-behind stakes cosigns left net cosign from (max from n)
          (highest_block stakes cosigns left (max from n))
          (elim (max-cases from n) [
            | inl (stays, _) ↦ inl stays
            | inr (rises, _) ↦
                inr (sym rises, subst (λ m. reaches stakes cosigns m ≡ true) (sym rises) e)
          ])
          (ground (arith, max-cases from n)) (λ _. ground (arith, max-cases from n))
          (rest (max from n))
    tested rest false e =
        IsHighest-behind stakes cosigns left net cosign from from
          (highest_block stakes cosigns left from) (inl refl) (omega arith)
          (λ r. absurd (ground (arith, e, r))) (rest from)

at_least_one_lem : (n : ℕ) → 0 < n → at_least_one n ≡ n
at_least_one_lem n h = ground (arith, h)

reaches_lem :
    (stakes : Map NetworkId ℕ) (cosigns : Map NetworkId CosignedBlock) (n : ℕ)
    → needed_stake (sum_values stakes) < sum_stake stakes n cosigns
    → reaches stakes cosigns n ≡ true
reaches_lem stakes cosigns n h = ground (arith, h)

raise_lem :
    (highest : ℕ) (s : Db)
    → ((raise highest s ≡ s) × (highest ≤ latest_cosigned_block s))
      ⊎ ((latest_cosigned_block (raise highest s) ≡ highest) × (latest_cosigned_block s < highest))
raise_lem highest s = raised (ltb (latest_cosigned_block s) highest) refl
  where
    raised :
        (b : Bool)
        → ltb (latest_cosigned_block s) highest ≡ b
        → (((if b then set_latest highest s else s) ≡ s) × (highest ≤ latest_cosigned_block s))
          ⊎ ((latest_cosigned_block (if b then set_latest highest s else s) ≡ highest)
              × (latest_cosigned_block s < highest))
    raised true h = inr (at_least_one_lem highest (ground (arith, h)), ground (arith, h))
    raised false h = inl (refl, ground (arith, h))

-- What an update leaves in the database.
abbrev IsUpdated : Evaluator → Map NetworkId ℕ → Db → Type 0
IsUpdated e stakes s =
    (latest_cosigned_block e.db ≤ latest_cosigned_block s)
    × ((s ≡ e.db)
        ⊎ ((c : CosignedBlock) × Holds e.latest_cosigns c
            × (c.block_number ≡ latest_cosigned_block s)
            × IsQuorate stakes e.latest_cosigns c.block_number))
    × ((c : CosignedBlock)
        → Holds e.latest_cosigns c
        → needed_stake (sum_values stakes) < sum_stake stakes c.block_number e.latest_cosigns
        → c.block_number ≤ latest_cosigned_block s)

updated_lem :
    (e : Evaluator) (stakes : Map NetworkId ℕ)
    → e.stakes ≡ some stakes
    → 2 * sum_values stakes < u64_mod
    → IsUpdated e stakes (update_latest_cosign e).db
unfolding update_latest_cosign
updated_lem e stakes known fits =
    let cosigns : Map NetworkId CosignedBlock = e.latest_cosigns in
    let highest : ℕ = highest_block stakes cosigns cosigns 0 in
    let (attained, up, covered) = highest_block_lem stakes cosigns cosigns 0 in
    let cover : (c : CosignedBlock)
        → Holds cosigns c
        → needed_stake (sum_values stakes) < sum_stake stakes c.block_number cosigns
        → c.block_number ≤ highest =
      λ c held r. covered c held (reaches_lem stakes cosigns c.block_number r) in
    subst
      (λ o.
        IsUpdated e stakes
          (elim o as (λ _. Evaluator) [
            | none ↦ e
            | some stakes ↦ record e { db = raise (highest_block stakes cosigns cosigns 0) e.db }
          ]).db)
      (sym known)
      (elim (raise_lem highest e.db) [
        | inl (same, above) ↦
            subst (IsUpdated e stakes) (sym same)
              (omega arith, inl refl, λ c held r. omega (arith, above, cover c held r))
        | inr (raised, above) ↦ (
          omega (arith, raised, above),
          elim attained [
            | inl zero_is ↦ absurd (omega (arith, zero_is, above))
            | inr (c, held, at, r) ↦ inr (
              c,
              held,
              at ∙ sym raised,
              reaches-IsQuorate stakes cosigns c.block_number fits
                  (subst (λ n. reaches stakes cosigns n ≡ true) (sym at) r),
            )
          ],
          λ c held r. omega (arith, raised, cover c held r),
        )
      ])

-- Where the stakes are known and twice their sum fits 64 bits, an update never lowers the latest
-- cosigned block, and leaves the database unless the new block is that of a cosign held, such that
-- the networks whose latest cosign is of it or a later block have more than two thirds of the stake,
-- or there is no stake.
pub update_latest_cosign-IsQuorate :
    (e : Evaluator) (stakes : Map NetworkId ℕ)
    → e.stakes ≡ some stakes
    → 2 * sum_values stakes < u64_mod
    → (latest_cosigned_block e.db ≤ latest_cosigned_block (update_latest_cosign e).db)
      × (((update_latest_cosign e).db ≡ e.db)
          ⊎ ((c : CosignedBlock) × Holds e.latest_cosigns c
              × (c.block_number ≡ latest_cosigned_block (update_latest_cosign e).db)
              × IsQuorate stakes e.latest_cosigns c.block_number))
update_latest_cosign-IsQuorate e stakes known fits =
    let (above, raised, _) = updated_lem e stakes known fits in (above, raised)

-- Where the stakes are known and twice their sum fits 64 bits, an update leaves no cosign held, whose
-- block has more than the needed stake, above the latest cosigned block.
pub update_latest_cosign_covers :
    (e : Evaluator) (stakes : Map NetworkId ℕ) (c : CosignedBlock)
    → e.stakes ≡ some stakes
    → 2 * sum_values stakes < u64_mod
    → Holds e.latest_cosigns c
    → needed_stake (sum_values stakes) < sum_stake stakes c.block_number e.latest_cosigns
    → c.block_number ≤ latest_cosigned_block (update_latest_cosign e).db
update_latest_cosign_covers e stakes c known fits held enough =
    let (_, _, covered) = updated_lem e stakes known fits in covered c held enough
