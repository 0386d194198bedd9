-- ===== src/Cosign/Distinct.antt =====
-- coordinator/src/cosign_evaluator.rs: cosigns of a block that is not on our chain.
use serai.Common.{
  ℕ, ◌+◌, ◌%◌, ◌≡◌, refl, sym, ap, ◌∙◌, subst, Bool, true, false, Option, none, some, List, [], ◌∷◌,
  arith, ◌||◌, if◌then◌else◌, Map, lookup, insert, contains_key, nat_eq, pair_eq, lookup-insert,
  contains_key-insert_self, u64_mod, inl, inr, Bool-cases, Option-cases, beq, beq_true, panic,
}
use serai.Primitives.{NetworkId, network_eq, networks, serai_network, bitcoin, ethereum, monero}
use serai.ValidatorSets.{ValidatorSet}
use serai.Cosign.Keeping.{ends}
use serai.Cosign.Evaluator.{
  CosignedBlock, Evaluator, Settled, on_distinct_chain, mark_distinct, count_stake, is_split,
  settled_set, load_cosigns,
}

-- Where the set of the cosign's network is on the distinct chain, all of the stake is counted there.
count_stake-equal :
    (later : Settled) (net : NetworkId) (set : ValidatorSet)
    (distinct : Map ValidatorSet (Unit {0})) (nets : List NetworkId) (n : ℕ)
    → settled_set later net ≡ some set
    → contains_key set distinct ≡ true
    → (m : ℕ) × (count_stake later net distinct nets (n, n) ≡ (m, m))
count_stake-equal later net set distinct [] n found marked = (n, refl)
count_stake-equal later net set distinct (other ∷ nets) n found marked =
    subst (λ o. Counts o) (sym found)
      (staked (later.settled_stake set.0) (beq other serai_network)
        (λ k. count_stake-equal later net set distinct nets k found marked))
  where
    adds : Bool → Option ValidatorSet → ℕ × ℕ
    adds skipped o =
        if skipped then count_stake later net distinct nets (n, n) else elim o as (λ _. ℕ × ℕ) [
          | none ↦ count_stake later net distinct nets (n, n)
          | some set ↦ elim (later.settled_stake set.0) as (λ _. ℕ × ℕ) [
            | none ↦ count_stake later net distinct nets (n, n)
            | some stake ↦ count_stake later net distinct nets (
              (n + stake) % u64_mod,
              if contains_key set distinct then (n + stake) % u64_mod else n,
            )
          ]
        ]

    Counts : Option ValidatorSet → Type 0
    Counts o = (m : ℕ) × (adds (beq other serai_network) o ≡ (m, m))

    staked :
        (o : Option ℕ) (skipped : Bool)
        → ((k : ℕ) → (m : ℕ) × (count_stake later net distinct nets (k, k) ≡ (m, m)))
        → (m : ℕ) × ((if skipped
              then count_stake later net distinct nets (n, n)
              else elim o as (λ _. ℕ × ℕ) [
                | none ↦ count_stake later net distinct nets (n, n)
                | some stake ↦ count_stake later net distinct nets (
                  (n + stake) % u64_mod,
                  if contains_key set distinct then (n + stake) % u64_mod else n,
                )
              ])
            ≡ (m, m))
    staked o true rest = rest n
    staked none false rest = rest n
    staked (some stake) false rest =
        subst
          (λ b.
            (m : ℕ) × (count_stake later net distinct nets
                ((n + stake) % u64_mod, if b then (n + stake) % u64_mod else n)
              ≡ (m, m)))
          (sym marked) (rest ((n + stake) % u64_mod))

is_split-equal : (m : ℕ) → is_split (m, m) ≡ true
is_split-equal m = ground arith

-- A signed cosign of a distinct block, by the set that is its network's in the end too, panics the
-- evaluator, whatever stake that set and the others have.
pub on_distinct_chain-panics :
    (later : Settled) (cosign : CosignedBlock) (set : ValidatorSet) (e : Evaluator)
    → settled_set later cosign.network ≡ some set
    → (on_distinct_chain later cosign set e).0 ≡ panic
on_distinct_chain-panics later cosign set e found =
    let marked : Map ValidatorSet (Unit {0}) = insert set tt e.distinct_chain in
    let (m, counted) =
      count_stake-equal later cosign.network set marked networks 0 found
        (contains_key-insert_self set tt e.distinct_chain) in
    subst (λ b. (ends b (mark_distinct set e)).0 ≡ panic)
      (sym (ap is_split counted ∙ is_split-equal m)) refl

-- The cosigns are loaded as they are stored.
load_cosigns-keeps :
    (net : NetworkId) (cosign : CosignedBlock) (nets : List NetworkId)
    (stored loaded : Map NetworkId CosignedBlock)
    → lookup net stored ≡ some cosign
    → lookup net loaded ≡ some cosign
    → lookup net (load_cosigns nets stored loaded) ≡ some cosign
load_cosigns-keeps net cosign [] stored loaded held kept = kept
load_cosigns-keeps net cosign (other ∷ nets) stored loaded held kept =
    elim (Option-cases (lookup other stored))
      as (λ _. lookup net (load_cosigns (other ∷ nets) stored loaded) ≡ some cosign) [
        | inl missing ↦
            subst (λ o. lookup net (loads o) ≡ some cosign) (sym missing)
              (load_cosigns-keeps net cosign nets stored loaded held kept)
        | inr (c, found) ↦
            subst (λ o. lookup net (loads o) ≡ some cosign) (sym found)
              (load_cosigns-keeps net cosign nets stored (insert other c loaded) held
                (elim (Bool-cases (beq other net))
                  as (λ _. lookup net (insert other c loaded) ≡ some cosign) [
                    | inl same ↦
                        rw (lookup-insert other net c loaded, same)
                          (sym found ∙ ap (λ j. lookup j stored) (beq_true other net same) ∙ held)
                    | inr differs ↦ rw (lookup-insert other net c loaded, differs) kept
                  ]))
      ]
  where
    loads : Option CosignedBlock → Map NetworkId CosignedBlock
    loads o = elim o [
      | none ↦ load_cosigns nets stored loaded
      | some c ↦ load_cosigns nets stored (insert other c loaded)
    ]

abbrev listed : NetworkId → List NetworkId → Bool
listed net [] = false
listed net (other ∷ nets) = beq other net || listed net nets

pub load_lem :
    (net : NetworkId) (cosign : CosignedBlock) (nets : List NetworkId)
    (stored loaded : Map NetworkId CosignedBlock)
    → listed net nets ≡ true
    → lookup net stored ≡ some cosign
    → lookup net (load_cosigns nets stored loaded) ≡ some cosign
load_lem net cosign [] stored loaded within held = absurd (ground (arith, within))
load_lem net cosign (other ∷ nets) stored loaded within held =
    found (beq other net) refl (lookup other stored) refl (load_lem net cosign nets stored)
  where
    loads : Option CosignedBlock → Map NetworkId CosignedBlock
    loads o = elim o [
      | none ↦ load_cosigns nets stored loaded
      | some c ↦ load_cosigns nets stored (insert other c loaded)
    ]

    found :
        (b : Bool)
        → beq other net ≡ b
        → (o : Option CosignedBlock) → lookup other stored ≡ o
        → ((loaded : Map NetworkId CosignedBlock)
            → listed net nets ≡ true
            → lookup net stored ≡ some cosign
            → lookup net (load_cosigns nets stored loaded) ≡ some cosign)
        → lookup net (loads o) ≡ some cosign
    found true same o at rest =
        let here : lookup other stored ≡ some cosign =
          ap (λ j. lookup j stored) (beq_true other net same) ∙ held in
        subst (λ o. lookup net (loads o) ≡ some cosign) (sym here ∙ at)
          (load_cosigns-keeps net cosign nets stored (insert other cosign loaded) held
            (rw (lookup-insert other net cosign loaded, same) refl))
    found false differs none at rest = rest loaded (ground (arith, within, differs)) held
    found false differs (some c) at rest =
        rest (insert other c loaded) (ground (arith, within, differs)) held

pub networks_lem : (net : NetworkId) → listed net networks ≡ true
networks_lem serai_network = refl
networks_lem bitcoin = refl
networks_lem ethereum = refl
networks_lem monero = refl

pub on_distinct_chain-latest_cosign :
    (later : Settled) (cosign : CosignedBlock) (set : ValidatorSet) (e : Evaluator)
    → (on_distinct_chain later cosign set e).1.latest_cosign ≡ e.latest_cosign
on_distinct_chain-latest_cosign later cosign set e = split (
    is_split
      (count_stake later cosign.network (mark_distinct set e).distinct_chain networks (0, 0)))
  where
    split : (b : Bool) → (ends b (mark_distinct set e)).1.latest_cosign ≡ e.latest_cosign
    split true = refl
    split false = refl
