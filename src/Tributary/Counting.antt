-- ===== src/Tributary/Counting.antt =====
-- coordinator/tributary/src/provided.rs: how the chain counts its provided transactions.
use serai.Common.{
  ℕ, ◌+◌, ◌%◌, ◌≡◌, ◌==◌, ◌||◌, Bool, true, false, refl, ap, subst, ◌∙◌, if◌then◌else◌, List, [],
  ◌∷◌, ==_iff, u32_mod, u64_mod, ok, err, panic, Outcome, Action, gets, modify, ◌>>=◌, ◌>>◌, arith,
  Ensures, Ensures->>=, Ensures-intro, Ensures-inv, Map, insert, nat_eq, pair_eq, lookup-insert,
}
use serai.Tributary.Types.{TransactionKind, Transaction, TransactionError, Rules}
use serai.Tributary.Block.{Block, BlockError}
use serai.Tributary.Mempool.{Mempool, remove}
use serai.Tributary.Chain.{
  Blockchain, ProvidedTransactions, quantity, complete, add_kind, add_txs, add_block, forget, lift,
  hash_of, verify_block,
}

complete-count :
    (committed : Map ℕ ℕ) (order b h : ℕ) (p : ProvidedTransactions)
    → Ensures
        (λ _ p'. quantity order p'.on_chain_quantity ≡ (quantity order committed + 1) % u32_mod)
        (complete committed order b h p)
unfolding complete
complete-count committed order b h p = ground (
  arith,
  lookup-insert order order ((quantity order committed + 1) % u32_mod) p.on_chain_quantity,
  ==_iff order order,
)

add_kind-count :
    (committed : Map ℕ ℕ) (order b : ℕ) (tx : Transaction) (c : Blockchain)
    → Ensures
        (λ _ c'.
          quantity order c'.provided.on_chain_quantity ≡ (quantity order committed + 1) % u32_mod)
        (add_kind committed b tx (TransactionKind.provided order) c)
add_kind-count committed order b tx c =
    ground (arith, complete-count committed order b tx.hash c.provided)

-- Whether a transaction is a provided one of the order, and whether one of the list is.
abbrev pub is_of : ℕ → TransactionKind → Bool
is_of order (TransactionKind.provided o) = o == order
is_of order TransactionKind.unsigned = false
is_of order (TransactionKind.signed _ _) = false

abbrev pub completes : ℕ → List Transaction → Bool
completes order [] = false
completes order (tx ∷ txs) = is_of order tx.kind || completes order txs

-- The count of the order, as the chain has it.
abbrev pub on_chain : ℕ → Blockchain → ℕ
on_chain order c = quantity order c.provided.on_chain_quantity

complete-other :
    (committed : Map ℕ ℕ) (order o b h : ℕ) (p : ProvidedTransactions)
    → (o == order) ≡ false
    → Ensures
        (λ _ p'. quantity order p'.on_chain_quantity ≡ quantity order p.on_chain_quantity)
        (complete committed o b h p)
unfolding complete
complete-other committed order o b h p other =
    ground (
      arith,
      other,
      lookup-insert o order ((quantity o committed + 1) % u32_mod) p.on_chain_quantity,
    )

forget-provided : (h : ℕ) (c : Blockchain) → Ensures (λ _ c'. c'.provided ≡ c.provided) (forget h c)
forget-provided h c = kept (remove h c.mempool)
  where
    kept :
        (r : Outcome TransactionError (Unit {0}) × Mempool)
        → Ensures {E = BlockError}
            (λ _ c'. c'.provided ≡ c.provided)
            (elim r.0 as (λ _. Outcome BlockError (Unit {0}) × Blockchain) [
              | ok _ ↦ (ok tt, record c { mempool = r.1 })
              | err _ ↦ (panic, record c { mempool = r.1 })
              | panic ↦ (panic, record c { mempool = r.1 })
            ])
    kept (ok _, m) = refl
    kept (err e, m) = tt
    kept (panic, m) = tt

-- What adding one transaction makes of the count of an order.
abbrev Counted : Map ℕ ℕ → ℕ → Bool → Blockchain → Blockchain → Type 0
Counted committed order does c c' =
    on_chain order c'
    ≡ (if does then (quantity order committed + 1) % u32_mod else on_chain order c)

add_kind-Counted :
    (committed : Map ℕ ℕ) (order b : ℕ) (tx : Transaction) (k : TransactionKind) (c : Blockchain)
    → Ensures (λ _ c'. Counted committed order (is_of order k) c c') (add_kind committed b tx k c)
add_kind-Counted committed order b tx (TransactionKind.provided o) c = compared (o == order) refl
  where
    compared :
        (same : Bool)
        → (o == order) ≡ same
        → Ensures
            (λ _ c'. Counted committed order same c c')
            (add_kind committed b tx (TransactionKind.provided o) c)
    compared true same =
        subst
          (λ j.
            Ensures (λ _ c'. Counted committed j true c c')
              (add_kind committed b tx (TransactionKind.provided o) c))
          ((==_iff o order).0 same) (add_kind-count committed o b tx c)
    compared false other =
        ground (arith, complete-other committed order o b tx.hash c.provided other)
add_kind-Counted committed order b tx TransactionKind.unsigned c =
    let c₁ : Blockchain = record c { unsigned_included = insert tx.hash tt c.unsigned_included } in
    Ensures-intro (λ _ c'. Counted committed order false c c') (forget tx.hash c₁)
      (λ u c' e.
        ap (λ p. quantity order p.on_chain_quantity)
          (Ensures-inv (λ _ c'. c'.provided ≡ c₁.provided) (forget tx.hash c₁) u c'
            (forget-provided tx.hash c₁) e))
add_kind-Counted committed order b tx (TransactionKind.signed o s) c =
    let c₁ : Blockchain = record c {
      nonces = insert (s.signer, o) ((s.nonce + 1) % u32_mod) c.nonces;
    } in
    Ensures-intro (λ _ c'. Counted committed order false c c') (forget tx.hash c₁)
      (λ u c' e.
        ap (λ p. quantity order p.on_chain_quantity)
          (Ensures-inv (λ _ c'. c'.provided ≡ c₁.provided) (forget tx.hash c₁) u c'
            (forget-provided tx.hash c₁) e))

add_txs-Counted :
    (committed : Map ℕ ℕ) (order b : ℕ) (txs : List Transaction) (c : Blockchain)
    → Ensures
        (λ _ c'. Counted committed order (completes order txs) c c')
        (add_txs committed b txs c)
unfolding add_txs
add_txs-Counted committed order b [] c = refl
add_txs-Counted committed order b (tx ∷ txs) c =
    Ensures->>= (λ _ c'. Counted committed order (is_of order tx.kind) c c')
      (λ _ c'. Counted committed order (completes order (tx ∷ txs)) c c')
      (add_kind committed b tx tx.kind) (λ _. add_txs committed b txs) c
      (add_kind-Counted committed order b tx tx.kind c)
      (λ _ t here.
        Ensures-intro (λ _ c'. Counted committed order (completes order (tx ∷ txs)) c c')
          (add_txs committed b txs t)
          (λ u c' e.
            joined (is_of order tx.kind) (completes order txs) (on_chain order c) (on_chain order t)
              (on_chain order c') here
              (Ensures-inv (λ _ c'. Counted committed order (completes order txs) t c')
                (add_txs committed b txs t) u c' (add_txs-Counted committed order b txs t) e)))
  where
    joined :
        (first more : Bool) (n m k : ℕ)
        → m ≡ (if first then (quantity order committed + 1) % u32_mod else n)
        → k ≡ (if more then (quantity order committed + 1) % u32_mod else m)
        → k ≡ (if first || more then (quantity order committed + 1) % u32_mod else n)
    joined true true n m k h e = e
    joined true false n m k h e = e ∙ h
    joined false true n m k h e = e
    joined false false n m k h e = e ∙ h

-- However many provided transactions of an order a block has, among whatever others, adding the
-- block to the chain raises the count of the order on the chain by one, as a `u32`: each takes the
-- count that the database had before the block. The count stays if the block has none of them.
pub add_block-counts_once :
    (rules : Rules) (order : ℕ) (b : Block) (c c' : Blockchain)
    → add_block rules b c ≡ (ok tt, c')
    → on_chain order c' ≡ (
        if completes order b.transactions
        then (on_chain order c + 1) % u32_mod
        else on_chain order c)
unfolding add_block
add_block-counts_once rules order b c c' e = verified (verify_block rules b true c) e
  where
    tip_set : Blockchain
    tip_set = record c {
      tip = hash_of rules b;
      block_number = (c.block_number + 1) % u64_mod;
      block_hashes = insert ((c.block_number + 1) % u64_mod) (hash_of rules b) c.block_hashes;
      blocks = insert (hash_of rules b) b c.blocks;
      block_after = insert b.parent (hash_of rules b) c.block_after;
    }

    rest : Action Blockchain BlockError (Unit {0})
    rest = do
      committed ← gets (λ c. c.provided.on_chain_quantity)
      modify (λ c. record c {
        tip = hash_of rules b;
        block_number = (c.block_number + 1) % u64_mod;
        block_hashes = insert ((c.block_number + 1) % u64_mod) (hash_of rules b) c.block_hashes;
        blocks = insert (hash_of rules b) b c.blocks;
        block_after = insert b.parent (hash_of rules b) c.block_after;
      })
      add_txs committed (hash_of rules b) b.transactions

    verified :
        (v : Outcome BlockError (Unit {0}))
        → (lift v >> rest) c ≡ (ok tt, c')
        → on_chain order c' ≡ (
            if completes order b.transactions
            then (on_chain order c + 1) % u32_mod
            else on_chain order c)
    verified (ok _) e =
        Ensures-inv
          (λ _ c'.
            Counted c.provided.on_chain_quantity order (completes order b.transactions) tip_set c')
          (add_txs c.provided.on_chain_quantity (hash_of rules b) b.transactions tip_set) tt c'
          (add_txs-Counted c.provided.on_chain_quantity order (hash_of rules b) b.transactions
            tip_set)
          e
    verified (err x) e = absurd (ground (arith, e))
    verified panic e = absurd (ground (arith, e))
