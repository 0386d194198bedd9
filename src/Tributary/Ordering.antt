-- ===== src/Tributary/Ordering.antt =====
-- coordinator/tributary/src/blockchain.rs: what `verify_block` lets through.
use serai.Common.{
  ℕ, ◌≤◌, ◌≡◌, refl, subst, ap, ==_iff, Bool, false, List, [], ◌∷◌, ltb, Outcome, Action, throw_if,
  gets, modify, map_err, ◌>>◌, ◌∙◌, ok, arith, Ensures, Ensures->>=, Ensures-intro, Ensures-inv,
  ◌>>=◌, nat_eq, pair_eq,
}
use serai.Tributary.Types.{
  TransactionKind, Transaction, Rules, verify_transaction, increment_nonce, block_size_limit,
}
use serai.Tributary.Chain.{Blockchain, verify_block, in_chain}
use serai.Tributary.Block.{
  BlockError, Block, order_of, contains, Progress, Context, verify_one, verify_all, verify,
  encoded_size, check_kind, hashes_of, start, check_content,
}

-- The kinds of the transactions, each at least `last`, come in order.
abbrev pub InOrder : ℕ → List Transaction → Type 0
InOrder last [] = Unit
InOrder last (tx ∷ txs) = (last ≤ order_of tx.kind) × InOrder (order_of tx.kind) txs

-- No provided or unsigned transaction is in the chain, and no unsigned one stands among `seen` or
-- earlier in the list.
abbrev Fresh : (ℕ → Bool) → List ℕ → ℕ → TransactionKind → Type 0
Fresh in_chain seen h (TransactionKind.provided _) = in_chain h ≡ false
Fresh in_chain seen h TransactionKind.unsigned = (in_chain h ≡ false) × (contains h seen ≡ false)
Fresh in_chain seen h (TransactionKind.signed _ _) = Unit

abbrev mark : List ℕ → ℕ → TransactionKind → List ℕ
mark seen h (TransactionKind.provided _) = seen
mark seen h TransactionKind.unsigned = h ∷ seen
mark seen h (TransactionKind.signed _ _) = seen

abbrev pub AreFresh : (ℕ → Bool) → List ℕ → List Transaction → Type 0
AreFresh in_chain seen [] = Unit
AreFresh in_chain seen (tx ∷ txs) =
    Fresh in_chain seen tx.hash tx.kind × AreFresh in_chain (mark seen tx.hash tx.kind) txs

abbrev Stepped : Context → Transaction → Progress → Progress → Type 0
Stepped c tx p p' =
    (p.last ≤ order_of tx.kind)
    × (p'.last ≡ order_of tx.kind)
    × Fresh c.in_chain p.included tx.hash tx.kind
    × (p'.included ≡ mark p.included tx.hash tx.kind)

check_content-keeps :
    (rules : Rules) (c : Context) (tx : Transaction) (p : Progress)
    → Ensures (λ _ p'. (p'.last ≡ p.last) × (p'.included ≡ p.included)) (check_content rules c tx p)
unfolding verify_transaction
check_content-keeps rules c tx p = ground arith

abbrev Kinded : Context → ℕ → TransactionKind → Progress → Progress → Type 0
Kinded c h k p p' =
    (p'.last ≡ p.last) × Fresh c.in_chain p.included h k × (p'.included ≡ mark p.included h k)

check_kind-Kinded :
    (rules : Rules) (c : Context) (tx : Transaction) (k : TransactionKind) (p : Progress)
    → Ensures (λ _ p'. Kinded c tx.hash k p p') (check_kind rules c tx k p)
check_kind-Kinded rules c tx (TransactionKind.provided order) p = ground arith
check_kind-Kinded rules c tx TransactionKind.unsigned p = ground arith
check_kind-Kinded rules c tx (TransactionKind.signed order sig) p = (refl, tt, refl)

abbrev after_kind : Rules → Context → Transaction → Action Progress BlockError (Unit {0})
after_kind rules c tx = do
  misplaced ← gets (λ p. ltb (order_of tx.kind) p.last)
  throw_if misplaced BlockError.wrong_transaction_order
  modify (λ p. record p { last = order_of tx.kind })
  map_err BlockError.transaction_error (check_content rules c tx)

after_kind-lem :
    (rules : Rules) (c : Context) (tx : Transaction) (p : Progress)
    → Ensures
        (λ _ p'.
          (p.last ≤ order_of tx.kind) × (p'.last ≡ order_of tx.kind) × (p'.included ≡ p.included))
        (after_kind rules c tx p)
after_kind-lem rules c tx p =
    ground (arith, check_content-keeps rules c tx (record p { last = order_of tx.kind }))

verify_one-Stepped :
    (rules : Rules) (c : Context) (tx : Transaction) (p : Progress)
    → Ensures (λ _ p'. Stepped c tx p p') (verify_one rules c tx p)
unfolding verify_one
verify_one-Stepped rules c tx p =
    Ensures->>= (λ _ q. Kinded c tx.hash tx.kind p q) (λ _ p'. Stepped c tx p p')
      (check_kind rules c tx tx.kind) (λ _. after_kind rules c tx) p
      (check_kind-Kinded rules c tx tx.kind p)
      (λ a q (l, f, i).
        Ensures-intro (λ _ p'. Stepped c tx p p') _
          (λ a p' e.
            let (le, m, n) =
              Ensures-inv
                (λ _ p'.
                  (q.last ≤ order_of tx.kind)
                  × (p'.last ≡ order_of tx.kind)
                  × (p'.included ≡ q.included))
                _ a p' (after_kind-lem rules c tx q) e in
            (subst (λ n. n ≤ order_of tx.kind) l le, m, f, n ∙ i)))

verify_all-order :
    (rules : Rules) (c : Context) (txs : List Transaction) (p : Progress)
    → Ensures
        (λ _ _. InOrder p.last txs × AreFresh c.in_chain p.included txs)
        (verify_all rules c txs p)
unfolding verify_all
verify_all-order rules c [] p = (tt, tt)
verify_all-order rules c (tx ∷ txs) p =
    Ensures->>= (λ _ p'. Stepped c tx p p')
      (λ _ _. InOrder p.last (tx ∷ txs) × AreFresh c.in_chain p.included (tx ∷ txs))
      (verify_one rules c tx) (λ _. verify_all rules c txs) p (verify_one-Stepped rules c tx p)
      (λ a t (l, m, f, i).
        Ensures-intro (λ _ _. InOrder p.last (tx ∷ txs) × AreFresh c.in_chain p.included (tx ∷ txs))
          _
          (λ a s e.
            let (ordered, others) =
              Ensures-inv (λ _ _. InOrder t.last txs × AreFresh c.in_chain t.included txs) _ a s
                (verify_all-order rules c txs t) e in
            (
              (l, subst (λ n. InOrder n txs) m ordered),
              (f, subst (λ n. AreFresh c.in_chain n txs) i others),
            )))

verify-checks :
    (rules : Rules) (c : Context) (b : Block) (p : Progress)
    → Ensures
        (λ _ _.
          (encoded_size b.transactions ≤ block_size_limit)
          × (b.parent ≡ c.last_block)
          × (rules.merkle (hashes_of b.transactions) ≡ b.transactions_hash)
          × InOrder p.last b.transactions
          × AreFresh c.in_chain p.included b.transactions)
        (verify rules c b p)
unfolding verify
verify-checks rules c b p = ground (
  arith,
  verify_all-order rules c b.transactions p,
  ==_iff b.parent c.last_block,
  ==_iff (rules.merkle (hashes_of b.transactions)) b.transactions_hash,
)

-- A block that a chain verifies, by whatever rules of the application, is within the size limit,
-- builds on the tip, and commits to the hashes of its transactions; they come in the order
-- provided, unsigned, signed; no provided or unsigned one is in the chain already, and no two
-- unsigned ones have the same hash.
pub verify_block_lem :
    (rules : Rules) (b : Block) (allow : Bool) (c : Blockchain)
    → verify_block rules b allow c ≡ ok tt
    → (encoded_size b.transactions ≤ block_size_limit)
      × (b.parent ≡ c.tip)
      × (rules.merkle (hashes_of b.transactions) ≡ b.transactions_hash)
      × InOrder 0 b.transactions
      × AreFresh (in_chain c) [] b.transactions
unfolding verify_block
verify_block_lem rules b allow c e =
    let context : Context = record {
      last_block = c.tip;
      gain = increment_nonce c.participants;
      in_chain = in_chain c;
      allow_non_local_provided = allow;
    } in
    let p : Progress = start c.provided.transactions c.nonces in
    Ensures-inv
      (λ _ _.
        (encoded_size b.transactions ≤ block_size_limit)
        × (b.parent ≡ c.tip)
        × (rules.merkle (hashes_of b.transactions) ≡ b.transactions_hash)
        × InOrder 0 b.transactions
        × AreFresh (in_chain c) [] b.transactions)
      (verify rules context b p) tt (verify rules context b p).1 (verify-checks rules context b p)
      (ap (λ (r : Outcome BlockError (Unit {0})). (r, (verify rules context b p).1)) e)
