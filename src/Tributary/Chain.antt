-- ===== src/Tributary/Chain.antt =====
-- coordinator/tributary/src/provided.rs and blockchain.rs: the provided transactions, and the chain
-- that blocks are added to. The state is the fields of `Blockchain` with the entries of its
-- database; a write and the copy of it in memory are one field.
use serai.Common.{
  ℕ, ◌+◌, ◌%◌, Bool, true, false, not, ◌||◌, Option, none, some, List, [], ◌∷◌, ◌++◌, Map, lookup,
  insert, contains_key, nat_eq, pair_eq, ltb, leb, ◌==◌, if◌then◌else◌, u32_mod, u64_mod, Action,
  Outcome, ok, err, panic, ◌>>=◌, ◌>>◌, pure, throw, throw_if, gets, modify, assert, abort, unwrap,
}
use serai.Tributary.Types.{
  TransactionError, TransactionKind, Transaction, Rules, Nonces, Gain, verify_transaction,
  chain_nonce, increment_nonce,
}
use serai.Tributary.Block.{
  BlockError, Block, Provided, front, pop_front, contains, verify, start, Context, new_block,
}
use serai.Tributary.Mempool.{Mempool, cut, add, remove, next_nonce_in_mempool, block}

pub data ProvidedError : Type 0 where
  not_provided already_provided local_mismatches_on_chain : ProvidedError
  invalid_provided : TransactionError → ProvidedError

pub record ProvidedTransactions : Type 0 where
  pub transactions : Provided
  pub known : Map ℕ Transaction
  pub current_provided : List ℕ
  pub local_quantity : Map ℕ ℕ
  pub on_chain_quantity : Map ℕ ℕ
  pub on_chain_tx : Map (ℕ × ℕ) ℕ
  pub block_quantity : Map (ℕ × ℕ) ℕ

abbrev pub quantity : ℕ → Map ℕ ℕ → ℕ
quantity order m = elim (lookup order m) [ none ↦ 0 | some n ↦ n ]

abbrev push_back : ℕ → Transaction → Provided → Provided
push_back order tx p = elim (lookup order p) [
  | none ↦ insert order (tx ∷ []) p
  | some txs ↦ insert order (txs ++ tx ∷ []) p
]

abbrev no_nonce : Gain
no_nonce signer order nonces = (none, nonces)

abbrev to_provided :
    Outcome TransactionError (Unit {0}) → Action ProvidedTransactions ProvidedError (Unit {0})
to_provided (ok _) = pure tt
to_provided (err e) = throw (ProvidedError.invalid_provided e)
to_provided panic = abort

-- The writes of `provide`: the transaction and the count of its order.
abbrev record_local : ℕ → Transaction → ProvidedTransactions → ProvidedTransactions
record_local order tx p = record p {
  known = insert tx.hash tx p.known;
  local_quantity = insert order ((quantity order p.local_quantity + 1) % u32_mod) p.local_quantity;
}

-- A transaction that the chain has already is compared with it; the writes are dropped where they
-- differ.
abbrev late : ℕ → Transaction → Action ProvidedTransactions ProvidedError (Unit {0})
late order tx = do
  expected ← gets (λ p. lookup (order, quantity order p.local_quantity) p.on_chain_tx)
  h ← unwrap expected
  throw_if (not (tx.hash == h)) ProvidedError.local_mismatches_on_chain
  modify (record_local order tx)

abbrev early : ℕ → Transaction → Action ProvidedTransactions ProvidedError (Unit {0})
early order tx = do
  modify (record_local order tx)
  modify (λ p. record p {
    current_provided = p.current_provided ++ tx.hash ∷ [];
    transactions = push_back order tx p.transactions;
  })

abbrev provide_in :
    Rules → Transaction → TransactionKind → Action ProvidedTransactions ProvidedError (Unit {0})
provide_in rules tx TransactionKind.unsigned = throw ProvidedError.not_provided
provide_in rules tx (TransactionKind.signed _ _) = throw ProvidedError.not_provided
provide_in rules tx (TransactionKind.provided order) = do
  to_provided (verify_transaction rules no_nonce tx []).0
  there ← gets (λ p. contains_key tx.hash p.known)
  throw_if there ProvidedError.already_provided
  is_late ← gets (λ p. ltb (quantity order p.local_quantity) (quantity order p.on_chain_quantity))
  if is_late then late order tx else early order tx

unfoldable provide : Rules → Transaction → Action ProvidedTransactions ProvidedError (Unit {0})
provide rules tx = provide_in rules tx tx.kind

-- The transaction at the front is the completed one.
abbrev complete_local : ℕ → Option Transaction → Action ProvidedTransactions BlockError (Unit {0})
complete_local h none = pure tt
complete_local h (some next) = do
  assert (next.hash == h)
  listed ← gets (λ p. contains h p.current_provided)
  assert listed
  modify (λ p. record p { current_provided = cut h p.current_provided })

-- The count is read from the database, not from the transaction that the writes go to: `committed`
-- is what it holds.
unfoldable pub complete : Map ℕ ℕ → ℕ → ℕ → ℕ → Action ProvidedTransactions BlockError (Unit {0})
complete committed order b h = do
  next ← gets (λ p. front order p.transactions)
  modify (λ p. record p { transactions = pop_front order p.transactions })
  complete_local h next
  modify (λ p.
      let id = quantity order committed in
      record p {
        on_chain_tx = insert (order, id) h p.on_chain_tx;
        on_chain_quantity = insert order ((id + 1) % u32_mod) p.on_chain_quantity;
        block_quantity = insert (b, order) ((id + 1) % u32_mod) p.block_quantity;
      })

pub record Blockchain : Type 0 where
  pub participants : List ℕ
  pub block_number : ℕ
  pub tip : ℕ
  pub provided : ProvidedTransactions
  pub mempool : Mempool
  pub nonces : Nonces
  pub unsigned_included : Map ℕ (Unit {0})
  pub provided_included : Map ℕ (Unit {0})
  pub block_hashes : Map ℕ ℕ
  pub blocks : Map ℕ Block
  pub block_after : Map ℕ ℕ

abbrev pub hash_of : Rules → Block → ℕ
hash_of rules b = rules.hash_block b.parent b.transactions_hash

abbrev pub in_chain : Blockchain → ℕ → Bool
in_chain c h = contains_key h c.unsigned_included || contains_key h c.provided_included

-- The count of the provided transactions of the order is at least the block's.
unfoldable locally_provided_txs_in_block : ℕ → ℕ → ProvidedTransactions → Bool
locally_provided_txs_in_block b order p = elim (lookup (b, order) p.block_quantity) [
  | none ↦ true
  | some n ↦ leb n (quantity order p.local_quantity)
]

unfoldable pub next_nonce : ℕ → ℕ → Blockchain → Option ℕ
unfolding next_nonce_in_mempool
next_nonce signer order c = elim (next_nonce_in_mempool signer order c.mempool) [
  | some n ↦ some n
  | none ↦ chain_nonce c.participants signer order c.nonces
]

-- A call of the mempool.
abbrev on_mempool : {E A : Type 0} → Action Mempool E A → Action Blockchain E A
on_mempool m c = let (r, p) = m c.mempool in (r, record c { mempool = p })

unfoldable add_transaction : Rules → Bool → Transaction → Action Blockchain TransactionError Bool
unfolding add
add_transaction rules internal tx c =
    on_mempool
      (add rules (λ signer order. chain_nonce c.participants signer order c.nonces) internal
        (λ h. contains_key h c.unsigned_included) tx)
      c

-- `verify_block`: what the check wrote is dropped.
unfoldable pub verify_block : Rules → Block → Bool → Blockchain → Outcome BlockError (Unit {0})
unfolding verify
verify_block rules b allow c =
    let context : Context = record {
      last_block = c.tip;
      gain = increment_nonce c.participants;
      in_chain = in_chain c;
      allow_non_local_provided = allow;
    } in
    (verify rules context b (start c.provided.transactions c.nonces)).0

abbrev all_provided : Provided → List Transaction
all_provided [] = []
all_provided ((_, txs) ∷ m) = txs ++ all_provided m

-- `build_block`: a block that does not verify panics.
unfoldable build_block : Rules → Blockchain → Option Block
unfolding block new_block verify_block
build_block rules c = elim (block c.mempool) [
  | none ↦ none
  | some txs ↦ elim (new_block rules c.tip (all_provided c.provided.transactions) txs) [
    | none ↦ none
    | some b ↦ elim (verify_block rules b false c) [ ok _ ↦ some b | err _ ↦ none | panic ↦ none ]
  ]
]

abbrev pub forget : ℕ → Action Blockchain BlockError (Unit {0})
forget h c =
    let (r, p) = remove h c.mempool in
    elim r [
      | ok _ ↦ (ok tt, record c { mempool = p })
      | err _ ↦ (panic, record c { mempool = p })
      | panic ↦ (panic, record c { mempool = p })
    ]

abbrev on_provided :
    Action ProvidedTransactions BlockError (Unit {0}) → Action Blockchain BlockError (Unit {0})
on_provided m c = let (r, p) = m c.provided in (r, record c { provided = p })

abbrev pub add_kind :
    Map ℕ ℕ → ℕ → Transaction → TransactionKind → Action Blockchain BlockError (Unit {0})
add_kind committed b tx (TransactionKind.provided order) = do
  on_provided (complete committed order b tx.hash)
  modify (λ c. record c { provided_included = insert tx.hash tt c.provided_included })
add_kind committed b tx TransactionKind.unsigned = do
  modify (λ c. record c { unsigned_included = insert tx.hash tt c.unsigned_included })
  forget tx.hash
add_kind committed b tx (TransactionKind.signed order s) = do
  modify (λ c. record c { nonces = insert (s.signer, order) ((s.nonce + 1) % u32_mod) c.nonces })
  forget tx.hash

unfoldable pub add_txs : Map ℕ ℕ → ℕ → List Transaction → Action Blockchain BlockError (Unit {0})
unfolding complete remove
add_txs committed b [] = pure tt
add_txs committed b (tx ∷ txs) = add_kind committed b tx tx.kind >> add_txs committed b txs

abbrev pub lift : Outcome BlockError (Unit {0}) → Action Blockchain BlockError (Unit {0})
lift (ok _) = pure tt
lift (err e) = throw e
lift panic = abort

-- `add_block`, the commit apart.
unfoldable pub add_block : Rules → Block → Action Blockchain BlockError (Unit {0})
unfolding add_txs verify_block
add_block rules b = do
  verified ← gets (verify_block rules b true)
  lift verified
  committed ← gets (λ c. c.provided.on_chain_quantity)
  modify (λ c. record c {
    tip = hash_of rules b;
    block_number = (c.block_number + 1) % u64_mod;
    block_hashes = insert ((c.block_number + 1) % u64_mod) (hash_of rules b) c.block_hashes;
    blocks = insert (hash_of rules b) b c.blocks;
    block_after = insert b.parent (hash_of rules b) c.block_after;
  })
  add_txs committed (hash_of rules b) b.transactions
