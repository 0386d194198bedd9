-- ===== src/Tributary/Block.antt =====
-- coordinator/tributary/src/block.rs: building a block and verifying one.
use serai.Common.{
  ℕ, ◌+◌, Bool, true, false, not, ◌&&◌, ◌||◌, Option, none, some, List, [], ◌∷◌, ◌++◌, Map, lookup,
  insert, nat_eq, pair_eq, ltb, leb, ◌==◌, if◌then◌else◌, Action, ◌>>=◌, ◌>>◌, pure, throw_if, gets,
  modify, map_err,
}
use serai.Tributary.Types.{
  TransactionError, TransactionKind, Transaction, Rules, Nonces, Gain, fails, verify_transaction,
  block_size_limit,
}

pub data BlockError : Type 0 where
  too_large_block invalid_parent invalid_transactions : BlockError
  unsigned_already_included provided_already_included wrong_transaction_order : BlockError
  non_local_provided : ℕ → BlockError
  distinct_provided : BlockError
  transaction_error : TransactionError → BlockError

pub record Block : Type 0 where
  pub parent : ℕ
  pub transactions_hash : ℕ
  pub transactions : List Transaction

abbrev pub hashes_of : List Transaction → List ℕ
hashes_of [] = []
hashes_of (tx ∷ txs) = tx.hash ∷ hashes_of txs

-- The encoding: the header, the count, and each transaction behind its tag.
abbrev pub encoded_size : List Transaction → ℕ
encoded_size [] = 68
encoded_size (tx ∷ txs) = 1 + tx.size + encoded_size txs

-- The `Order` of a kind, as a number.
abbrev pub order_of : TransactionKind → ℕ
order_of (TransactionKind.provided _) = 0
order_of TransactionKind.unsigned = 1
order_of (TransactionKind.signed _ _) = 2

abbrev pub nonce_of : Transaction → ℕ
nonce_of tx = elim tx.kind [
  | TransactionKind.provided _ ↦ 0
  | TransactionKind.unsigned ↦ 0
  | TransactionKind.signed _ s ↦ s.nonce
]

-- The signed and the unsigned ones of the mempool; a provided one panics.
unfoldable pub partition : List Transaction → Option (List Transaction × List Transaction)
partition [] = some ([], [])
partition (tx ∷ txs) = elim (partition txs) [
  | none ↦ none
  | some (nonced, free) ↦ elim tx.kind [
    | TransactionKind.provided _ ↦ none
    | TransactionKind.unsigned ↦ some (nonced, tx ∷ free)
    | TransactionKind.signed _ _ ↦ some (tx ∷ nonced, free)
  ]
]

abbrev is_sorted_from : ℕ → List Transaction → Bool
is_sorted_from last [] = true
is_sorted_from last (tx ∷ txs) = leb last (nonce_of tx) && is_sorted_from (nonce_of tx) txs

-- The longest prefix that fits: transactions are popped off the end while the block is too large.
unfoldable fitting : ℕ → List Transaction → List Transaction
fitting room [] = []
fitting room (tx ∷ txs) =
    if leb (1 + tx.size + room) block_size_limit then tx ∷ fitting (1 + tx.size + room) txs else []

-- `Block::new`; `none` is a panic.
unfoldable pub new_block : Rules → ℕ → List Transaction → List Transaction → Option Block
unfolding partition fitting
new_block rules parent provided mempool = elim (partition mempool) [
  | none ↦ none
  | some (nonced, free) ↦
      let txs = provided ++ free ++ nonced in
      let kept = fitting 68 txs in
      if is_sorted_from 0 txs
      then some (record {
        parent = parent;
        transactions_hash = rules.merkle (hashes_of kept);
        transactions = kept;
      })
      else none
]

-- The transactions provided to this node, in each order.
abbrev pub Provided : Type 0
Provided = Map ℕ (List Transaction)

-- What the loop of `verify` carries.
pub record Progress : Type 0 where
  pub local : Provided
  pub included : List ℕ
  pub last : ℕ
  pub nonces : Nonces

abbrev pub contains : ℕ → List ℕ → Bool
contains n [] = false
contains n (m ∷ ms) = (m == n) || contains n ms

-- `get_mut(order).and_then(pop_front)`
abbrev pub front : ℕ → Provided → Option Transaction
front order p = elim (lookup order p) [ none ↦ none | some [] ↦ none | some (tx ∷ _) ↦ some tx ]

abbrev pub pop_front : ℕ → Provided → Provided
pop_front order p = elim (lookup order p) [
  | none ↦ p
  | some [] ↦ p
  | some (_ ∷ rest) ↦ insert order rest p
]

-- What `verify` is given beside the block.
pub record Context : Type 0 where
  pub last_block : ℕ
  pub gain : Gain
  pub in_chain : ℕ → Bool
  pub allow_non_local_provided : Bool

abbrev check_local :
    Rules → Context → Transaction → Option Transaction → Action Progress BlockError (Unit {0})
check_local rules c tx none =
    throw_if (not c.allow_non_local_provided) (BlockError.non_local_provided tx.hash)
check_local rules c tx (some local) = do
  throw_if tx.is_tendermint (BlockError.non_local_provided tx.hash)
  throw_if (not (rules.same tx local)) BlockError.distinct_provided

-- The checks of the kind.
abbrev pub check_kind :
    Rules → Context → Transaction → TransactionKind → Action Progress BlockError (Unit {0})
check_kind rules c tx (TransactionKind.provided order) = do
  throw_if (c.in_chain tx.hash) BlockError.provided_already_included
  local ← gets (λ p. front order p.local)
  modify (λ p. record p { local = pop_front order p.local })
  check_local rules c tx local
check_kind rules c tx TransactionKind.unsigned = do
  seen ← gets (λ p. c.in_chain tx.hash || contains tx.hash p.included)
  throw_if seen BlockError.unsigned_already_included
  modify (λ p. record p { included = tx.hash ∷ p.included })
check_kind rules c tx (TransactionKind.signed _ _) = pure tt

-- `verify_transaction` on the nonces of the loop.
abbrev on_nonces :
    Action Nonces TransactionError (Unit {0}) → Action Progress TransactionError (Unit {0})
on_nonces m p = let (r, n) = m p.nonces in (r, record p { nonces = n })

abbrev pub check_content :
    Rules → Context → Transaction → Action Progress TransactionError (Unit {0})
check_content rules c tx =
    if tx.is_tendermint
    then fails (rules.verify_tendermint tx)
    else on_nonces (verify_transaction rules c.gain tx)

-- One round of the loop.
unfoldable pub verify_one : Rules → Context → Transaction → Action Progress BlockError (Unit {0})
verify_one rules c tx = do
  check_kind rules c tx tx.kind
  misplaced ← gets (λ p. ltb (order_of tx.kind) p.last)
  throw_if misplaced BlockError.wrong_transaction_order
  modify (λ p. record p { last = order_of tx.kind })
  map_err BlockError.transaction_error (check_content rules c tx)

unfoldable pub verify_all :
    Rules → Context → List Transaction → Action Progress BlockError (Unit {0})
verify_all rules c [] = pure tt
verify_all rules c (tx ∷ txs) = verify_one rules c tx >> verify_all rules c txs

abbrev pub start : Provided → Nonces → Progress
start local nonces = record { local = local; included = []; last = 0; nonces = nonces }

unfoldable pub verify : Rules → Context → Block → Action Progress BlockError (Unit {0})
unfolding verify_all
verify rules c b = do
  throw_if (ltb block_size_limit (encoded_size b.transactions)) BlockError.too_large_block
  throw_if (not (b.parent == c.last_block)) BlockError.invalid_parent
  verify_all rules c b.transactions
  throw_if (not (rules.merkle (hashes_of b.transactions) == b.transactions_hash))
      BlockError.invalid_transactions
