-- ===== src/Tributary/Types.antt =====
-- coordinator/tributary/src/transaction.rs: transactions, and the check of one. Hashes, signers and
-- the names of orders are numbers; a nonce is 32-bit.
use serai.Common.{
  ℕ, ◌+◌, ◌%◌, Bool, not, Option, none, some, List, [], ◌∷◌, Map, lookup, insert, nat_eq, pair_eq,
  ltb, ◌==◌, if◌then◌else◌, u32_mod, Action, ok, ◌>>=◌, ◌>>◌, pure, throw, throw_if,
}

pub data TransactionError : Type 0 where
  too_large_transaction invalid_content invalid_signer invalid_nonce : TransactionError
  invalid_signature too_many_in_mempool provided_added_to_mempool : TransactionError

pub record Signed : Type 0 where
  pub signer : ℕ
  pub nonce : ℕ

pub data TransactionKind : Type 0 where
  provided : ℕ → TransactionKind
  unsigned : TransactionKind
  signed : ℕ → Signed → TransactionKind

-- A transaction of the chain's own protocol, or of the application; `size` is the length of its
-- encoding.
pub record Transaction : Type 0 where
  pub is_tendermint : Bool
  pub kind : TransactionKind
  pub hash : ℕ
  pub size : ℕ
  pub content : ℕ

-- The application and the cryptography. `verify` and `verify_tendermint` say why a transaction is
-- invalid, if it is.
pub record Rules : Type 0 where
  pub verify : Transaction → Option TransactionError
  pub verify_tendermint : Transaction → Option TransactionError
  pub is_signed_well : Transaction → Bool
  pub same : Transaction → Transaction → Bool
  pub merkle : List ℕ → ℕ
  pub hash_block : ℕ → ℕ → ℕ

abbrev transaction_size_limit : ℕ
transaction_size_limit = 3000000

abbrev pub block_size_limit : ℕ
block_size_limit = 3001000

abbrev pub account_mempool_limit : ℕ
account_mempool_limit = 50

-- The next nonce of each signer, in each order.
abbrev pub Nonces : Type 0
Nonces = Map (ℕ × ℕ) ℕ

-- `GAIN`: the next nonce of a participant, and the nonces after it is taken.
abbrev pub Gain : Type 0
Gain = ℕ → ℕ → Nonces → Option ℕ × Nonces

abbrev pub fails : {S : Type 0} → Option TransactionError → Action S TransactionError (Unit {0})
fails none = pure tt
fails (some e) = throw e

abbrev check_nonce : Option ℕ → ℕ → Action Nonces TransactionError (Unit {0})
check_nonce none n = throw TransactionError.invalid_signer
check_nonce (some next) n = throw_if (not (n == next)) TransactionError.invalid_nonce

abbrev take_nonce : Gain → ℕ → ℕ → Action Nonces TransactionError (Option ℕ)
take_nonce gain signer order nonces = let (n, nonces') = gain signer order nonces in (ok n, nonces')

abbrev pub check_signed :
    Rules → Gain → Transaction → TransactionKind → Action Nonces TransactionError (Unit {0})
check_signed rules gain tx (TransactionKind.provided _) = pure tt
check_signed rules gain tx TransactionKind.unsigned = pure tt
check_signed rules gain tx (TransactionKind.signed order sig) = do
  next ← take_nonce gain sig.signer order
  check_nonce next sig.nonce
  throw_if (not (rules.is_signed_well tx)) TransactionError.invalid_signature

unfoldable pub verify_transaction :
    Rules → Gain → Transaction → Action Nonces TransactionError (Unit {0})
verify_transaction rules gain tx = do
  throw_if (ltb transaction_size_limit tx.size) TransactionError.too_large_transaction
  fails (rules.verify tx)
  check_signed rules gain tx tx.kind

-- The nonces of the chain; only participants have one.
abbrev pub chain_nonce : List ℕ → ℕ → ℕ → Nonces → Option ℕ
chain_nonce [] signer order nonces = none
chain_nonce (p ∷ more) signer order nonces =
    if p == signer
    then some (elim (lookup (signer, order) nonces) [ none ↦ 0 | some n ↦ n ])
    else chain_nonce more signer order nonces

-- The closure of `verify_block`: it writes the next nonce of a participant, plus one.
abbrev bumped : ℕ → ℕ → Nonces → Option ℕ → Option ℕ × Nonces
bumped signer order nonces none = (none, nonces)
bumped signer order nonces (some n) = (some n, insert (signer, order) ((n + 1) % u32_mod) nonces)

abbrev pub increment_nonce : List ℕ → Gain
increment_nonce participants signer order nonces =
    bumped signer order nonces (chain_nonce participants signer order nonces)
