-- ===== src/Tributary/Samples.antt =====
-- A chain and a block at which the theorems on the tributary apply.
use serai.Common.{
  ℕ, ◌+◌, ◌%◌, ◌≤◌, ◌≡◌, refl, true, false, none, [], ◌∷◌, if◌then◌else◌, ◌==◌, nat_eq, pair_eq,
  u32_mod, sum_of,
}
use serai.Tributary.Types.{
  TransactionKind, Transaction, Rules, verify_transaction, block_size_limit,
}
use serai.Tributary.Block.{Block, encoded_size, hashes_of, verify, verify_all, verify_one}
use serai.Tributary.Mempool.{remove}
use serai.Tributary.Chain.{
  ProvidedTransactions, Blockchain, in_chain, verify_block, add_txs, add_block, complete,
}
use serai.Tributary.Ordering.{InOrder, AreFresh, verify_block_lem}
use serai.Tributary.Counting.{completes, on_chain, add_block-counts_once}

abbrev rules : Rules
rules = record {
  verify = λ tx. none;
  verify_tendermint = λ tx. none;
  is_signed_well = λ tx. true;
  same = λ a b. a.hash == b.hash;
  merkle = λ hs. sum_of (λ h. h) hs;
  hash_block = λ p t. p + t;
}

abbrev tx_of : TransactionKind → ℕ → Transaction
tx_of k h = record { is_tendermint = false; kind = k; hash = h; size = 100; content = 0 }

abbrev provided_tx : ℕ → Transaction
provided_tx h = tx_of (TransactionKind.provided 0) h

abbrev signed_tx : ℕ → ℕ → Transaction
signed_tx n h = tx_of (TransactionKind.signed 0 (record { signer = 1; nonce = n })) h

abbrev provided_state : ProvidedTransactions
provided_state = record {
  transactions = [];
  known = [];
  current_provided = [];
  local_quantity = [];
  on_chain_quantity = [];
  on_chain_tx = [];
  block_quantity = [];
}

abbrev chain : Blockchain
chain = record {
  participants = 1 ∷ [];
  block_number = 0;
  tip = 500;
  provided = provided_state;
  mempool = record {
    last_nonce_in_mempool = [];
    txs = [];
    txs_per_signer = [];
    saved = [];
    current = [];
  };
  nonces = [];
  unsigned_included = [];
  provided_included = [];
  block_hashes = [];
  blocks = [];
  block_after = [];
}

abbrev full_block : Block
full_block = record {
  parent = 500;
  transactions_hash = 10;
  transactions =
      provided_tx 1 ∷ tx_of TransactionKind.unsigned 2 ∷ signed_tx 0 3 ∷ signed_tx 1 4 ∷ [];
}

-- Two provided transactions of one order, and an unsigned one.
abbrev two_provided : Block
two_provided = record {
  parent = 500;
  transactions_hash = 6;
  transactions = provided_tx 1 ∷ provided_tx 2 ∷ tx_of TransactionKind.unsigned 3 ∷ [];
}

abbrev completed : Blockchain
completed = (add_block rules two_provided chain).1

verify_block_lem_example :
    (encoded_size full_block.transactions ≤ block_size_limit)
    × (full_block.parent ≡ chain.tip)
    × (rules.merkle (hashes_of full_block.transactions) ≡ full_block.transactions_hash)
    × InOrder 0 full_block.transactions
    × AreFresh (in_chain chain) [] full_block.transactions
unfolding verify_block verify_one verify_transaction
verify_block_lem_example = verify_block_lem rules full_block true chain refl

add_block-counts_once_example : on_chain 0 completed ≡ (
    if completes 0 two_provided.transactions
    then (on_chain 0 chain + 1) % u32_mod
    else on_chain 0 chain)
unfolding add_block add_txs complete remove verify_block verify verify_all verify_one
    verify_transaction
add_block-counts_once_example = add_block-counts_once rules 0 two_provided chain completed refl
