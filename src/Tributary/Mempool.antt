-- ===== src/Tributary/Mempool.antt =====
-- coordinator/tributary/src/mempool.rs: the transactions that wait for a block. `saved` and
-- `current` are what the database holds.
use serai.Common.{
  ℕ, ◌+◌, ◌-◌, ◌%◌, Bool, true, false, not, ◌&&◌, ◌||◌, Option, none, some, List, [], ◌∷◌, ◌++◌,
  Map, lookup, insert, erase, contains_key, nat_eq, pair_eq, ltb, leb, ◌==◌, if◌then◌else◌, u32_mod,
  Action, Outcome, ◌>>=◌, ◌>>◌, pure, throw, throw_if, gets, modify, assert, abort, ok_or, unwrap,
}
use serai.Tributary.Types.{
  TransactionError, Signed, TransactionKind, Transaction, Rules, Gain, fails, verify_transaction,
  account_mempool_limit,
}
use serai.Tributary.Block.{nonce_of, partition}

pub record Mempool : Type 0 where
  pub last_nonce_in_mempool : Map (ℕ × ℕ) ℕ
  pub txs : Map ℕ Transaction
  pub txs_per_signer : Map ℕ ℕ
  pub saved : Map ℕ Transaction
  pub current : List ℕ

abbrev Pool : Type 0 → Type 0
Pool = Action Mempool TransactionError

abbrev amount_of : ℕ → Mempool → ℕ
amount_of signer m = elim (lookup signer m.txs_per_signer) [ none ↦ 0 | some n ↦ n ]

unfoldable pub save_tx : Transaction → Mempool → Mempool
save_tx tx m = record m {
  saved = insert tx.hash tx m.saved;
  current = m.current ++ tx.hash ∷ [];
  txs = insert tx.hash tx m.txs;
}

-- Reloading one saved transaction.
abbrev reload_kind : Transaction → TransactionKind → Pool (Unit {0})
reload_kind tx (TransactionKind.provided _) = abort
reload_kind tx TransactionKind.unsigned = modify (λ m. record m { txs = insert tx.hash tx m.txs })
reload_kind tx (TransactionKind.signed order s) = do
  modify (λ m. record m {
    txs_per_signer = insert s.signer ((amount_of s.signer m + 1) % u32_mod) m.txs_per_signer;
  })
  prior ← gets (λ m. lookup (s.signer, order) m.last_nonce_in_mempool)
  modify (λ m. record m {
    last_nonce_in_mempool = insert (s.signer, order) s.nonce m.last_nonce_in_mempool;
  })
  assert (elim prior [ none ↦ true | some n ↦ n == (s.nonce + u32_mod - 1) % u32_mod ])
  modify (λ m. record m { txs = insert tx.hash tx m.txs })

abbrev reload_one : Transaction → Pool (Unit {0})
reload_one tx =
    if tx.is_tendermint
    then modify (λ m. record m { txs = insert tx.hash tx m.txs })
    else reload_kind tx tx.kind

unfoldable reload : List ℕ → Pool (Unit {0})
reload [] = pure tt
reload (h ∷ more) = do
  found ← gets (λ m. lookup h m.saved)
  tx ← unwrap found
  reload_one tx
  reload more

-- `new`, from what the database holds.
unfoldable load : Map ℕ Transaction → List ℕ → Outcome TransactionError (Unit {0}) × Mempool
unfolding reload
load saved current = reload current (record {
  last_nonce_in_mempool = [];
  txs = [];
  txs_per_signer = [];
  saved = saved;
  current = current;
})

abbrev already_exists : (ℕ → Bool) → ℕ → Mempool → Bool
already_exists in_chain h m = in_chain h || contains_key h m.txs

-- The transaction is added unless it is there already.
abbrev add_unsigned : Option TransactionError → (ℕ → Bool) → Transaction → Pool Bool
add_unsigned invalid in_chain tx = do
  there ← gets (already_exists in_chain tx.hash)
  if there then pure false else (fails invalid >> modify (save_tx tx) >> pure true)

-- The last nonce of the pool, where it has one, is not behind the chain.
abbrev next_after : Option ℕ → ℕ → Pool ℕ
next_after none chain = pure chain
next_after (some last) chain = assert (leb chain last) >> pure ((last + 1) % u32_mod)

-- `verify_transaction(app_tx, genesis, &mut |_, _| Some(next_nonce))`
abbrev given_nonce : ℕ → Gain
given_nonce n signer order nonces = (some n, nonces)

abbrev run_check : Rules → ℕ → Transaction → Pool (Unit {0})
run_check rules n tx m = ((verify_transaction rules (given_nonce n) tx []).0, m)

abbrev add_signed : Rules → Option ℕ → Bool → Transaction → ℕ → Signed → Pool Bool
add_signed rules chain_next internal tx order s = do
  chain ← ok_or chain_next TransactionError.invalid_signer
  last ← gets (λ m. lookup (s.signer, order) m.last_nonce_in_mempool)
  next ← next_after last chain
  amount ← gets (λ m. (amount_of s.signer m + 1) % u32_mod)
  throw_if (not internal && ltb account_mempool_limit amount) TransactionError.too_many_in_mempool
  run_check rules next tx
  modify (λ m. record m {
    last_nonce_in_mempool = insert (s.signer, order) next m.last_nonce_in_mempool;
    txs_per_signer = insert s.signer amount m.txs_per_signer;
  })
  modify (save_tx tx)
  pure true

abbrev pub add_kind :
    Rules → (ℕ → ℕ → Option ℕ) → Bool → (ℕ → Bool) → Transaction → TransactionKind → Pool Bool
add_kind rules chain_next internal in_chain tx (TransactionKind.provided _) =
    throw TransactionError.provided_added_to_mempool
add_kind rules chain_next internal in_chain tx TransactionKind.unsigned =
    add_unsigned (rules.verify tx) in_chain tx
add_kind rules chain_next internal in_chain tx (TransactionKind.signed order s) =
    add_signed rules (chain_next s.signer order) internal tx order s

abbrev is_unsigned : TransactionKind → Bool
is_unsigned (TransactionKind.provided _) = false
is_unsigned TransactionKind.unsigned = true
is_unsigned (TransactionKind.signed _ _) = false

unfoldable pub add : Rules → (ℕ → ℕ → Option ℕ) → Bool → (ℕ → Bool) → Transaction → Pool Bool
unfolding save_tx
add rules chain_next internal in_chain tx =
    if tx.is_tendermint
    then (assert (is_unsigned tx.kind) >> add_unsigned (rules.verify_tendermint tx) in_chain tx)
    else add_kind rules chain_next internal in_chain tx tx.kind

unfoldable pub next_nonce_in_mempool : ℕ → ℕ → Mempool → Option ℕ
next_nonce_in_mempool signer order m = elim (lookup (signer, order) m.last_nonce_in_mempool) [
  | none ↦ none
  | some n ↦ some ((n + 1) % u32_mod)
]

abbrev values : Map ℕ Transaction → List Transaction
values [] = []
values ((_, tx) ∷ m) = tx ∷ values m

-- A stable sort by nonce.
unfoldable insert_tx : Transaction → List Transaction → List Transaction
insert_tx tx [] = tx ∷ []
insert_tx tx (x ∷ xs) = if leb (nonce_of tx) (nonce_of x) then tx ∷ x ∷ xs else x ∷ insert_tx tx xs

unfoldable sort_txs : List Transaction → List Transaction
unfolding insert_tx
sort_txs [] = []
sort_txs (tx ∷ txs) = insert_tx tx (sort_txs txs)

-- `block`: the unsigned ones, then the signed ones by nonce; `none` is a panic.
unfoldable pub block : Mempool → Option (List Transaction)
unfolding sort_txs
block m = elim (partition (values m.txs)) [
  | none ↦ none
  | some (nonced, free) ↦ some (free ++ sort_txs nonced)
]

-- The first occurrence of a hash is taken out.
abbrev pub cut : ℕ → List ℕ → List ℕ
cut h [] = []
cut h (x ∷ xs) = if x == h then xs else x ∷ cut h xs

abbrev forget_nonce : ℕ → ℕ → ℕ → Map (ℕ × ℕ) ℕ → Map (ℕ × ℕ) ℕ
forget_nonce signer order n m = elim (lookup (signer, order) m) [
  | none ↦ m
  | some last ↦ if last == n then erase (signer, order) m else m
]

abbrev pub release : TransactionKind → Pool (Unit {0})
release (TransactionKind.provided _) = pure tt
release TransactionKind.unsigned = pure tt
release (TransactionKind.signed order s) = do
  held ← gets (λ m. lookup s.signer m.txs_per_signer)
  amount ← unwrap held
  modify (λ m. record m {
    txs_per_signer = insert s.signer ((amount + u32_mod - 1) % u32_mod) m.txs_per_signer;
    last_nonce_in_mempool = forget_nonce s.signer order s.nonce m.last_nonce_in_mempool;
  })

unfoldable pub remove : ℕ → Pool (Unit {0})
remove h = do
  modify (λ m. record m { saved = erase h m.saved; current = cut h m.current })
  found ← gets (λ m. lookup h m.txs)
  modify (λ m. record m { txs = erase h m.txs })
  elim found [ none ↦ pure tt | some tx ↦ release tx.kind ]
