-- ===== src/InInstructions.antt =====
-- substrate/in-instructions/pallet/src/lib.rs: the batches of instructions from external networks,
-- how they are validated and executed. The exchange is a parameter.
mod Types
pub mod Accepting
pub mod Sequence
pub mod Trading
pub mod Executing
mod Samples
pub use Types.*
use serai.Common.{
  ℕ, ◌+◌, ◌/◌, ◌%◌, Bool, true, false, not, ◌&&◌, ◌||◌, Option, none, some, List, [], ◌∷◌, ◌++◌,
  ◌==◌, ltb, leb, if◌then◌else◌, Map, lookup, insert, contains_key, beq, nat_eq, pair_eq, Outcome,
  Action, ok, err, panic, ◌>>=◌, ◌>>◌, pure, throw, abort, assert, throw_if, unwrap, gets, modify,
  map_err, u32_mod,
}
use serai.Primitives.{NetworkId, Coin, Balance, network_eq, network_of, is_native}
use serai.Coins
use serai.ValidatorSets
use Types.{
  OutAddress, DexCall, InInstruction, InInstructionWithBalance, Batch, SignedBatch, Event, Failure,
  InvalidTransaction, World, Dex, Chain, Storage,
}

abbrev of : Coin → ℕ → Balance
of coin n = record { coin = coin; amount = n }

abbrev path : Coin → Coin → List Coin
path from to =
    if is_native to then from ∷ Coin.serai_coin ∷ [] else from ∷ Coin.serai_coin ∷ to ∷ []

-- The session, with the keys of the prior set and of the current one.
abbrev pub Keys : Type 0
Keys = ℕ × (Option ℕ × Option ℕ)

abbrev pub max_batch_size : ℕ
max_batch_size = 25000

abbrev is_signed_by : Chain → SignedBatch → Option ℕ → Bool
is_signed_by c b none = false
is_signed_by c b (some key) = c.verify key b.batch b.signature

abbrev is_some : Option ℕ → Bool
is_some none = false
is_some (some n) = true

abbrev or_zero : Option ℕ → ℕ
or_zero none = 0
or_zero (some n) = n

abbrev following : Option ℕ → ℕ
following none = 0
following (some n) = (n + 1) % u32_mod

-- Whether the coins of all instructions are of the network.
abbrev pub are_of : NetworkId → List InInstructionWithBalance → Bool
are_of net [] = true
are_of net (i ∷ more) = beq (network_of i.balance.coin) net && are_of net more

module _ {D : Type 0} where
  abbrev deposit_event : Event → Storage D → Storage D
  deposit_event e s = record s { events = s.events ++ e ∷ [] }

  abbrev pub on_coins :
      {E A : Type 0} → (E → Failure) → Action Coins.Storage E A → Action (World D) Failure A
  on_coins f m w = let (r, c) = map_err f m w.coins in (r, record w { coins = c })

  abbrev held : ℕ → Coin → World D → ℕ
  held who coin w = Coins.balance_of who coin w.coins

  -- What is left with the executor goes to the address.
  abbrev leave : Chain → ℕ → Coin → ℕ → Action (World D) Failure (Unit {0})
  leave c address coin n =
      if n == 0
      then pure tt
      else on_coins Failure.of_coins (Coins.transfer_internal c.executor address (of coin n))

  abbrev pub swap_and_add : Chain → Dex D → Balance → ℕ → Action (World D) Failure (Unit {0})
  swap_and_add c exchange b address = do
    on_coins Failure.of_coins (Coins.mint c.coins_config c.executor b)
    exchange.swap_exact_tokens_for_tokens c.executor (b.coin ∷ Coin.serai_coin ∷ []) (b.amount / 2)
        1 c.executor
    sri ← gets (held c.executor Coin.serai_coin)
    exchange.add_liquidity c.executor b.coin (b.amount / 2) sri 1 1 address
    coin_balance ← gets (held c.executor b.coin)
    sri_balance ← gets (held c.executor Coin.serai_coin)
    leave c address b.coin coin_balance
    leave c address Coin.serai_coin sri_balance

  -- The swap to an address of the chain, and the one to an external address, where the coins
  -- received are burnt with the instruction to send them there.
  abbrev pub swap :
      Chain → Dex D → Balance → Balance → OutAddress → Action (World D) Failure (Unit {0})
  swap c exchange b out (OutAddress.native to) = do
    on_coins Failure.of_coins (Coins.mint c.coins_config c.executor b)
    exchange.swap_exact_tokens_for_tokens c.executor (path b.coin out.coin) b.amount out.amount to
  swap c exchange b out (OutAddress.external to) = do
    throw_if (is_native out.coin) Failure.invalid_address_for_coin
    on_coins Failure.of_coins (Coins.mint c.coins_config c.executor b)
    exchange.swap_exact_tokens_for_tokens c.executor (path b.coin out.coin) b.amount out.amount
        c.executor
    received ← gets (held c.executor out.coin)
    on_coins Failure.of_coins_call (
        Coins.burn_with_instruction c.coins_config (some c.executor) (record {
          instruction = record { address = to; memo = none };
          balance = of out.coin received;
        }))

  abbrev perform : Chain → Dex D → Balance → InInstruction → Action (World D) Failure (Unit {0})
  perform c exchange b (InInstruction.transfer address) =
      on_coins Failure.of_coins (Coins.mint c.coins_config address b)
  perform c exchange b (InInstruction.dex (DexCall.swap_and_add_liquidity address)) =
      swap_and_add c exchange b address
  perform c exchange b (InInstruction.dex (DexCall.swap out address)) =
      swap c exchange b out address

  -- `#[transactional]`: an error leaves the storage as it was.
  abbrev transactional : {A : Type 0} → Action (World D) Failure A → Action (World D) Failure A
  transactional m w = elim (m w).0 [
    | ok a ↦ (ok a, (m w).1)
    | err e ↦ (err e, w)
    | panic ↦ (panic, (m w).1)
  ]

  unfoldable pub execute_instruction :
      Chain → Dex D → InInstructionWithBalance → Action (World D) Failure (Unit {0})
  execute_instruction c exchange i = transactional (perform c exchange i.balance i.instruction)

  unfoldable pub halt : NetworkId → Action (Storage D) Failure (Unit {0})
  halt net = do
    modify (λ s. record s { halted = insert net tt s.halted })
    modify (deposit_event (Event.halt net))

  abbrev signing_key_of : NetworkId → ℕ → Storage D → Option ℕ
  signing_key_of net n s = elim (lookup (net, n) s.sets.keys) [
    | none ↦ none
    | some k ↦ some k.signing_key
  ]

  abbrev prior_key : NetworkId → ℕ → Storage D → Option ℕ
  prior_key net n s = if n == 0 then none else signing_key_of net (ValidatorSets.previous n) s

  abbrev keys_of_session :
      NetworkId → ℕ → Option ℕ → Option ℕ → Action (Storage D) InvalidTransaction Keys
  keys_of_session net n none none = throw InvalidTransaction.bad_proof
  keys_of_session net n prior latest = pure (n, (prior, latest))

  abbrev known_keys : NetworkId → Option ℕ → Action (Storage D) InvalidTransaction Keys
  known_keys net none = throw InvalidTransaction.bad_proof
  known_keys net (some n) = do
    prior ← gets (prior_key net n)
    latest ← gets (signing_key_of net n)
    keys_of_session net n prior latest

  unfoldable pub keys_for_network : NetworkId → Action (Storage D) InvalidTransaction Keys
  keys_for_network net = gets (λ s. ValidatorSets.session net s.sets) >>= known_keys net

  abbrev attempt :
      {A : Type 0}
      → NetworkId
      → ℕ
      → ℕ
      → Action (World D) Failure A
      → Action (Storage D) Failure (Unit {0})
  attempt net id index m s = elim (m s.world).0 [
    | ok a ↦ (ok tt, record s { world = (m s.world).1 })
    | err e ↦
        (if ltb index u32_mod
          then (
            ok tt,
            deposit_event (Event.instruction_failure net id index)
                (record s { world = (m s.world).1 }),
          )
          else (panic, record s { world = (m s.world).1 }))
    | panic ↦ (panic, record s { world = (m s.world).1 })
  ]

  unfoldable pub execute_all :
      Chain
      → Dex D
      → NetworkId
      → ℕ
      → ℕ
      → List InInstructionWithBalance
      → Action (Storage D) Failure (Unit {0})
  unfolding execute_instruction
  execute_all c exchange net id index [] = pure tt
  execute_all c exchange net id index (i ∷ more) =
      attempt net id index (execute_instruction c exchange i)
      >> execute_all c exchange net id (index + 1) more

  abbrev ensure_none : Option ℕ → Action (Storage D) Failure (Unit {0})
  ensure_none none = pure tt
  ensure_none (some who) = throw Failure.bad_origin

  unfoldable pub execute_batch :
      Chain → Dex D → Option ℕ → SignedBatch → Action (Storage D) Failure (Unit {0})
  unfolding execute_all
  execute_batch c exchange origin b =
      let batch = b.batch in
      do
        ensure_none origin
        modify (λ s. record s {
          latest_network_block = insert batch.network batch.block s.latest_network_block;
        })
        modify (
            deposit_event
              (Event.batch_executed batch.network batch.id batch.block (c.hash batch.instructions)))
        execute_all c exchange batch.network batch.id 0 batch.instructions

  -- A call of the validator-sets pallet, of which no error is expected.
  abbrev on_sets :
      Action ValidatorSets.Storage ValidatorSets.Error (Unit {0})
      → Action (Storage D) InvalidTransaction (Unit {0})
  on_sets m s = elim (m s.sets).0 [
    | ok a ↦ (ok tt, record s { sets = (m s.sets).1 })
    | err e ↦ (panic, record s { sets = (m s.sets).1 })
    | panic ↦ (panic, record s { sets = (m s.sets).1 })
  ]

  -- The current set has signed where there is a prior one: it accepts the handover.
  abbrev pub hand_over : NetworkId → ℕ → Bool → Action (Storage D) InvalidTransaction (Unit {0})
  hand_over net n true = on_sets (ValidatorSets.retire_set net (ValidatorSets.previous n))
  hand_over net n false = pure tt

  -- The identifier that the next batch of a network has to have.
  abbrev pub expected : NetworkId → Storage D → ℕ
  expected net s = following (lookup net s.last_batch)

  -- A network has one batch in a block, in the order of the identifiers.
  unfoldable pub check_next : Chain → Batch → Action (Storage D) InvalidTransaction (NetworkId × ℕ)
  check_next c b = do
    last_block ← gets (λ s. or_zero (lookup b.network s.last_batch_block))
    throw_if (leb c.block_number last_block) InvalidTransaction.future
    modify (λ s. record s { last_batch_block = insert b.network c.block_number s.last_batch_block })
    next ← gets (expected b.network)
    throw_if (ltb b.id next) InvalidTransaction.stale
    throw_if (ltb next b.id) InvalidTransaction.future
    modify (λ s. record s { last_batch = insert b.network b.id s.last_batch })
    throw_if (not (are_of b.network b.instructions)) (InvalidTransaction.custom 2)
    pure (b.network, b.id)

  abbrev pub check_signature :
      Chain → SignedBatch → Keys → Action (Storage D) InvalidTransaction (NetworkId × ℕ)
  check_signature c b (current_session, (prior, current)) =
      let by_prior = is_signed_by c b prior in
      do
        throw_if (not (by_prior || is_signed_by c b current)) InvalidTransaction.bad_proof
        is_halted ← gets (λ s. contains_key b.batch.network s.halted)
        throw_if is_halted (InvalidTransaction.custom 1)
        hand_over b.batch.network current_session (is_some prior && not by_prior)
        check_next c b.batch

  -- The value is what the transaction provides. `pre_dispatch` is this too.
  unfoldable pub validate_unsigned :
      Chain → SignedBatch → Action (Storage D) InvalidTransaction (NetworkId × ℕ)
  unfolding keys_for_network check_next
  validate_unsigned c b = do
    throw_if (ltb max_batch_size (c.size b.batch)) InvalidTransaction.exhausts_resources
    throw_if (beq b.batch.network NetworkId.serai_network) (InvalidTransaction.custom 0)
    keys ← keys_for_network b.batch.network
    check_signature c b keys
