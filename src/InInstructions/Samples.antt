-- ===== src/InInstructions/Samples.antt =====
-- A batch, a chain and a storage at which the theorems on batches apply.
use serai.Common.{
  ℕ, ◌≡◌, refl, true, false, none, List, [], ◌∷◌, arith, ◌==◌, nat_eq, pair_eq, length, Outcome, ok,
  err, panic,
}
use serai.Primitives.{NetworkId, Coin, network_eq}
use serai.Coins
use serai.Coins.Invariant.{IsSound}
use serai.ValidatorSets
use serai.InInstructions.{
  InInstruction, SignedBatch, Dex, World, Chain, Storage, validate_unsigned, keys_for_network,
  check_next, execute_instruction, execute_all, execute_batch,
}
use serai.InInstructions.Accepting.{IsAccepted, validate_unsigned-IsAccepted}
use serai.InInstructions.Sequence.{History, start, included, ids, count_down, History-ids}
use serai.Common.{List, Runs, refl, Action}
use serai.InInstructions.{DexCall, OutAddress, Failure, on_coins}
use serai.InInstructions.Trading.{IsExchange, Moves, Transfer, transfers, transfers-Runs}
use serai.InInstructions.Executing.{execute_batch-IsSound}

-- An exchange that trades one for one with an account of its own, and keeps what is added to it.
abbrev pool : ℕ
pool = 90

abbrev last_of : Coin → List Coin → Coin
last_of coin [] = coin
last_of coin (c ∷ p) = last_of c p

abbrev trades : ℕ → List Coin → ℕ → ℕ → List Transfer
trades from [] n to = []
trades from (coin ∷ p) n to =
    record { from = from; to = pool; balance = record { coin = coin; amount = n } }
    ∷ record { from = pool; to = to; balance = record { coin = last_of coin p; amount = n } }
    ∷ []

abbrev adds : ℕ → Coin → ℕ → ℕ → List Transfer
adds from coin n m =
    record { from = from; to = pool; balance = record { coin = coin; amount = n } }
    ∷ record { from = from; to = pool; balance = record { coin = Coin.serai_coin; amount = m } }
    ∷ []

abbrev moving : List Transfer → Action (World (Unit {0})) Failure (Unit {0})
moving ts = on_coins Failure.of_coins (transfers ts)

abbrev exchange : Dex (Unit {0})
exchange = record {
  swap_exact_tokens_for_tokens = λ from path n least to. moving (trades from path n to);
  add_liquidity = λ from coin n m n' m' to. moving (adds from coin n m);
}

moving-Moves :
    (ts : List Transfer) (w : World (Unit {0})) → IsSound w.coins → Runs (Moves w) (moving ts w)
moving-Moves ts w v = moved (transfers ts w.coins) refl (transfers-Runs ts w.coins v)
  where
    moved :
        (r : Outcome Coins.Error (Unit {0}) × Coins.Storage)
        → transfers ts w.coins ≡ r
        → Runs (λ _ s'. IsSound s') r
        → Runs (Moves w) (on_coins Failure.of_coins (λ _. r) w)
    moved (ok _, s) went v' = (ts, went)
    moved (err e, s) went v' = tt
    moved (panic, s) went v' = v'

exchange-IsExchange : IsExchange exchange
exchange-IsExchange = record {
  swaps = λ from p n m to w v. moving-Moves (trades from p n to) w v;
  adds = λ from c n m n' m' to w v. moving-Moves (adds from c n m) w v;
}

abbrev chain : Chain
chain = record {
  block_number = 10;
  coins_config = record { allow_mint = λ b. true; liquidity_tokens = false; fee_account = 9 };
  executor = 8;
  size = λ b. 100;
  hash = λ is. 0;
  verify = λ key b signature. key == signature;
}

abbrev no_coins : Coins.Storage
no_coins = record { balances = []; supply = []; events = [] }

no_coins-IsSound : IsSound no_coins
no_coins-IsSound = record { backed = λ c. refl; bounded = λ c. omega arith; distinct = tt }

abbrev sets : ValidatorSets.Storage
sets = record {
  current_session = (NetworkId.bitcoin, 0) ∷ [];
  allocation_per_key_share = [];
  in_set = [];
  total_allocated_stake = [];
  allocations = [];
  sorted = [];
  pending_deallocations = [];
  keys = ((NetworkId.bitcoin, 0), record { signing_key = 5; external_key = [] }) ∷ [];
  pending_slash_report = [];
  participants = [];
  babe = [];
  events = [];
}

abbrev fresh : Storage (Unit {0})
fresh = record {
  last_batch = [];
  last_batch_block = [];
  halted = [];
  latest_network_block = [];
  events = [];
  sets = sets;
  world = record { coins = no_coins; dex = tt };
}

abbrev signed : SignedBatch
signed = record {
  batch = record {
    network = NetworkId.bitcoin;
    id = 0;
    block = 99;
    instructions =
        record {
          instruction = InInstruction.transfer 7;
          balance = record { coin = Coin.bitcoin; amount = 50 };
        }
        ∷ [];
  };
  signature = 5;
}

-- A swap, which the exchange has nothing for, and a transfer.
abbrev swapping : SignedBatch
swapping = record {
  batch = record {
    network = NetworkId.bitcoin;
    id = 0;
    block = 99;
    instructions =
        record {
          instruction =
              InInstruction.dex (
                DexCall.swap (record { coin = Coin.serai_coin; amount = 1 }) (OutAddress.native 7));
          balance = record { coin = Coin.bitcoin; amount = 50 };
        }
        ∷ record {
          instruction = InInstruction.transfer 7;
          balance = record { coin = Coin.bitcoin; amount = 50 };
        }
        ∷ [];
  };
  signature = 5;
}

abbrev validated : Storage (Unit {0})
validated = (validate_unsigned chain signed fresh).1

abbrev executed : Storage (Unit {0})
executed = (execute_batch chain exchange none signed validated).1

history : History fresh (signed ∷ []) executed
unfolding validate_unsigned keys_for_network check_next execute_batch execute_all
    execute_instruction Coins.mint Coins.increase_balance_internal
history = included chain exchange signed (NetworkId.bitcoin, 0) start refl refl

validate_unsigned-IsAccepted_example : IsAccepted chain signed fresh validated
unfolding validate_unsigned keys_for_network check_next
validate_unsigned-IsAccepted_example =
    validate_unsigned-IsAccepted chain signed fresh validated (NetworkId.bitcoin, 0) refl

History-ids_example :
    ids NetworkId.bitcoin (signed ∷ []) ≡ count_down (length (ids NetworkId.bitcoin (signed ∷ [])))
History-ids_example =
    History-ids NetworkId.bitcoin fresh executed (signed ∷ []) refl (omega arith) history

execute_batch-IsSound_example :
    ((execute_batch chain exchange none swapping fresh).0 ≡ ok tt)
    × IsSound (execute_batch chain exchange none swapping fresh).1.world.coins
execute_batch-IsSound_example =
    execute_batch-IsSound chain exchange exchange-IsExchange swapping fresh no_coins-IsSound
      (omega arith)
