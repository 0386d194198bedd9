-- ===== src/Cosign/Samples.antt =====
-- A chain and its cosigns at which the theorems on cosigning apply.
use serai.Common.{
  ℕ, ◌+◌, ◌≤◌, ◌≡◌, ◌⊎◌, inl, refl, false, none, some, [], ◌∷◌, arith, ◌==◌, lookup, nat_eq,
  pair_eq, panic, Ensures,
}
use serai.Primitives.{NetworkId, network_eq}
use serai.Cosign.{
  Serai, SeraiError, Block, Db, advance_cosign_protocol_inner, scan_start, latest_cosigned_block,
}
use serai.Cosign.Events.{IsCached}
use serai.Cosign.Advance.{intended_of, Advanced, advance_cosign_protocol_inner_lem}
use serai.Cosign.Asking.{IsAnswering, IsOk}
use serai.Cosign.Answers.{advance_cosign_protocol_inner-IsOk}
use serai.Cosign.Evaluator.{
  CosignedBlock, Evaluator, Settled, Verify, update_latest_cosign, handle_new_cosign,
  on_distinct_chain, new,
}
use serai.Cosign.Quorum.{Holds, IsQuorate, update_latest_cosign-IsQuorate}
use serai.Cosign.Handling.{IsOurs, handle_new_cosign-IsOurs, handle_new_cosign_retries}
use serai.Cosign.Distinct.{on_distinct_chain-panics}
use serai.Cosign.Restart.{new-handle_new_cosign}

abbrev block_at : ℕ → Block
block_at n = record { hash = n + 100; parent_hash = n + 99 }

-- Keys are generated in block 2. The sets have a key, and a stake of 100 each.
abbrev chain : Serai
chain = record {
  latest = some (3, 103);
  finalized_block_by_number = λ n. some (some (block_at n));
  key_gen_events = λ hash. some (hash == 102);
  burn_with_instruction_events = λ hash. some false;
  batch_events = λ hash. some false;
  new_set_events = λ hash. some false;
  set_retired_events = λ hash. some false;
  session = λ hash net. some (some 0);
  keys = λ hash set. some (some 5);
  participants = λ hash net. some (some (9 ∷ []));
  total_allocated_stake = λ hash net. some (some 100);
  last_batch_for_network = λ hash net. some none;
}

abbrev unreachable : Serai
unreachable = record chain { latest = none }

chain-IsAnswering : IsAnswering chain 3
chain-IsAnswering = record {
  blocks = λ n few. (block_at n, refl);
  key_gens = λ hash. (hash == 102, refl);
  burns = λ hash. (false, refl);
  batches = λ hash. (false, refl);
  new_sets = λ hash. (false, refl);
  retired = λ hash. (false, refl);
  sessions = λ hash net. (some 0, refl);
  key_sets = λ hash set. (some 5, refl);
  members = λ hash net k has. (9 ∷ [], refl);
}

abbrev fresh : Db
fresh = record {
  scan_cosign_from = none;
  intended_cosign = none;
  block_has_events_cache = [];
  latest_cosigned_block = none;
  serai_block_number = [];
  cosign_transactions = [];
}

fresh-IsCached : IsCached chain fresh
fresh-IsCached = (tt, λ n e found. absurd (ground (arith, found)))

abbrev verify : Verify
verify key said signature = signature == 7

abbrev of_two : CosignedBlock
of_two = record { network = NetworkId.bitcoin; block_number = 2; block = 102; signature = 7 }

abbrev distinct : CosignedBlock
distinct = record of_two { block = 666 }

abbrev evaluator : Evaluator
evaluator = record {
  db = fresh;
  received_cosign = [];
  latest_cosign = [];
  distinct_chain = [];
  stakes = some ((NetworkId.bitcoin, 100) ∷ []);
  latest_cosigns = (NetworkId.bitcoin, of_two) ∷ [];
}

abbrev start : Evaluator
start = record evaluator { latest_cosigns = [] }

abbrev later : Settled
later = record {
  settled_session = λ net. some 0;
  settled_keys = λ set. some 5;
  settled_stake = λ net. some 100;
}

-- The run that the theorem below is applied to tells the four sets of block 2.
tells : (advance_cosign_protocol_inner 9 chain 3 fresh).1.intended_cosign ≡ some (2, none)
unfolding advance_cosign_protocol_inner
tells = refl

advance_cosign_protocol_inner_lem_example :
    Ensures
      (λ _ t.
        Advanced chain 9 3 fresh.cosign_transactions
          (intended_of fresh).0
          (intended_of fresh).1
          (scan_start (intended_of fresh).0 fresh)
          t)
      (advance_cosign_protocol_inner 9 chain 3 fresh)
advance_cosign_protocol_inner_lem_example =
    advance_cosign_protocol_inner_lem chain 9 3 fresh fresh-IsCached (omega arith)

advance_cosign_protocol_inner-IsOk_example : IsOk (advance_cosign_protocol_inner 9 chain 3 fresh)
advance_cosign_protocol_inner-IsOk_example =
    advance_cosign_protocol_inner-IsOk chain 3 chain-IsAnswering 9 fresh fresh-IsCached

update_latest_cosign-IsQuorate_example :
    (latest_cosigned_block evaluator.db ≤ latest_cosigned_block (update_latest_cosign evaluator).db)
    × (((update_latest_cosign evaluator).db ≡ evaluator.db)
        ⊎ ((c : CosignedBlock) × Holds evaluator.latest_cosigns c
            × (c.block_number ≡ latest_cosigned_block (update_latest_cosign evaluator).db)
            × IsQuorate ((NetworkId.bitcoin, 100) ∷ []) evaluator.latest_cosigns c.block_number))
update_latest_cosign-IsQuorate_example =
    update_latest_cosign-IsQuorate evaluator ((NetworkId.bitcoin, 100) ∷ []) refl (omega arith)

handle_new_cosign-IsOurs_example : IsOurs verify chain of_two
unfolding handle_new_cosign update_latest_cosign
handle_new_cosign-IsOurs_example =
    handle_new_cosign-IsOurs verify chain later of_two start (λ c held. absurd held) of_two
      (inl refl)

handle_new_cosign_retries_example :
    (handle_new_cosign verify unreachable later of_two start).1 ≡ start
unfolding handle_new_cosign
handle_new_cosign_retries_example =
    handle_new_cosign_retries verify unreachable later of_two start SeraiError.connection_error refl

on_distinct_chain-panics_example :
    (on_distinct_chain later distinct (NetworkId.bitcoin, 0) start).0 ≡ panic
on_distinct_chain-panics_example =
    on_distinct_chain-panics later distinct (NetworkId.bitcoin, 0) start refl

new-handle_new_cosign_example :
    (lookup NetworkId.bitcoin
        (new (handle_new_cosign verify chain later distinct start).1).latest_cosigns
      ≡ some distinct)
    × (¬ IsOurs verify chain distinct)
unfolding handle_new_cosign
new-handle_new_cosign_example = new-handle_new_cosign verify chain later distinct start refl
