-- ===== src/InInstructions/Executing.antt =====
-- substrate/in-instructions/pallet/src/lib.rs: what the execution of a batch does to the coins.
use serai.Common.{
  ℕ, ◌+◌, ◌/◌, ◌≤◌, ◌<◌, ◌≡◌, refl, Bool, true, false, Option, none, some, List, [], ◌∷◌, arith,
  Outcome, ok, err, panic, ◌>>◌, throw_if, length, u32_mod, ltb, Runs, Runs->>=, Bool-cases, inl,
  inr,
}
use serai.Primitives.{NetworkId, Coin, Balance, is_native}
use serai.Coins
use serai.Coins.Invariant.{IsSound}
use serai.Coins.Mint.{mint_cases}
use serai.Coins.Transfers.{transfer_cases}
use serai.Coins.Calls.{Settles, burn_with_instruction-Settles}
use serai.InInstructions.Trading.{IsExchange, Moves-IsSound}
use serai.InInstructions.{
  OutAddress, DexCall, InInstruction, SignedBatch, InInstructionWithBalance, Failure, World, Dex,
  Chain, Storage, execute_instruction, execute_all, execute_batch, attempt, on_coins, leave, swap,
  swap_and_add, perform, path, transactional, held,
}

module _ {D : Type 0} where
  abbrev Sound : {A : Type 0} → A → World D → Type 0
  Sound a w = IsSound w.coins

  mint-Runs :
      (cfg : Coins.Config) (to : ℕ) (b : Balance) (w : World D)
      → IsSound w.coins
      → Runs Sound (on_coins Failure.of_coins (Coins.mint cfg to b) w)
  mint-Runs cfg to b w v = ground (arith, mint_cases cfg to b w.coins v)

  leave-Runs :
      (c : Chain) (to : ℕ) (coin : Coin) (n : ℕ) (w : World D)
      → IsSound w.coins
      → Runs Sound (leave c to coin n w)
  leave-Runs c to coin n w v =
      ground (arith, transfer_cases c.executor to (record { coin = coin; amount = n }) w.coins v)

  burn-Runs :
      (cfg : Coins.Config) (who : Option ℕ) (i : Coins.OutInstructionWithBalance) (w : World D)
      → IsSound w.coins
      → Runs Sound (on_coins Failure.of_coins_call (Coins.burn_with_instruction cfg who i) w)
  burn-Runs cfg who i w v =
      settled (Coins.burn_with_instruction cfg who i w.coins)
        (burn_with_instruction-Settles cfg who i w.coins v)
    where
      settled :
          (r : Outcome Coins.DispatchError (Unit {0}) × Coins.Storage)
          → Settles w.coins r
          → Runs {E = Failure} Sound (on_coins Failure.of_coins_call (λ _. r) w)
      settled (ok _, s) h = h.0
      settled (err e, s) h = tt
      settled (panic, s) h = h

  -- What an external swap burns.
  abbrev returned : Chain → Coin → List ℕ → World D → Coins.OutInstructionWithBalance
  returned c coin to w = record {
    instruction = record { address = to; memo = none };
    balance = record { coin = coin; amount = held c.executor coin w };
  }

  module _ (c : Chain) (x : Dex D) (holds : IsExchange x) where
    exchange-Runs :
        (from : ℕ) (p : List Coin) (n least to : ℕ) (w : World D)
        → IsSound w.coins
        → Runs Sound (x.swap_exact_tokens_for_tokens from p n least to w)
    exchange-Runs from p n least to w v =
        Moves-IsSound w (x.swap_exact_tokens_for_tokens from p n least to w) v
          (holds.swaps from p n least to w v)

    liquidity-Runs :
        (from : ℕ) (coin : Coin) (n m n' m' to : ℕ) (w : World D)
        → IsSound w.coins
        → Runs Sound (x.add_liquidity from coin n m n' m' to w)
    liquidity-Runs from coin n m n' m' to w v =
        Moves-IsSound w (x.add_liquidity from coin n m n' m' to w) v
          (holds.adds from coin n m n' m' to w v)

    add-Runs :
        (b : Balance) (to : ℕ) (w : World D)
        → IsSound w.coins
        → Runs Sound (swap_and_add c x b to w)
    add-Runs b to w v =
        Runs->>= Sound Sound (on_coins Failure.of_coins (Coins.mint c.coins_config c.executor b)) _
          w (mint-Runs c.coins_config c.executor b w v)
          (λ _ w₁ v₁.
            Runs->>= Sound Sound
              (x.swap_exact_tokens_for_tokens c.executor (b.coin ∷ Coin.serai_coin ∷ [])
                (b.amount / 2) 1 c.executor)
              _ w₁
              (exchange-Runs c.executor (b.coin ∷ Coin.serai_coin ∷ []) (b.amount / 2) 1 c.executor
                w₁ v₁)
              (λ _ w₂ v₂.
                Runs->>= Sound Sound
                  (x.add_liquidity c.executor b.coin (b.amount / 2)
                    (held c.executor Coin.serai_coin w₂) 1 1 to)
                  _ w₂
                  (liquidity-Runs c.executor b.coin (b.amount / 2)
                    (held c.executor Coin.serai_coin w₂) 1 1 to w₂ v₂)
                  (λ _ w₃ v₃.
                    Runs->>= Sound Sound (leave c to b.coin (held c.executor b.coin w₃)) _ w₃
                      (leave-Runs c to b.coin (held c.executor b.coin w₃) w₃ v₃)
                      (λ _ w₄ v₄.
                        leave-Runs c to Coin.serai_coin (held c.executor Coin.serai_coin w₃) w₄
                          v₄))))

    swap-Runs :
        (b out : Balance) (to : OutAddress) (w : World D)
        → IsSound w.coins
        → Runs Sound (swap c x b out to w)
    swap-Runs b out (OutAddress.native to) w v =
        Runs->>= Sound Sound (on_coins Failure.of_coins (Coins.mint c.coins_config c.executor b)) _
          w (mint-Runs c.coins_config c.executor b w v)
          (λ _ w₁ v₁. exchange-Runs c.executor (path b.coin out.coin) b.amount out.amount to w₁ v₁)
    swap-Runs b out (OutAddress.external to) w v = checked (is_native out.coin)
      where
        checked :
            (foreign : Bool)
            → Runs {E = Failure} Sound (
                (throw_if foreign Failure.invalid_address_for_coin
                    >> (on_coins Failure.of_coins (Coins.mint c.coins_config c.executor b)
                        >> (x.swap_exact_tokens_for_tokens c.executor
                              (path b.coin out.coin)
                              b.amount
                              out.amount
                              c.executor
                            >> (λ u.
                                on_coins Failure.of_coins_call
                                  (Coins.burn_with_instruction c.coins_config
                                    (some c.executor)
                                    (returned c out.coin to u))
                                  u))))
                  w)
        checked true = tt
        checked false =
            Runs->>= Sound Sound
              (on_coins Failure.of_coins (Coins.mint c.coins_config c.executor b)) _ w
              (mint-Runs c.coins_config c.executor b w v)
              (λ _ w₁ v₁.
                Runs->>= Sound Sound
                  (x.swap_exact_tokens_for_tokens c.executor (path b.coin out.coin) b.amount
                    out.amount c.executor)
                  _ w₁
                  (exchange-Runs c.executor (path b.coin out.coin) b.amount out.amount c.executor w₁
                    v₁)
                  (λ _ w₂ v₂.
                    burn-Runs c.coins_config (some c.executor) (returned c out.coin to w₂) w₂ v₂))

    perform-Runs :
        (b : Balance) (i : InInstruction) (w : World D)
        → IsSound w.coins
        → Runs Sound (perform c x b i w)
    perform-Runs b (InInstruction.transfer to) w v = mint-Runs c.coins_config to b w v
    perform-Runs b (InInstruction.dex (DexCall.swap_and_add_liquidity to)) w v = add-Runs b to w v
    perform-Runs b (InInstruction.dex (DexCall.swap out to)) w v = swap-Runs b out to w v

    -- The call returns, with sound coins.
    abbrev Goes : Storage D → Outcome Failure (Unit {0}) × Storage D → Type 0
    Goes s (r, t) = (r ≡ ok tt) × IsSound t.world.coins

    attempt-Goes :
        (net : NetworkId) (id index : ℕ) (i : InInstructionWithBalance) (s : Storage D)
        → IsSound s.world.coins
        → index < u32_mod
        → Goes s (attempt net id index (execute_instruction c x i) s)
    unfolding execute_instruction
    attempt-Goes net id index i s v small =
        went (perform c x i.balance i.instruction s.world)
          (perform-Runs i.balance i.instruction s.world v)
      where
        went :
            (r : Outcome Failure (Unit {0}) × World D)
            → Runs Sound r
            → Goes s (attempt net id index (transactional (λ _. r)) s)
        went (ok _, w) sound = (refl, sound)
        went (err e, w) h = elim (Bool-cases (ltb index u32_mod)) [
          | inl fits ↦ (ground (arith, fits), ground (arith, fits, v))
          | inr over ↦ absurd (ground (arith, over, small))
        ]
        went (panic, w) h = absurd h

    execute_all-Goes :
        (net : NetworkId) (id index : ℕ) (is : List InInstructionWithBalance) (s : Storage D)
        → IsSound s.world.coins
        → index + length is ≤ u32_mod
        → Goes s (execute_all c x net id index is s)
    unfolding execute_all
    execute_all-Goes net id index [] s v small = (refl, v)
    execute_all-Goes net id index (i ∷ more) s v small =
        went (attempt net id index (execute_instruction c x i) s)
          (attempt-Goes net id index i s v (omega (arith, small)))
          (λ t sound. execute_all-Goes net id (index + 1) more t sound (omega (arith, small)))
      where
        went :
            (r : Outcome Failure (Unit {0}) × Storage D)
            → Goes s r
            → ((t : Storage D)
                → IsSound t.world.coins
                → Goes t (execute_all c x net id (index + 1) more t))
            → Goes s (((λ _. r) >> execute_all c x net id (index + 1) more) s)
        went (ok _, t) (_, sound) rest = rest t sound
        went (err e, t) (failed, _) rest = absurd (ground (arith, failed))
        went (panic, t) (failed, _) rest = absurd (ground (arith, failed))

    -- With an exchange whose calls do not panic and move coins by transfers only, the execution of a
    -- batch of up to 2 ^ 32 instructions over sound coins returns, whichever of its instructions fail,
    -- and leaves the coins sound: every supply is the sum of the balances.
    pub execute_batch-IsSound :
        (b : SignedBatch) (s : Storage D)
        → IsSound s.world.coins
        → length b.batch.instructions ≤ u32_mod
        → ((execute_batch c x none b s).0 ≡ ok tt)
          × IsSound (execute_batch c x none b s).1.world.coins
    unfolding execute_batch
    execute_batch-IsSound b s v small =
        execute_all-Goes b.batch.network b.batch.id 0 b.batch.instructions _ v
          (omega (arith, small))
