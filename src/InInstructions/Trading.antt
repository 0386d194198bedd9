-- ===== src/InInstructions/Trading.antt =====
-- substrate/in-instructions/pallet/src/lib.rs: what the execution of a batch relies on of the
-- exchange of substrate/dex/pallet/src/lib.rs, whose two calls move coins by `transfer` only.
use serai.Common.{
  ℕ, ◌≡◌, List, [], ◌∷◌, arith, subst, Action, Outcome, ok, err, panic, ◌>>◌, pure, Runs, Runs->>=,
}
use serai.Primitives.{Coin, Balance}
use serai.Coins
use serai.Coins.Invariant.{IsSound}
use serai.Coins.Transfers.{transfer_cases}
use serai.InInstructions.{World, Dex}

pub record Transfer : Type 0 where
  pub from : ℕ
  pub to : ℕ
  pub balance : Balance

-- The transfers, one after the other.
abbrev pub transfers : List Transfer → Action Coins.Storage Coins.Error (Unit {0})
transfers [] = pure tt
transfers (t ∷ ts) = Coins.transfer_internal t.from t.to t.balance >> transfers ts

transfer-Runs :
    (t : Transfer) (s : Coins.Storage)
    → IsSound s
    → Runs (λ _ s'. IsSound s') (Coins.transfer_internal t.from t.to t.balance s)
transfer-Runs t s v = ground (arith, transfer_cases t.from t.to t.balance s v)

-- Transfers of sound coins do not panic, and keep them sound.
pub transfers-Runs :
    (ts : List Transfer) (s : Coins.Storage)
    → IsSound s
    → Runs (λ _ s'. IsSound s') (transfers ts s)
transfers-Runs [] s v = v
transfers-Runs (t ∷ ts) s v =
    Runs->>= (λ _ s'. IsSound s') (λ _ s'. IsSound s')
      (Coins.transfer_internal t.from t.to t.balance) (λ _. transfers ts) s (transfer-Runs t s v)
      (λ _ s' v'. transfers-Runs ts s' v')

module _ {D : Type 0} where
  -- The coins are moved by transfers that succeed.
  abbrev pub Moves : World D → Unit {0} → World D → Type 0
  Moves w _ w' = (ts : List Transfer) × (transfers ts w.coins ≡ (ok tt, w'.coins))

  -- An exchange that does not panic over sound coins, and moves coins by transfers only, whatever
  -- it takes for its own.
  pub record IsExchange (x : Dex D) : Type 0 where
    pub swaps :
        (from : ℕ) (p : List Coin) (n min to : ℕ) (w : World D)
        → IsSound w.coins
        → Runs (Moves w) (x.swap_exact_tokens_for_tokens from p n min to w)
    pub adds :
        (from : ℕ) (c : Coin) (n m n' m' to : ℕ) (w : World D)
        → IsSound w.coins
        → Runs (Moves w) (x.add_liquidity from c n m n' m' to w)

  -- So it keeps the coins sound.
  pub Moves-IsSound :
      {E : Type 0} (w : World D) (r : Outcome E (Unit {0}) × World D)
      → IsSound w.coins
      → Runs (Moves w) r
      → Runs (λ _ w'. IsSound w'.coins) r
  Moves-IsSound w (ok _, w') v (ts, moved) =
      subst (Runs (λ _ s'. IsSound s')) moved (transfers-Runs ts w.coins v)
  Moves-IsSound w (err e, w') v moved = tt
  Moves-IsSound w (panic, w') v moved = moved
