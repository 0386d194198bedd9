-- ===== src/Coins/Transfers.antt =====
-- Transfers, the fees that are withdrawn by one, and the dispatchable calls.
use serai.Common.{
  ℕ, ◌+◌, ◌-◌, ◌≤◌, ◌<◌, ◌≡◌, ◌≢◌, refl, ◌⊎◌, inl, inr, ◌&&◌, [], ◌∷◌, ◌++◌, arith, ◌==◌, ==_iff,
  if◌then◌else◌, beq, u64_mod, some, ok, err, sym,
}
use serai.Primitives.{Coin, Balance, coin_eq}
use serai.Coins.Types.{Config, Storage, Event, balance_of, not_enough_coins}
use serai.Coins.{
  decrease_balance_internal, increase_balance_internal, transfer_internal, withdraw_fee,
  correct_and_deposit_fee,
}
use serai.Coins.Supply.{share}
use serai.Coins.Invariant.{
  IsSound, debited, credited, decrease_cases, increase_cases, balance_of-debited,
  balance_of-credited, total-debited, total-credited, debited-Distinct, credited-Distinct,
  balance-le-total,
}

abbrev after_debit : ℕ → Balance → Storage → Storage
after_debit from b s = debited from b.coin b.amount s

abbrev transferred : ℕ → ℕ → Balance → Storage → Storage
transferred from to b s = record t { events = t.events ++ Event.transfer from to b ∷ [] }
  where
    t : Storage
    t = credited to b.coin b.amount (after_debit from b s)

-- Once the debit is made, the credit cannot overflow: the sum of the balances is the supply.
credit_fits :
    (from to : ℕ) (b : Balance) (s : Storage)
    → IsSound s
    → b.amount ≤ balance_of from b.coin s
    → balance_of to b.coin (after_debit from b s) + b.amount < u64_mod
credit_fits from to b s v covered =
    let share_self : share b.coin b.coin b.amount ≡ b.amount =
      ground (arith, coin_eq.beq_iff b.coin b.coin) in
    omega (
      arith,
      balance-le-total to b.coin (after_debit from b s),
      total-debited from b.coin b.amount s b.coin covered,
      v.backed b.coin,
      v.bounded b.coin,
      share_self,
    )

transferred-IsSound :
    (from to : ℕ) (b : Balance) (s : Storage)
    → IsSound s
    → b.amount ≤ balance_of from b.coin s
    → IsSound (transferred from to b s)
transferred-IsSound from to b s v covered = record {
  backed = λ d. omega (
    arith,
    v.backed d,
    total-credited to b.coin b.amount (after_debit from b s) d,
    total-debited from b.coin b.amount s d covered,
  );
  bounded = v.bounded;
  distinct =
      credited-Distinct to b.coin b.amount (after_debit from b s)
        (debited-Distinct from b.coin b.amount s v.distinct);
}

transfer_internal-eq-transferred :
    (from to : ℕ) (b : Balance) (s : Storage)
    → decrease_balance_internal from b s ≡ (ok tt, after_debit from b s)
    → increase_balance_internal to b (after_debit from b s)
      ≡ (ok tt, credited to b.coin b.amount (after_debit from b s))
    → transfer_internal from to b s ≡ (ok tt, transferred from to b s)
unfolding transfer_internal
transfer_internal-eq-transferred from to b s e f = ground (arith, e, f)

transfer_internal-short :
    (from to : ℕ) (b : Balance) (s : Storage)
    → decrease_balance_internal from b s ≡ (err not_enough_coins, s)
    → transfer_internal from to b s ≡ (err not_enough_coins, s)
unfolding transfer_internal
transfer_internal-short from to b s e = ground (arith, e)

-- What every account holds once `from` has sent `n` of `c` to `to`, itself included.
abbrev pub sent : ℕ → ℕ → Coin → ℕ → Storage → ℕ → Coin → ℕ
sent from to c n s w d =
    (if from == w && beq c d then balance_of w d s - n else balance_of w d s)
    + (if to == w && beq c d then n else 0)

sent-transferred :
    (from to : ℕ) (b : Balance) (s : Storage)
    → IsSound s
    → (w : ℕ) (d : Coin)
    → balance_of w d (transferred from to b s) ≡ sent from to b.coin b.amount s w d
sent-transferred from to b s v w d = ground (
  arith,
  balance_of-credited to b.coin b.amount (after_debit from b s) w d,
  balance_of-debited from b.coin b.amount s w d v.distinct,
  balance_of-debited from b.coin b.amount s to b.coin v.distinct,
  ==_iff from w,
  ==_iff to w,
  coin_eq.beq_iff b.coin d,
)

transfer_internal_covered :
    (from to : ℕ) (b : Balance) (s : Storage)
    → IsSound s
    → b.amount ≤ balance_of from b.coin s
    → transfer_internal from to b s ≡ (ok tt, transferred from to b s)
transfer_internal_covered from to b s v covered = elim (decrease_cases from b s) [
  | inl (_, e) ↦ elim (increase_cases to b (after_debit from b s)) [
    | inl (_, f) ↦ transfer_internal-eq-transferred from to b s e f
    | inr (full, _) ↦ absurd (omega (arith, credit_fits from to b s v covered))
  ]
  | inr (short, _) ↦ absurd (omega arith)
]

-- With a sound storage a transfer fails, and changes nothing, exactly when the sender holds less
-- than the amount. Otherwise it moves the amount (from an account to itself, nothing), changes no
-- supply, and keeps the storage sound; the credit never overflows.
pub transfer_cases :
    (from to : ℕ) (b : Balance) (s : Storage)
    → IsSound s
    → let (r, s') = transfer_internal from to b s in
      ((balance_of from b.coin s < b.amount) × (r ≡ err not_enough_coins) × (s' ≡ s))
      ⊎ ((b.amount ≤ balance_of from b.coin s)
          × (r ≡ ok tt)
          × IsSound s'
          × (s'.supply ≡ s.supply)
          × ((w : ℕ) (d : Coin) → balance_of w d s' ≡ sent from to b.coin b.amount s w d))
transfer_cases from to b s v = elim (decrease_cases from b s) [
  | inl (covered, _) ↦ rw (transfer_internal_covered from to b s v covered) (
      inr (
        covered,
        refl,
        transferred-IsSound from to b s v covered,
        refl,
        sent-transferred from to b s v,
      ))
  | inr (short, e) ↦ rw (transfer_internal-short from to b s e) (inl (short, refl, refl))
]

abbrev sri : ℕ → Balance
sri n = record { coin = Coin.serai_coin; amount = n }

withdraw_fee_covered :
    (cfg : Config) (who fee : ℕ) (s : Storage)
    → IsSound s
    → 0 < fee
    → fee ≤ balance_of who Coin.serai_coin s
    → withdraw_fee cfg who fee s ≡ (ok (some fee), transferred who cfg.fee_account (sri fee) s)
unfolding withdraw_fee
withdraw_fee_covered cfg who fee s v some_fee covered =
    ground (arith, transfer_internal_covered who cfg.fee_account (sri fee) s v covered)

refund_covered :
    (cfg : Config) (who paid corrected : ℕ) (s : Storage)
    → IsSound s
    → paid ≤ balance_of cfg.fee_account Coin.serai_coin s
    → correct_and_deposit_fee cfg who corrected (some paid) s
      ≡ (ok tt, transferred cfg.fee_account who (sri (paid - corrected)) s)
unfolding correct_and_deposit_fee
refund_covered cfg who paid corrected s v covered = ground (
  arith,
  transfer_internal_covered cfg.fee_account who (sri (paid - corrected)) s v (omega arith),
)

-- Between two accounts.
transferred_ends :
    (from to : ℕ) (b : Balance) (s : Storage)
    → IsSound s
    → from ≢ to
    → b.amount ≤ balance_of from b.coin s
    → (balance_of from b.coin (transferred from to b s) + b.amount ≡ balance_of from b.coin s)
      × (balance_of to b.coin (transferred from to b s) ≡ balance_of to b.coin s + b.amount)
transferred_ends from to b s v other covered =
    let self = coin_eq.beq_iff b.coin b.coin in
    let at_from = sent-transferred from to b s v from b.coin in
    let at_to = sent-transferred from to b s v to b.coin in
    (rw at_from (ground (arith, self)), rw at_to (ground (arith, self)))

-- A fee is withdrawn before a call and its unused part comes back after it. From a sound storage,
-- if the withdrawal of `fee` succeeds, then the refund of what exceeds `corrected` never fails; in
-- the end the payer has paid the lesser of the two to the fee account, provided the payer is
-- another account, and no supply has changed.
pub fee_settles :
    (cfg : Config) (who fee corrected : ℕ) (s : Storage)
    → IsSound s
    → who ≢ cfg.fee_account
    → 0 < fee
    → fee ≤ balance_of who Coin.serai_coin s
    → let (r, s₁) = withdraw_fee cfg who fee s in
      let (q, s₂) = correct_and_deposit_fee cfg who corrected (some fee) s₁ in
      (r ≡ ok (some fee))
      × (q ≡ ok tt)
      × IsSound s₂
      × (s₂.supply ≡ s.supply)
      × (balance_of who Coin.serai_coin s₂ + (fee - (fee - corrected))
          ≡ balance_of who Coin.serai_coin s)
      × (balance_of cfg.fee_account Coin.serai_coin s₂
          ≡ balance_of cfg.fee_account Coin.serai_coin s + (fee - (fee - corrected)))
fee_settles cfg who fee corrected s v other some_fee covered =
    let s₁ : Storage = transferred who cfg.fee_account (sri fee) s in
    let v₁ : IsSound s₁ = transferred-IsSound who cfg.fee_account (sri fee) s v covered in
    let there = transferred_ends who cfg.fee_account (sri fee) s v other covered in
    let enough : fee ≤ balance_of cfg.fee_account Coin.serai_coin s₁ = omega (arith, there.1) in
    let back =
      transferred_ends cfg.fee_account who (sri (fee - corrected)) s₁ v₁ (λ e. other (sym e))
        (omega arith) in
    rw (withdraw_fee_covered cfg who fee s v some_fee covered) (
      rw (refund_covered cfg who fee corrected s₁ v₁ enough) (
        refl,
        refl,
        transferred-IsSound cfg.fee_account who (sri (fee - corrected)) s₁ v₁ (omega arith),
        refl,
        omega (arith, there.0, back.1),
        omega (arith, there.1, back.0),
      ))
