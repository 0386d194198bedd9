-- ===== src/Scheduler/Amortizing.antt =====
-- processor/src/multisigs/scheduler.rs: `created_output`, which hands the fee of a branch output on
-- to its payments.
use serai.Common.{
  ℕ, suc, ◌*◌, ◌≤◌, ◌<◌, ◌≡◌, true, false, some, List, [], ◌∷◌, arith, sum_of, u64_mod,
  wrapping_sub, ok, lookup, nat_eq, leb, ltb,
}
use serai.Scheduler.Types.{Payment, Network, State, payment_amount}
use serai.Scheduler.Execute.{payment_amounts, put_rest, with_live}
use serai.Scheduler.Created.{above_dust, keep_created, amortized, take_queued, created_output}

-- The state once the plan of an expected output is taken from the queue.
abbrev pub taken : ℕ → List (List Payment) → State → State
taken expected rest =
    with_live (λ l. record l { queued_plans = put_rest expected rest l.queued_plans })

sum_of-above_dust :
    (dust : ℕ) (ps : List Payment)
    → sum_of payment_amount (above_dust dust ps) ≤ sum_of payment_amount ps
unfolding above_dust
sum_of-above_dust dust [] = omega arith
sum_of-above_dust dust (p ∷ ps) = ground (arith, sum_of-above_dust dust ps)

-- A difference below zero wraps around to more than the payments are worth.
covered_iff : (a b : ℕ) → a < b → ltb a b ≡ true
covered_iff a b h = ground arith

amortized_wraps :
    (net : Network) (fuel expected actual : ℕ) (ps : List Payment) (t : State)
    → expected ≡ payment_amounts ps
    → actual < expected
    → 2 * expected < u64_mod
    → amortized net fuel expected actual ps t ≡ (ok tt, t)
unfolding amortized
amortized_wraps net fuel expected actual ps t adds_up less small =
    rw (covered_iff (payment_amounts ps) (wrapping_sub actual expected) (omega arith))

not-lt-zero : (a : ℕ) → ltb a 0 ≡ false
not-lt-zero a = ground arith

wrapping_sub_self : (a : ℕ) → wrapping_sub a a ≡ 0
wrapping_sub_self a = omega arith

within_expected :
    (dust expected : ℕ) (ps : List Payment)
    → sum_of payment_amount ps < u64_mod
    → expected ≡ payment_amounts ps
    → leb (payment_amounts (above_dust dust ps)) expected ≡ true
within_expected dust expected ps small adds_up = ground (arith, sum_of-above_dust dust ps)

amortized_whole :
    (net : Network) (fuel expected : ℕ) (ps : List Payment) (t : State)
    → sum_of payment_amount ps < u64_mod
    → expected ≡ payment_amounts ps
    → amortized net (suc fuel) expected expected ps t
      ≡ (ok tt, keep_created expected (above_dust net.dust ps) t)
unfolding amortized
amortized_whole net fuel expected ps t small adds_up = rw (
  wrapping_sub_self expected,
  not-lt-zero (payment_amounts ps),
  within_expected net.dust expected ps small adds_up,
)

module _ (net : Network) (expected : ℕ) (ps : List Payment) (rest : List (List Payment)) (s : State)
    (queued : lookup expected s.live.queued_plans ≡ some (ps ∷ rest))
    (adds_up : expected ≡ payment_amounts ps) where
  created_output-eq-amortized :
      (fuel actual : ℕ)
      → created_output net fuel expected (some actual) s
        ≡ amortized net fuel expected actual ps (taken expected rest s)
  unfolding created_output take_queued
  created_output-eq-amortized fuel actual = ground (arith, queued)

  -- A fee loses the payments. Where a branch output was created with less than expected, as it is
  -- once a fee is paid, `actual - expected` wraps around to more than its payments are worth, so
  -- all of them are dropped: they leave the queue and enter no plan. This holds for every expected
  -- amount of less than 2^63.
  pub created_output_drops :
      (fuel actual : ℕ)
      → actual < expected
      → 2 * expected < u64_mod
      → created_output net fuel expected (some actual) s ≡ (ok tt, taken expected rest s)
  created_output_drops fuel actual less small =
      rw (created_output-eq-amortized fuel actual)
        (amortized_wraps net fuel expected actual ps (taken expected rest s) adds_up less small)

  -- Without a fee nothing is lost: the payments that are not dust wait for an output of that
  -- amount, and the scheduler is saved if there are any.
  pub created_output_whole :
      (fuel : ℕ)
      → sum_of payment_amount ps < u64_mod
      → created_output net (suc fuel) expected (some expected) s
        ≡ (ok tt, keep_created expected (above_dust net.dust ps) (taken expected rest s))
  created_output_whole fuel small =
      rw (created_output-eq-amortized (suc fuel) expected)
        (amortized_whole net fuel expected ps (taken expected rest s) small adds_up)
