-- ===== src/Scheduler/Samples.antt =====
-- A network, a scheduler and payments at which the theorems on the scheduler apply.
use serai.Common.{
  ℕ, ◌+◌, ◌≤◌, ◌≡◌, inl, refl, false, none, some, List, [], ◌∷◌, arith, if◌then◌else◌, ◌==◌, nat_eq,
  pair_eq, length, sum_of, ok, err,
}
use serai.Primitives.{Coin, Balance, coin_eq}
use serai.Scheduler.Types.{
  OutputType, Output, Payment, Plan, Plans, Network, State, out_of_fuel, output_amount,
  payment_amount,
}
use serai.Scheduler.Execute.{branch_loop, needs_change, max_payments, execute}
use serai.Scheduler.Outputs.{add_outputs}
use serai.Scheduler.Schedule.{schedule, affordable}
use serai.Scheduler.Created.{created_output}
use serai.Scheduler.Ledger.{plans_sum}
use serai.Scheduler.Planning.{
  plan_of, after_plan, execute_total, execute_diverges, execute_conserves,
}
use serai.Scheduler.Conservation.{spent, held, schedule_conserves_outputs}
use serai.Scheduler.Amortizing.{taken, created_output_drops}

abbrev network : Network
network = record {
  max_inputs = 2;
  max_outputs = 2;
  dust = 1;
  branch_address = λ k. k + 1000;
  change_address = λ k. k + 2000;
}

abbrev coins_of : ℕ → Balance
coins_of n = record { coin = Coin.bitcoin; amount = n }

abbrev received : List Output
received = record { id = 1; kind = OutputType.external; balance = coins_of 10 } ∷ []

abbrev pay : ℕ → Payment
pay n = record { address = 7; memo = none; balance = coins_of n }

abbrev one_payment : List Payment
one_payment = pay 10 ∷ []

abbrev two_payments : List Payment
two_payments = pay 4 ∷ pay 4 ∷ []

abbrev idle : State
idle = record {
  live = record {
    key = 5;
    coin = Coin.bitcoin;
    queued_plans = [];
    plans = [];
    utxos = [];
    payments = [];
  };
  saved = none;
}

-- Two payments wait for an output of 8.
abbrev waiting : State
waiting = record idle { live = record idle.live { queued_plans = (8, two_payments ∷ []) ∷ [] } }

abbrev the_plan : Plan
the_plan = record { key = 5; inputs = received; payments = one_payment; change = none }

-- What a payment is worth, but for those to the branch address.
abbrev worth : Payment → ℕ
worth p = if p.address == 1005 then 0 else payment_amount p

abbrev nothing_left : List (List Payment)
nothing_left = []

execute_total_example :
    (ps' : List Payment) × (queued : Plans) × (execute network received one_payment 5 idle ≡ (
      ok (plan_of network received one_payment 5 idle ps'),
      after_plan network received one_payment 5 idle queued,
    ))
    × (length ps' ≤ max_payments network (needs_change received one_payment))
execute_total_example = execute_total network received one_payment 5 idle (omega arith) (inl refl)

execute_diverges_example :
    (execute network received two_payments 5 idle ≡ (err out_of_fuel, idle))
    × ((fuel : ℕ)
        → branch_loop network idle.live fuel
            (max_payments network (needs_change received two_payments))
            two_payments
            idle.live.queued_plans
          ≡ none)
execute_diverges_example =
    execute_diverges network received two_payments 5 idle (omega arith) refl (omega arith)

execute_conserves_example :
    sum_of worth the_plan.payments + plans_sum worth idle.live.queued_plans
    ≡ sum_of worth one_payment + plans_sum worth idle.live.queued_plans
unfolding execute branch_loop
execute_conserves_example =
    execute_conserves network received one_payment 5 idle worth (λ n. refl) the_plan idle refl

schedule_conserves_outputs_example :
    spent output_amount (the_plan ∷ [])
      + held output_amount (schedule network received one_payment 5 false idle).1
    ≡ held output_amount idle + sum_of output_amount received
unfolding schedule add_outputs affordable execute branch_loop
schedule_conserves_outputs_example =
    schedule_conserves_outputs output_amount network received one_payment 5 false idle
      (schedule network received one_payment 5 false idle).1 (the_plan ∷ []) (omega arith) refl

created_output_drops_example :
    created_output network 1 8 (some 7) waiting ≡ (ok tt, taken 8 nothing_left waiting)
created_output_drops_example =
    created_output_drops network 8 two_payments nothing_left waiting refl refl 1 7 (omega arith)
      (omega arith)
