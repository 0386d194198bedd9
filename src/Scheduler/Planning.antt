-- ===== src/Scheduler/Planning.antt =====
-- `execute`: when it returns a plan, and what the plan is.
use serai.Common.{
  ℕ, suc, ◌+◌, ◌-◌, ◌≤◌, ◌<◌, ◌≡◌, ◌≢◌, ◌⊎◌, inl, inr, true, false, Option, none, some, List, arith,
  Bool-cases, Option-cases, length, sum_of, u64_mod, ok, err,
}
use serai.Scheduler.Types.{
  Output, Payment, Plan, Plans, Network, State, out_of_fuel, payment_amount, output_amount,
}
use serai.Scheduler.Execute.{
  branch_payment, branch_loop, needs_change, max_payments, change_to, execute, with_live,
}
use serai.Scheduler.Ledger.{plans_sum}
use serai.Scheduler.Branching.{
  branch_loop_total, branch_loop_done, branch_loop_diverges, branch_loop_conserves,
  branch_loop_amounts,
}

module _ (net : Network) (inputs : List Output) (ps : List Payment) (key : ℕ) (s : State) where
  -- What a call that ended with `some (ps', queued)` returns.
  abbrev pub plan_of : List Payment → Plan
  plan_of ps' = record {
    key = s.live.key;
    inputs = inputs;
    payments = ps';
    change = change_to net (needs_change inputs ps) key;
  }

  abbrev pub after_plan : Plans → State
  after_plan queued = with_live (λ l. record l { queued_plans = queued }) s

  abbrev loop : Option (List Payment × Plans)
  loop =
      branch_loop net s.live (suc (length ps)) (max_payments net (needs_change inputs ps)) ps
        s.live.queued_plans

  -- A plan that `execute` returns comes from the loop.
  pub execute-inv :
      (plan : Plan) (s' : State)
      → execute net inputs ps key s ≡ (ok plan, s')
      → (ps' : List Payment) × (queued : Plans) × (loop ≡ some (ps', queued))
        × (plan ≡ plan_of ps')
        × (s' ≡ after_plan queued)
  unfolding execute
  execute-inv plan s' e = elim (Option-cases loop) [
    | inl none_left ↦ absurd (ground (arith, none_left))
    | inr ((ps', queued), found) ↦
        (ps', queued, found, ground (arith, found), ground (arith, found))
  ]

  -- With room for two outputs, `execute` returns a plan if no change is needed, and also if there
  -- are fewer payments than outputs fit; its payments and its change fit the outputs.
  pub execute_total :
      2 ≤ net.max_outputs
      → (needs_change inputs ps ≡ false) ⊎ (length ps < net.max_outputs)
      → (ps' : List Payment) × (queued : Plans) × (execute net inputs ps key s
          ≡ (ok (plan_of ps'), after_plan queued))
        × (length ps' ≤ max_payments net (needs_change inputs ps))
  unfolding execute
  execute_total two fits = elim (Bool-cases (needs_change inputs ps)) [
    | inl change ↦ (
      ps,
      s.live.queued_plans,
      ground (
        arith,
        change,
        branch_loop_done net s.live (length ps) (net.max_outputs - 1) ps s.live.queued_plans,
      ),
      ground (arith, change),
    )
    | inr exact ↦
        let (ps', queued, found, few) =
          branch_loop_total net s.live (suc (length ps)) ps s.live.queued_plans two (omega arith) in
        (ps', queued, ground (arith, exact, found), ground (arith, exact, few))
  ]

  -- Where a change output is needed and the payments number `max_outputs` or more, the loop of
  -- `execute` runs forever: no fuel suffices.
  pub execute_diverges :
      1 ≤ net.max_outputs
      → needs_change inputs ps ≡ true
      → net.max_outputs ≤ length ps
      → (execute net inputs ps key s ≡ (err out_of_fuel, s))
        × ((fuel : ℕ)
            → branch_loop net s.live fuel
                (max_payments net (needs_change inputs ps))
                ps
                s.live.queued_plans
              ≡ none)
  unfolding execute
  execute_diverges one change many = (
    ground (
      arith,
      change,
      branch_loop_diverges net s.live (suc (length ps)) ps s.live.queued_plans one many,
    ),
    λ fuel. rw change (branch_loop_diverges net s.live fuel ps s.live.queued_plans one many),
  )

  -- A plan spends the inputs that it was given. Its payments add up to those it was given, and it
  -- has a change output exactly where the inputs do not add up to the same.
  pub execute_balances :
      (plan : Plan) (s' : State)
      → execute net inputs ps key s ≡ (ok plan, s')
      → sum_of payment_amount ps < u64_mod
      → sum_of output_amount inputs < u64_mod
      → (plan.inputs ≡ inputs)
        × (sum_of payment_amount plan.payments ≡ sum_of payment_amount ps)
        × (((plan.change ≡ none)
              × (sum_of output_amount inputs ≡ sum_of payment_amount plan.payments))
            ⊎ ((plan.change ≡ some (net.change_address key))
                × (sum_of output_amount inputs ≢ sum_of payment_amount plan.payments)))
  execute_balances plan s' e small_ps small_inputs =
      let (ps', queued, found, is_plan, _) = execute-inv plan s' e in
      let same =
        branch_loop_amounts net s.live (suc (length ps)) (max_payments net (needs_change inputs ps))
          ps ps' s.live.queued_plans queued small_ps found in
      ground (arith, is_plan, same)

  -- No payment is lost: under any measure that ignores our branch payments, the payments of the
  -- plan and the queued plans are the payments given and the plans queued before.
  pub execute_conserves :
      (f : Payment → ℕ)
      → ((n : ℕ) → f (branch_payment (net.branch_address s.live.key) s.live.coin n) ≡ 0)
      → (plan : Plan) (s' : State) → execute net inputs ps key s ≡ (ok plan, s')
      → sum_of f plan.payments + plans_sum f s'.live.queued_plans
        ≡ sum_of f ps + plans_sum f s.live.queued_plans
  execute_conserves f ignores plan s' e =
      let (ps', queued, found, is_plan, is_state) = execute-inv plan s' e in
      let same =
        branch_loop_conserves net s.live f ignores (suc (length ps))
          (max_payments net (needs_change inputs ps)) ps ps' s.live.queued_plans queued found in
      rw (is_plan, is_state) same
