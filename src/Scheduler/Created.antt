-- ===== src/Scheduler/Created.antt =====
-- processor/src/multisigs/scheduler.rs: `can_use_branch` and `created_output`.
use serai.Common.{
  ℕ, zero, suc, ◌+◌, ◌-◌, ◌/◌, ◌%◌, min, Bool, Option, none, some, List, [], ◌∷◌, ◌==◌, ltb, leb,
  if◌then◌else◌, lookup, beq, nat_eq, wrapping_sub, length, Outcome, Action, ok, err, panic, ◌>>=◌,
  ◌>>◌, pure, abort, gets, modify, assert,
}
use serai.Primitives.{Balance, coin_eq}
use serai.Scheduler.Types.{Payment, Network, Scheduler, State, Fault, out_of_fuel, payment_amount}
use serai.Scheduler.Execute.{payment_amounts, push_plan, put_rest, save, with_live}
use serai.Common.{contains_key}

unfoldable can_use_branch : Balance → Scheduler → Outcome Fault Bool
can_use_branch b s = if beq b.coin s.coin then ok (contains_key b.amount s.plans) else panic

abbrev less : Payment → ℕ → Payment
less p n = record p { balance = record { coin = p.balance.coin; amount = payment_amount p - n } }

-- One pass over the payments: each gives `per_payment`, the first also the overage, as far as it
-- has it. What is left to amortize, and the payments.
unfoldable amortize_pass : ℕ → ℕ → ℕ → List Payment → ℕ × List Payment
amortize_pass per_payment overage to_amortize [] = (to_amortize, [])
amortize_pass per_payment overage to_amortize (p ∷ ps) =
    let subtractable = min (payment_amount p) (per_payment + overage) in
    let (left, rest) = amortize_pass per_payment 0 (to_amortize - subtractable) ps in
    (left, less p subtractable ∷ rest)

-- `while to_amortize != 0`
unfoldable amortize : ℕ → ℕ → List Payment → Outcome Fault (List Payment)
unfolding amortize_pass
amortize zero to_amortize ps = err out_of_fuel
amortize (suc fuel) to_amortize ps =
    let len = length ps in
    let (left, rest) = amortize_pass (to_amortize / len) (to_amortize % len) to_amortize ps in
    let later = amortize fuel left rest in
    if to_amortize == 0 then ok ps else if len == 0 then panic else later

unfoldable pub above_dust : ℕ → List Payment → List Payment
above_dust dust [] = []
above_dust dust (p ∷ ps) =
    if leb dust (payment_amount p) then p ∷ above_dust dust ps else above_dust dust ps

unfoldable pub keep_created : ℕ → List Payment → State → State
keep_created actual [] s = s
keep_created actual (p ∷ ps) s =
    save (with_live (λ l. record l { plans = push_plan actual (p ∷ ps) l.plans }) s)

-- The payments of an output that was created with `actual`.
unfoldable pub amortized : Network → ℕ → ℕ → ℕ → List Payment → Action State Fault (Unit {0})
unfolding amortize above_dust keep_created
amortized net fuel expected actual ps s =
    let to_amortize = wrapping_sub actual expected in
    if ltb (payment_amounts ps) to_amortize
    then (ok tt, s)
    else elim (amortize fuel to_amortize ps) [
      | ok rest ↦
          let worthy = above_dust net.dust rest in
          (do assert (leb (payment_amounts worthy) actual); modify (keep_created actual worthy)) s
      | err e ↦ (err e, s)
      | panic ↦ (panic, s)
    ]

unfoldable pub take_queued : ℕ → Option (List (List Payment)) → Action State Fault (List Payment)
take_queued expected none = abort
take_queued expected (some []) = abort
take_queued expected (some (ps ∷ rest)) = do
  assert (expected == payment_amounts ps)
  modify (with_live (λ l. record l { queued_plans = put_rest expected rest l.queued_plans }))
  pure ps

unfoldable pub created_output : Network → ℕ → ℕ → Option ℕ → Action State Fault (Unit {0})
unfolding take_queued amortized
created_output net fuel expected actual = do
  queued ← gets (λ s. lookup expected s.live.queued_plans)
  ps ← take_queued expected queued
  elim actual [ none ↦ pure tt | some amount ↦ amortized net fuel expected amount ps ]
