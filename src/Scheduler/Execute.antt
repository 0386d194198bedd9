-- ===== src/Scheduler/Execute.antt =====
-- processor/src/multisigs/scheduler.rs: a new scheduler, and `execute`.
use serai.Common.{
  ℕ, zero, suc, ◌+◌, ◌-◌, ◌%◌, min, Bool, true, false, not, ◌&&◌, Option, none, some, List, [], ◌∷◌,
  ◌++◌, ◌==◌, ltb, if◌then◌else◌, lookup, insert, erase, nat_eq, length, take, drop, sum_of,
  u64_mod, Action, ok, err,
}
use serai.Primitives.{Coin, coin_eq}
use serai.Scheduler.Types.{
  Output, Payment, Plan, Network, Plans, Scheduler, State, Fault, out_of_fuel, output_amount,
  payment_amount,
}

-- `.map(|payment| payment.balance.amount.0).sum::<u64>()`
abbrev pub payment_amounts : List Payment → ℕ
payment_amounts ps = sum_of payment_amount ps % u64_mod

abbrev pub output_amounts : List Output → ℕ
output_amounts os = sum_of output_amount os % u64_mod

-- `entry(amount).or_insert(VecDeque::new()).push_back(payments)`
abbrev pub or_empty : Option (List (List Payment)) → List (List Payment)
or_empty none = []
or_empty (some ps) = ps

unfoldable pub push_plan : ℕ → List Payment → Plans → Plans
push_plan amount ps plans = insert amount (or_empty (lookup amount plans) ++ ps ∷ []) plans

-- What is left of the plans for `amount` after `pop_front`: no entry where none are left.
unfoldable pub put_rest : ℕ → List (List Payment) → Plans → Plans
put_rest amount [] plans = erase amount plans
put_rest amount (q ∷ qs) plans = insert amount (q ∷ qs) plans

-- `empty`
abbrev pub is_empty {ℓ} : {A : Type ℓ} → List A → Bool
is_empty [] = true
is_empty (x ∷ xs) = false

unfoldable pub empty : Scheduler → Bool
empty s = is_empty s.queued_plans && is_empty s.plans && is_empty s.utxos && is_empty s.payments

unfoldable pub new : ℕ → Coin → State
new key coin = record { live = s; saved = some s }
  where
    s : Scheduler
    s = record { key = key; coin = coin; queued_plans = []; plans = []; utxos = []; payments = [] }

-- `txn.put(scheduler_key, self.serialize())`
abbrev pub save : State → State
save s = record s { saved = some s.live }

abbrev pub with_live : (Scheduler → Scheduler) → State → State
with_live f s = record s { live = f s.live }

-- One round of the loop of `execute`: the last payments become a plan of their own, and a payment
-- to the branch address takes their place, in front.
abbrev pub to_remove : ℕ → ℕ → ℕ
to_remove max_outputs len = min (len + 1 - max_outputs) max_outputs

abbrev pub branch_payment : ℕ → Coin → ℕ → Payment
branch_payment address coin amount = record {
  address = address;
  memo = none;
  balance = record { coin = coin; amount = amount };
}

module _ (net : Network) (s : Scheduler) where
  abbrev pub kept : List Payment → List Payment
  kept ps = take (length ps - to_remove net.max_outputs (length ps)) ps

  abbrev pub removed : List Payment → List Payment
  removed ps = drop (length ps - to_remove net.max_outputs (length ps)) ps

  abbrev pub branch_round : List Payment → List Payment
  branch_round ps =
      branch_payment (net.branch_address s.key) s.coin (payment_amounts (removed ps)) ∷ kept ps

  abbrev pub branch_queue : List Payment → Plans → Plans
  branch_queue ps queued = push_plan (payment_amounts (removed ps)) (removed ps) queued

  -- `while payments.len() > max`
  unfoldable pub branch_loop : ℕ → ℕ → List Payment → Plans → Option (List Payment × Plans)
  branch_loop zero max ps queued = none
  branch_loop (suc fuel) max ps queued =
      let rest = branch_loop fuel max (branch_round ps) (branch_queue ps queued) in
      if ltb max (length ps) then rest else some (ps, queued)

-- A change output is made where the inputs and the payments differ.
abbrev pub needs_change : List Output → List Payment → Bool
needs_change inputs ps = not (output_amounts inputs == payment_amounts ps)

abbrev pub max_payments : Network → Bool → ℕ
max_payments net with_change = if with_change then net.max_outputs - 1 else net.max_outputs

abbrev pub change_to : Network → Bool → ℕ → Option ℕ
change_to net with_change key = if with_change then some (net.change_address key) else none

unfoldable pub execute : Network → List Output → List Payment → ℕ → Action State Fault Plan
execute net inputs ps change_key s =
    let with_change = needs_change inputs ps in
    elim (branch_loop net s.live (suc (length ps)) (max_payments net with_change) ps
      s.live.queued_plans) [
        | none ↦ (err out_of_fuel, s)
        | some (ps', queued) ↦ (
          ok (record {
            key = s.live.key;
            inputs = inputs;
            payments = ps';
            change = change_to net with_change change_key;
          }),
          with_live (λ l. record l { queued_plans = queued }) s,
        )
      ]
