-- ===== src/Scheduler/Branching.antt =====
-- The loop of `execute`, which turns payments that do not fit one transaction into branches.
use serai.Common.{
  ℕ, zero, suc, ◌+◌, ◌-◌, ◌≤◌, ◌<◌, ◌≡◌, refl, inl, inr, none, some, List, ◌++◌, arith, ltb,
  Bool-cases, length, length-take, take-append-drop, sum_of, sum_of-append, u64_mod, ltb→lt,
}
use serai.Scheduler.Types.{Payment, Plans, Network, Scheduler, payment_amount}
use serai.Scheduler.Execute.{
  payment_amounts, to_remove, branch_payment, kept, removed, branch_round, branch_queue,
  branch_loop,
}
use serai.Scheduler.Ledger.{plans_sum, plans_sum-push}

module _ (net : Network) (s : Scheduler) where
  length-branch_round :
      (ps : List Payment)
      → length (branch_round net s ps) ≡ suc (length ps - to_remove net.max_outputs (length ps))
  length-branch_round ps =
      omega (arith, length-take (length ps - to_remove net.max_outputs (length ps)) ps)

  -- Without a change output the loop ends, with at most `max_outputs` payments.
  pub branch_loop_total :
      (fuel : ℕ) (ps : List Payment) (queued : Plans)
      → 2 ≤ net.max_outputs
      → length ps < fuel
      → (ps' : List Payment) × (queued' : Plans) × (branch_loop net s fuel net.max_outputs ps queued
          ≡ some (ps', queued'))
        × (length ps' ≤ net.max_outputs)
  unfolding branch_loop
  branch_loop_total zero ps queued two enough = absurd (omega arith)
  branch_loop_total (suc fuel) ps queued two enough =
      elim (Bool-cases (ltb net.max_outputs (length ps))) [
        | inl more ↦ rw more (
            branch_loop_total fuel (branch_round net s ps) (branch_queue net s ps queued) two
              (omega (arith, length-branch_round ps, ltb→lt net.max_outputs (length ps) more)))
        | inr done ↦ (ps, queued, rw done, ground arith)
      ]

  pub branch_loop_done :
      (fuel max : ℕ) (ps : List Payment) (queued : Plans)
      → length ps ≤ max
      → branch_loop net s (suc fuel) max ps queued ≡ some (ps, queued)
  unfolding branch_loop
  branch_loop_done fuel max ps queued few = ground arith

  -- With a change output the loop never ends once there are `max_outputs` payments: a round that
  -- removes one payment puts one in its place.
  pub branch_loop_diverges :
      (fuel : ℕ) (ps : List Payment) (queued : Plans)
      → 1 ≤ net.max_outputs
      → net.max_outputs ≤ length ps
      → branch_loop net s fuel (net.max_outputs - 1) ps queued ≡ none
  unfolding branch_loop
  branch_loop_diverges zero ps queued one many = refl
  branch_loop_diverges (suc fuel) ps queued one many = ground (
    arith,
    length-branch_round ps,
    branch_loop_diverges fuel (branch_round net s ps) (branch_queue net s ps queued),
  )

  kept-append-removed : (ps : List Payment) → kept net s ps ++ removed net s ps ≡ ps
  kept-append-removed ps = take-append-drop (length ps - to_remove net.max_outputs (length ps)) ps

  kept-sum :
      (f : Payment → ℕ) (ps : List Payment)
      → sum_of f (kept net s ps) + sum_of f (removed net s ps) ≡ sum_of f ps
  kept-sum f ps =
      rw (← sum_of-append f (kept net s ps) (removed net s ps)) (rw (kept-append-removed ps))

  -- Under any measure that ignores our branch payments, what the loop ends with and what it has
  -- queued are what it began with.
  pub branch_loop_conserves :
      (f : Payment → ℕ)
      → ((n : ℕ) → f (branch_payment (net.branch_address s.key) s.coin n) ≡ 0)
      → (fuel max : ℕ) (ps ps' : List Payment) (queued queued' : Plans)
      → branch_loop net s fuel max ps queued ≡ some (ps', queued')
      → sum_of f ps' + plans_sum f queued' ≡ sum_of f ps + plans_sum f queued
  unfolding branch_loop
  branch_loop_conserves f ignores zero max ps ps' queued queued' e = cc
  branch_loop_conserves f ignores (suc fuel) max ps ps' queued queued' e = ground (
    arith,
    branch_loop_conserves f ignores fuel max (branch_round net s ps) ps'
        (branch_queue net s ps queued) queued',
    ignores (payment_amounts (removed net s ps)),
    kept-sum f ps,
    plans_sum-push f (payment_amounts (removed net s ps)) (removed net s ps) queued,
  )

  -- The amounts that the loop ends with add up to those it began with.
  pub branch_loop_amounts :
      (fuel max : ℕ) (ps ps' : List Payment) (queued queued' : Plans)
      → sum_of payment_amount ps < u64_mod
      → branch_loop net s fuel max ps queued ≡ some (ps', queued')
      → sum_of payment_amount ps' ≡ sum_of payment_amount ps
  unfolding branch_loop
  branch_loop_amounts zero max ps ps' queued queued' small e = cc
  branch_loop_amounts (suc fuel) max ps ps' queued queued' small e = ground (
    arith,
    branch_loop_amounts fuel max (branch_round net s ps) ps' (branch_queue net s ps queued) queued',
    kept-sum payment_amount ps,
  )
