-- ===== src/Scheduler/Schedule.antt =====
-- processor/src/multisigs/scheduler.rs: `schedule` and `consume_payments`.
use serai.Common.{
  ℕ, zero, suc, ◌-◌, Bool, true, not, ◌&&◌, Option, none, some, List, [], ◌∷◌, ◌++◌, map, ◌==◌, leb,
  if◌then◌else◌, beq, nat_eq, length, take, drop, Action, ok, panic, ◌>>=◌, ◌>>◌, pure, gets,
  modify, assert,
}
use serai.Primitives.{Coin, coin_eq}
use serai.Scheduler.Types.{
  Output, Payment, Plan, Network, Scheduler, State, Fault, output_amount, payment_amount,
}
use serai.Scheduler.Execute.{output_amounts, is_empty, save, with_live, execute}
use serai.Scheduler.Outputs.{add_outputs}

-- `sort_by` with the comparison reversed: a stable sort, the greatest amounts first.
unfoldable pub insert_output : Output → List Output → List Output
insert_output o [] = o ∷ []
insert_output o (x ∷ xs) =
    if leb (output_amount x) (output_amount o) then o ∷ x ∷ xs else x ∷ insert_output o xs

unfoldable pub sort_outputs : List Output → List Output
unfolding insert_output
sort_outputs [] = []
sort_outputs (o ∷ os) = insert_output o (sort_outputs os)

-- `chunks(n)`; the fuel is the length, since a chunk of a positive size takes an element.
unfoldable pub chunks : ℕ → ℕ → List Output → List (List Output)
chunks zero n os = []
chunks (suc fuel) n [] = []
chunks (suc fuel) n (o ∷ os) = take n (o ∷ os) ∷ chunks fuel n (drop n (o ∷ os))

-- The last chunk is restored, and not aggregated, if it is a single output.
unfoldable pub split_last : List (List Output) → List (List Output) × Option Output
split_last [] = ([], none)
split_last ((o ∷ []) ∷ []) = ([], some o)
split_last (c ∷ []) = (c ∷ [], none)
split_last (c ∷ d ∷ cs) = let (rest, restore) = split_last (d ∷ cs) in (c ∷ rest, restore)

-- The loop that takes payments from the front for as long as the balance covers them: what it
-- takes and what it leaves.
unfoldable pub affordable : ℕ → List Payment → List Payment × List Payment
affordable balance [] = ([], [])
affordable balance (p ∷ ps) =
    let (executing, left) = affordable (balance - payment_amount p) ps in
    if leb (payment_amount p) balance then (p ∷ executing, left) else ([], p ∷ ps)

abbrev pub aggregate : Network → Scheduler → ℕ → List Output → Plan
aggregate net s change_key inputs = record {
  key = s.key;
  inputs = inputs;
  payments = [];
  change = some (net.change_address change_key);
}

unfoldable pub of_coin : Coin → List Payment → Bool
of_coin c [] = true
of_coin c (p ∷ ps) = beq p.balance.coin c && of_coin c ps

unfoldable pub outputs_of_coin : Coin → List Output → Bool
outputs_of_coin c [] = true
outputs_of_coin c (o ∷ os) = beq o.balance.coin c && outputs_of_coin c os

-- Payments to our own branch address are dropped.
unfoldable pub drop_branches : ℕ → List Payment → List Payment
drop_branches address [] = []
drop_branches address (p ∷ ps) =
    if p.address == address then drop_branches address ps else p ∷ drop_branches address ps

-- The payments that the first chunk affords are executed; with none the chunk is kept.
unfoldable pub spend_first : Network → ℕ → List Output → Action State Fault (List Plan)
spend_first net change_key utxos s =
    let (executing, left) = affordable (output_amounts utxos) s.live.payments in
    let t : State = with_live (λ l. record l { payments = left }) s in
    if is_empty executing
    then (ok [], with_live (λ l. record l { utxos = l.utxos ++ utxos }) t)
    else (execute net utxos executing change_key >>= λ plan. pure (plan ∷ [])) t

-- With `force_spend` the outputs that were kept are sent on.
unfoldable pub spend_rest : Network → ℕ → Bool → Action State Fault (List Plan)
spend_rest net change_key force_spend s =
    if force_spend && not (is_empty s.live.utxos)
    then (if leb (length s.live.utxos) net.max_inputs
        then (
          ok (aggregate net s.live change_key s.live.utxos ∷ []),
          with_live (λ l. record l { utxos = [] }) s,
        )
        else (panic, s))
    else (ok [], s)

unfoldable pub restore : Option Output → State → State
restore none s = s
restore (some o) s = with_live (λ l. record l { utxos = l.utxos ++ o ∷ [] }) s

-- The end of `schedule`: the forced spend, the output to restore, the write to the database, and
-- all the plans. `l` is the scheduler before it gave its outputs up.
unfoldable pub finish :
    Network
    → Scheduler
    → ℕ
    → List (List Output)
    → Option Output
    → List Plan
    → List Plan
    → Action State Fault (List Plan)
unfolding restore
finish net l change_key aggregated to_restore executed forced = do
  modify (restore to_restore)
  modify save
  pure (map (aggregate net l change_key) aggregated ++ (executed ++ forced))

-- The part of `schedule` that follows the test for outputs, from the first chunk and the others.
unfoldable pub spend_chunks :
    Network → ℕ → Bool → List Output → List (List Output) → Action State Fault (List Plan)
unfolding spend_first spend_rest finish split_last
spend_chunks net change_key force_spend first others s =
    let (aggregated, to_restore) = split_last others in
    (do
      executed ← spend_first net change_key first
      forced ← spend_rest net change_key force_spend
      finish net s.live change_key aggregated to_restore executed forced)
      (with_live (λ l. record l { utxos = [] }) s)

unfoldable pub spend_utxos :
    Network → ℕ → Bool → List (List Output) → Action State Fault (List Plan)
unfolding spend_chunks
spend_utxos net change_key force_spend [] = pure []
spend_utxos net change_key force_spend (first ∷ others) =
    spend_chunks net change_key force_spend first others

unfoldable pub spend : Network → ℕ → Bool → Action State Fault (List Plan)
unfolding spend_utxos chunks sort_outputs
spend net change_key force_spend s =
    spend_utxos net change_key force_spend
      (chunks (length s.live.utxos) net.max_inputs (sort_outputs s.live.utxos)) s

unfoldable pub spend_if_any : Network → ℕ → Bool → Action State Fault (List Plan)
unfolding spend
spend_if_any net change_key force_spend s =
    if is_empty s.live.utxos then (ok [], s) else spend net change_key force_spend s

-- What follows `add_outputs`: the new payments join those that are pending.
unfoldable pub settle : Network → List Payment → ℕ → Bool → Action State Fault (List Plan)
unfolding spend_if_any
settle net pending change_key force_spend s =
    spend_if_any net change_key force_spend
      (with_live (λ l. record l { payments = l.payments ++ pending }) s)

unfoldable pub schedule :
    Network → List Output → List Payment → ℕ → Bool → Action State Fault (List Plan)
unfolding drop_branches of_coin outputs_of_coin settle
schedule net utxos ps change_key force_spend = do
  s ← gets (λ s. s.live)
  assert (outputs_of_coin s.coin utxos && of_coin s.coin ps)
  let pending = drop_branches (net.branch_address s.key) ps
  plans ← add_outputs net change_key utxos
  more ← settle net pending change_key force_spend
  pure (plans ++ more)

-- The pending payments are taken out, and saved so if there were any.
unfoldable pub consume_payments : Action State Fault (List Payment)
consume_payments s =
    let t : State = with_live (λ l. record l { payments = [] }) s in
    (ok s.live.payments, if is_empty s.live.payments then t else save t)
