-- ===== src/Scheduler/Conservation.antt =====
-- The outputs that `schedule` takes, spends and holds. A measure of outputs stands for any way to
-- count them.
use serai.Common.{
  ℕ, zero, suc, ◌+◌, ◌≤◌, ◌≡◌, refl, Bool, Option, none, some, List, [], ◌∷◌, ◌++◌, map, arith,
  Bool-cases, inl, inr, length, take, drop, take-append-drop, length-drop, sum_of, sum_of-append,
  ok, if◌then◌else◌, leb, Action, Ensures, Ensures->>=, Ensures-intro, Ensures-inv, lookup, nat_eq,
  pure, ◌>>=◌, ◌&&◌, not,
}
use serai.Scheduler.Types.{Output, Payment, Plan, Network, Scheduler, State, Fault, is_branch}
use serai.Scheduler.Execute.{
  payment_amounts, output_amounts, is_empty, execute, with_live, put_rest,
}
use serai.Scheduler.Outputs.{use_branch, place_output, add_output, add_outputs}
use serai.Scheduler.Schedule.{
  insert_output, sort_outputs, chunks, split_last, affordable, aggregate, spend_first, spend_rest,
  restore, finish, spend_chunks, spend_utxos, spend, spend_if_any, settle, schedule, of_coin,
  outputs_of_coin, drop_branches,
}
use serai.Scheduler.Planning.{execute-inv}

length-insert_output :
    (o : Output) (os : List Output) → length (insert_output o os) ≡ suc (length os)
unfolding insert_output
length-insert_output o [] = refl
length-insert_output o (x ∷ xs) = ground (arith, length-insert_output o xs)

length-sort_outputs : (os : List Output) → length (sort_outputs os) ≡ length os
unfolding sort_outputs
length-sort_outputs [] = refl
length-sort_outputs (o ∷ os) =
    omega (arith, length-insert_output o (sort_outputs os), length-sort_outputs os)

module _ (g : Output → ℕ) where
  -- The outputs that plans spend, and the outputs that are held.
  abbrev pub spent : List Plan → ℕ
  spent = sum_of (λ p. sum_of g p.inputs)

  abbrev pub held : State → ℕ
  held s = sum_of g s.live.utxos

  -- A call that returns has moved what it took in, `n`, into its plans and the outputs held.
  abbrev Moves : State → ℕ → List Plan → State → Type 0
  Moves s n plans t = spent plans + held t ≡ held s + n

  -- A call that returns one plan spends these inputs in it and leaves the outputs held alone.
  abbrev Spends : State → List Output → Plan → State → Type 0
  Spends s inputs plan t = (plan.inputs ≡ inputs) × (held t ≡ held s)

  execute-Spends :
      (net : Network) (inputs : List Output) (ps : List Payment) (key : ℕ) (s : State)
      → Ensures (Spends s inputs) (execute net inputs ps key s)
  execute-Spends net inputs ps key s =
      Ensures-intro (Spends s inputs) (execute net inputs ps key s) λ plan t e.
        let (ps', queued, _, is_plan, is_state) = execute-inv net inputs ps key s plan t e in
        (rw is_plan, rw is_state)

  one-Moves :
      (m : Action State Fault Plan) (inputs : List Output) (s : State)
      → Ensures (Spends s inputs) (m s)
      → Ensures (Moves s (sum_of g inputs)) ((m >>= λ plan. pure (plan ∷ [])) s)
  one-Moves m inputs s h =
      Ensures->>= (Spends s inputs) (Moves s (sum_of g inputs)) m (λ plan. pure (plan ∷ [])) s h
        λ plan t (same, kept). rw same (omega arith)

  use_branch-Spends :
      (net : Network) (key : ℕ) (utxo : Output) (waiting : List (List Payment)) (s : State)
      → Ensures (Spends s (utxo ∷ [])) (use_branch net key utxo waiting s)
  unfolding use_branch
  use_branch-Spends net key utxo [] s = tt
  use_branch-Spends net key utxo (ps ∷ rest) s =
      elim (Bool-cases (leb (payment_amounts ps) utxo.balance.amount)) [
        | inl covers ↦ rw covers (
            execute-Spends net (utxo ∷ []) ps key
              (with_live (λ l. record l { plans = put_rest utxo.balance.amount rest l.plans }) s))
        | inr short ↦ rw short tt
      ]

  place_output-Moves :
      (net : Network) (key : ℕ) (utxo : Output) (o : Option (List (List Payment))) (s : State)
      → Ensures (Moves s (sum_of g (utxo ∷ []))) (place_output net key utxo o s)
  unfolding place_output
  place_output-Moves net key utxo none s =
      omega (arith, sum_of-append {0} g s.live.utxos (utxo ∷ []))
  place_output-Moves net key utxo (some waiting) s =
      one-Moves (use_branch net key utxo waiting) (utxo ∷ []) s
        (use_branch-Spends net key utxo waiting s)

  add_output-Moves :
      (net : Network) (key : ℕ) (utxo : Output) (s : State)
      → Ensures (Moves s (sum_of g (utxo ∷ []))) (add_output net key utxo s)
  unfolding add_output
  add_output-Moves net key utxo s =
      place_output-Moves net key utxo
        (if is_branch utxo.kind then lookup utxo.balance.amount s.live.plans else none) s

  -- Two calls in a row, and their plans together.
  then-Moves :
      (m k : Action State Fault (List Plan)) (n₁ n₂ n : ℕ) (s : State)
      → n₁ + n₂ ≡ n
      → Ensures (Moves s n₁) (m s)
      → ((t : State) → Ensures (Moves t n₂) (k t))
      → Ensures (Moves s n) ((m >>= λ a. k >>= λ b. pure (a ++ b)) s)
  then-Moves m k n₁ n₂ n s e h later =
      Ensures->>= (Moves s n₁) (Moves s n) m (λ a. k >>= λ b. pure (a ++ b)) s h
        λ plans t moved.
          Ensures->>= (Moves t n₂) (Moves s n) k (λ b. pure (plans ++ b)) t (later t)
            λ more u moved'. omega (arith, sum_of-append {0} (λ p. sum_of g p.inputs) plans more)

  add_outputs-Moves :
      (net : Network) (key : ℕ) (utxos : List Output) (s : State)
      → Ensures (Moves s (sum_of g utxos)) (add_outputs net key utxos s)
  unfolding add_outputs
  add_outputs-Moves net key [] s = omega arith
  add_outputs-Moves net key (utxo ∷ utxos) s =
      then-Moves (add_output net key utxo) (add_outputs net key utxos) (sum_of g (utxo ∷ []))
        (sum_of g utxos) (g utxo + sum_of g utxos) s (omega arith) (add_output-Moves net key utxo s)
        (add_outputs-Moves net key utxos)

  sum_of-insert_output :
      (o : Output) (os : List Output) → sum_of g (insert_output o os) ≡ g o + sum_of g os
  unfolding insert_output
  sum_of-insert_output o [] = refl
  sum_of-insert_output o (x ∷ xs) = ground (arith, sum_of-insert_output o xs)

  sum_of-sort_outputs : (os : List Output) → sum_of g (sort_outputs os) ≡ sum_of g os
  unfolding sort_outputs
  sum_of-sort_outputs [] = refl
  sum_of-sort_outputs (o ∷ os) =
      omega (arith, sum_of-insert_output o (sort_outputs os), sum_of-sort_outputs os)

  chunks_sum : List (List Output) → ℕ
  chunks_sum = sum_of (sum_of g)

  chunks_sum-chunks :
      (fuel n : ℕ) (os : List Output)
      → 1 ≤ n
      → length os ≤ fuel
      → chunks_sum (chunks fuel n os) ≡ sum_of g os
  unfolding chunks chunks_sum
  chunks_sum-chunks zero n [] one enough = refl
  chunks_sum-chunks zero n (o ∷ os) one enough = absurd (omega arith)
  chunks_sum-chunks (suc fuel) n [] one enough = refl
  chunks_sum-chunks (suc fuel) n (o ∷ os) one enough =
      let rest =
        chunks_sum-chunks fuel n (drop n (o ∷ os)) one (omega (arith, length-drop n (o ∷ os))) in
      let whole : sum_of g (take n (o ∷ os)) + sum_of g (drop n (o ∷ os)) ≡ sum_of g (o ∷ os) =
        rw (← sum_of-append g (take n (o ∷ os)) (drop n (o ∷ os)))
          (rw (take-append-drop n (o ∷ os))) in
      omega arith

  restored : Option Output → ℕ
  restored none = 0
  restored (some o) = g o

  split_last-sum :
      (cs : List (List Output))
      → chunks_sum (split_last cs).0 + restored (split_last cs).1 ≡ chunks_sum cs
  unfolding split_last chunks_sum restored
  split_last-sum [] = refl
  split_last-sum ([] ∷ []) = omega arith
  split_last-sum ((o ∷ []) ∷ []) = omega arith
  split_last-sum ((o ∷ p ∷ os) ∷ []) = omega arith
  split_last-sum (c ∷ d ∷ cs) = omega (arith, split_last-sum (d ∷ cs))

  spend_first-Moves :
      (net : Network) (key : ℕ) (utxos : List Output) (s : State)
      → Ensures (Moves s (sum_of g utxos)) (spend_first net key utxos s)
  unfolding spend_first
  spend_first-Moves net key utxos s =
      let t : State =
        with_live
          (λ l. record l { payments = (affordable (output_amounts utxos) s.live.payments).1 }) s in
      elim (Bool-cases (is_empty (affordable (output_amounts utxos) s.live.payments).0)) [
        | inl nothing ↦ rw nothing (omega (arith, sum_of-append {0} g s.live.utxos utxos))
        | inr something ↦ rw something (
            one-Moves (execute net utxos (affordable (output_amounts utxos) s.live.payments).0 key)
              utxos t
              (execute-Spends net utxos (affordable (output_amounts utxos) s.live.payments).0 key
                t))
      ]

  spend_rest-Moves :
      (net : Network) (key : ℕ) (force_spend : Bool) (s : State)
      → Ensures (Moves s 0) (spend_rest net key force_spend s)
  unfolding spend_rest
  spend_rest-Moves net key force_spend s =
      elim (Bool-cases (force_spend && not (is_empty s.live.utxos))) [
        | inl forced ↦ elim (Bool-cases (leb (length s.live.utxos) net.max_inputs)) [
          | inl few ↦ rw (forced, few) (omega arith)
          | inr many ↦ rw (forced, many) tt
        ]
        | inr idle ↦ rw idle (omega arith)
      ]

  spent-aggregate :
      (net : Network) (l : Scheduler) (key : ℕ) (cs : List (List Output))
      → spent (map (aggregate net l key) cs) ≡ chunks_sum cs
  unfolding chunks_sum
  spent-aggregate net l key [] = refl
  spent-aggregate net l key (c ∷ cs) = omega (arith, spent-aggregate net l key cs)

  held-restore : (o : Option Output) (s : State) → held (restore o s) ≡ held s + restored o
  unfolding restore restored
  held-restore none s = omega arith
  held-restore (some o) s = omega (arith, sum_of-append {0} g s.live.utxos (o ∷ []))

  spend_chunks-Moves :
      (net : Network) (key : ℕ) (force_spend : Bool) (first : List Output)
      (others : List (List Output)) (s : State)
      → held s ≡ sum_of g first + chunks_sum others
      → Ensures (Moves s 0) (spend_chunks net key force_spend first others s)
  unfolding spend_chunks
  spend_chunks-Moves net key force_spend first others s e =
      let (agg, back) = split_last others in
      let t : State = with_live (λ l. record l { utxos = [] }) s in
      Ensures->>= (Moves t (sum_of g first)) (Moves s 0) (spend_first net key first)
        (λ executed. spend_rest net key force_spend >>= finish net s.live key agg back executed) t
        (spend_first-Moves net key first t)
        λ executed u moved.
          Ensures->>= (Moves u 0) (Moves s 0) (spend_rest net key force_spend)
            (finish net s.live key agg back executed) u (spend_rest-Moves net key force_spend u)
            λ forced w moved'.
              let plans = map (aggregate net s.live key) agg in
              let total : spent (plans ++ (executed ++ forced)) + held (restore back w)
                  ≡ held s + 0 =
                omega (
                  arith,
                  sum_of-append {0} (λ p. sum_of g p.inputs) plans (executed ++ forced),
                  sum_of-append {0} (λ p. sum_of g p.inputs) executed forced,
                  spent-aggregate net s.live key agg,
                  held-restore back w,
                  split_last-sum others,
                ) in
              total

  spend_utxos-Moves :
      (net : Network) (key : ℕ) (force_spend : Bool) (cs : List (List Output)) (s : State)
      → held s ≡ chunks_sum cs
      → Ensures (Moves s 0) (spend_utxos net key force_spend cs s)
  unfolding spend_utxos chunks_sum
  spend_utxos-Moves net key force_spend [] s e = omega arith
  spend_utxos-Moves net key force_spend (first ∷ others) s e =
      spend_chunks-Moves net key force_spend first others s e

  spend-Moves :
      (net : Network) (key : ℕ) (force_spend : Bool) (s : State)
      → 1 ≤ net.max_inputs
      → Ensures (Moves s 0) (spend net key force_spend s)
  unfolding spend
  spend-Moves net key force_spend s one =
      let sorted = sort_outputs s.live.utxos in
      spend_utxos-Moves net key force_spend (chunks (length s.live.utxos) net.max_inputs sorted) s (
        omega (
          arith,
          chunks_sum-chunks (length s.live.utxos) net.max_inputs sorted one
              (omega (arith, length-sort_outputs s.live.utxos)),
          sum_of-sort_outputs s.live.utxos,
        ))

  spend_if_any-Moves :
      (net : Network) (key : ℕ) (force_spend : Bool) (s : State)
      → 1 ≤ net.max_inputs
      → Ensures (Moves s 0) (spend_if_any net key force_spend s)
  unfolding spend_if_any
  spend_if_any-Moves net key force_spend s one = elim (Bool-cases (is_empty s.live.utxos)) [
    | inl nothing ↦ rw nothing (omega arith)
    | inr something ↦ rw something (spend-Moves net key force_spend s one)
  ]

  schedule-Moves :
      (net : Network) (utxos : List Output) (ps : List Payment) (key : ℕ) (force_spend : Bool)
      (s : State)
      → 1 ≤ net.max_inputs
      → Ensures (Moves s (sum_of g utxos)) (schedule net utxos ps key force_spend s)
  unfolding schedule
  schedule-Moves net utxos ps key force_spend s one =
      let pending = drop_branches (net.branch_address s.live.key) ps in
      elim (Bool-cases (outputs_of_coin s.live.coin utxos && of_coin s.live.coin ps)) [
        | inl same ↦ rw same (
            then-Moves (add_outputs net key utxos) (settle net pending key force_spend)
              (sum_of g utxos) 0 (sum_of g utxos) s (omega arith)
              (add_outputs-Moves net key utxos s)
              λ t.
                spend_if_any-Moves net key force_spend
                  (with_live (λ l. record l { payments = l.payments ++ pending }) t) one)
        | inr other ↦ rw other tt
      ]

-- No output is lost and none is spent twice: under any measure, the outputs in the returned plans
-- and those held after a call of `schedule` that returns are those held before and those given.
pub schedule_conserves_outputs :
    (g : Output → ℕ) (net : Network) (utxos : List Output) (ps : List Payment) (key : ℕ)
    (force_spend : Bool) (s t : State) (plans : List Plan)
    → 1 ≤ net.max_inputs
    → schedule net utxos ps key force_spend s ≡ (ok plans, t)
    → spent g plans + held g t ≡ held g s + sum_of g utxos
schedule_conserves_outputs g net utxos ps key force_spend s t plans one e =
    Ensures-inv (Moves g s (sum_of g utxos)) (schedule net utxos ps key force_spend s) plans t
      (schedule-Moves g net utxos ps key force_spend s one) e
