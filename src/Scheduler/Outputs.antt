-- ===== src/Scheduler/Outputs.antt =====
-- processor/src/multisigs/scheduler.rs: `add_outputs`.
use serai.Common.{
  ℕ, Option, none, some, List, [], ◌∷◌, ◌++◌, leb, if◌then◌else◌, lookup, nat_eq, Action, ok, ◌>>=◌,
  ◌>>◌, pure, abort, modify, assert,
}
use serai.Primitives.{coin_eq}
use serai.Scheduler.Types.{Output, Payment, Plan, Network, State, Fault, is_branch}
use serai.Scheduler.Execute.{payment_amounts, put_rest, with_live, execute}

-- The plan that waits for an output of this amount is executed.
unfoldable pub use_branch : Network → ℕ → Output → List (List Payment) → Action State Fault Plan
use_branch net change_key utxo [] = abort
use_branch net change_key utxo (ps ∷ rest) = do
  assert (leb (payment_amounts ps) utxo.balance.amount)
  modify (with_live (λ l. record l { plans = put_rest utxo.balance.amount rest l.plans }))
  execute net (utxo ∷ []) ps change_key

abbrev keep_utxo : Output → State → State
keep_utxo utxo = with_live (λ l. record l { utxos = l.utxos ++ utxo ∷ [] })

-- One output: some plan if it was a branch that was waited for.
unfoldable pub place_output :
    Network → ℕ → Output → Option (List (List Payment)) → Action State Fault (List Plan)
unfolding use_branch
place_output net change_key utxo none s = (ok [], keep_utxo utxo s)
place_output net change_key utxo (some waiting) s =
    (use_branch net change_key utxo waiting >>= λ plan. pure (plan ∷ [])) s

unfoldable pub add_output : Network → ℕ → Output → Action State Fault (List Plan)
unfolding place_output
add_output net change_key utxo s =
    place_output net change_key utxo
      (if is_branch utxo.kind then lookup utxo.balance.amount s.live.plans else none) s

unfoldable pub add_outputs : Network → ℕ → List Output → Action State Fault (List Plan)
unfolding add_output
add_outputs net change_key [] = pure []
add_outputs net change_key (utxo ∷ utxos) =
    let later = add_outputs net change_key utxos in
    do txs ← add_output net change_key utxo; more ← later; pure (txs ++ more)
