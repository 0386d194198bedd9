-- ===== src/Scheduler/Types.antt =====
-- The data of processor/src/multisigs/scheduler.rs and processor/src/plan.rs, and what the trait
-- `Network` of processor/src/networks/mod.rs gives them. An address or a key is a number, and an
-- output is what the scheduler reads of one, beside an identifier.
use serai.Common.{ℕ, Bool, true, false, Option, List, Map}
use serai.Primitives.{Coin, Balance}

pub data OutputType : Type 0 where
  external branch change forwarded : OutputType

pub record Output : Type 0 where
  pub id : ℕ
  pub kind : OutputType
  pub balance : Balance

pub record Payment : Type 0 where
  pub address : ℕ
  pub memo : Option (List ℕ)
  pub balance : Balance

pub record Plan : Type 0 where
  pub key : ℕ
  pub inputs : List Output
  pub payments : List Payment
  pub change : Option ℕ

-- The constants and the addresses of the external network.
pub record Network : Type 0 where
  pub max_inputs : ℕ
  pub max_outputs : ℕ
  pub dust : ℕ
  pub branch_address : ℕ → ℕ
  pub change_address : ℕ → ℕ

abbrev pub Plans : Type 0
Plans = Map ℕ (List (List Payment))

pub record Scheduler : Type 0 where
  pub key : ℕ
  pub coin : Coin
  pub queued_plans : Plans
  pub plans : Plans
  pub utxos : List Output
  pub payments : List Payment

-- The scheduler in memory, and the one that the database holds for its key.
pub record State : Type 0 where
  pub live : Scheduler
  pub saved : Option Scheduler

-- The loops of the scheduler take fuel; this says that it did not suffice.
pub data Fault : Type 0 where
  out_of_fuel : Fault

abbrev pub output_amount : Output → ℕ
output_amount o = o.balance.amount

abbrev pub payment_amount : Payment → ℕ
payment_amount p = p.balance.amount

abbrev pub is_branch : OutputType → Bool
is_branch OutputType.branch = true
is_branch _ = false
