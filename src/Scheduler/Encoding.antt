-- ===== src/Scheduler/Encoding.antt =====
-- processor/src/multisigs/scheduler.rs and processor/src/plan.rs: the encodings of the scheduler, of
-- payments and of plans. Those of outputs, keys, addresses and balances are parameters.
pub mod Payments
pub mod RoundTrip
mod Samples
use serai.Common.{
  ℕ, zero, suc, ◌+◌, Bool, true, false, Option, none, some, List, [], ◌∷◌, ◌++◌, ◌==◌,
  if◌then◌else◌, length, Map, insert, nat_eq, Outcome, Action, ok, err, panic, ◌>>=◌, ◌>>◌, pure,
  ok_or, expect, Bytes, IoError, io_error, Writer, Reader, write_all, read_exact, write_int,
  read_int, write_each, read_times, write_list, read_list,
}
use serai.Primitives.{Coin, Balance}
use serai.Scheduler.Types.{Output, Payment, Plan, Plans, Scheduler}

-- The encodings of the external network and of the chain's types.
pub record Codecs : Type 0 where
  pub write_output : Output → Writer
  pub read_output : Reader Output
  pub write_key : ℕ → Writer
  pub read_key : Reader ℕ
  pub address_bytes : ℕ → Option Bytes
  pub address_of : Bytes → Option ℕ
  pub encode_balance : Balance → Bytes
  pub read_balance : Reader Balance

module _ (codecs : Codecs) where
  abbrev pub write_memo : Option Bytes → Writer
  write_memo none = write_all (0 ∷ [])
  write_memo (some memo) = write_all (1 ∷ []) >> (write_int 4 (length memo) >> write_all memo)

  -- The bytes of an address, behind their length, a `u32`.
  abbrev pub write_address : ℕ → Writer
  write_address address = do
    bs ← ok_or (codecs.address_bytes address) io_error
    write_int 4 (length bs)
    write_all bs

  unfoldable pub write_payment : Payment → Writer
  write_payment p =
      write_address p.address >> (write_memo p.memo >> write_all (codecs.encode_balance p.balance))

  abbrev pub read_bytes : Reader Bytes
  read_bytes = read_int 4 >>= read_exact

  abbrev pub read_address : Reader ℕ
  read_address = read_bytes >>= λ bs. ok_or (codecs.address_of bs) io_error

  abbrev pub memo_behind : ℕ → Reader (Option Bytes)
  memo_behind flag = if flag == 1 then (read_bytes >>= λ memo. pure (some memo)) else pure none

  abbrev pub read_memo : Reader (Option Bytes)
  read_memo = read_int 1 >>= memo_behind

  unfoldable pub read_payment : Reader Payment
  unfolding read_exact
  read_payment = do
    address ← read_address
    memo ← read_memo
    balance ← codecs.read_balance
    pure (record { address = address; memo = memo; balance = balance })

  abbrev pub write_plan_list : ℕ × List (List Payment) → Writer
  write_plan_list (amount, list_of_plans) =
      write_int 8 amount >> write_list (write_list (λ p. expect (write_payment p))) list_of_plans

  abbrev pub write_plans : Plans → Writer
  write_plans plans = write_list write_plan_list plans

  unfoldable pub serialize : Scheduler → Writer
  unfolding write_payment
  serialize s =
      write_plans s.queued_plans
      >> (write_plans s.plans
          >> (write_list (λ o. expect (codecs.write_output o)) s.utxos
              >> write_list (λ p. expect (write_payment p)) s.payments))

  abbrev pub read_plan_list : Reader (ℕ × List (List Payment))
  read_plan_list = do
    amount ← read_int 8
    plans ← read_list (read_list read_payment)
    pure (amount, plans)

  -- The rest of the plans, behind those that are in the map.
  unfoldable pub read_plans_into : (count : ℕ) → Plans → Reader Plans
  unfolding read_times read_payment
  read_plans_into zero all_plans = pure all_plans
  read_plans_into (suc count) all_plans = do
    (amount, plans) ← read_plan_list
    read_plans_into count (insert amount plans all_plans)

  abbrev pub read_plans : Reader Plans
  read_plans = read_int 4 >>= λ count. read_plans_into count []

  unfoldable pub read : ℕ → Coin → Reader Scheduler
  unfolding read_plans_into read_times read_payment
  read key coin = do
    queued_plans ← read_plans
    plans ← read_plans
    utxos ← read_list codecs.read_output
    payments ← read_list read_payment
    pure (record {
      key = key;
      coin = coin;
      queued_plans = queued_plans;
      plans = plans;
      utxos = utxos;
      payments = payments;
    })

  -- `from_db`, of what the database holds for the key
  unfoldable pub from_db : ℕ → Coin → Option Bytes → Outcome IoError Scheduler
  unfolding read
  from_db key coin none = panic
  from_db key coin (some bs) = (read key coin bs).0

  abbrev pub change_bytes : Option ℕ → Reader Bytes
  change_bytes none = pure []
  change_bytes (some address) = ok_or (codecs.address_bytes address) io_error

  unfoldable pub write_plan : Plan → Writer
  unfolding write_payment
  write_plan p =
      codecs.write_key p.key
      >> (write_list codecs.write_output p.inputs
          >> (write_list write_payment p.payments
              >> (change_bytes p.change >>= λ bs. write_int 1 (length bs) >> write_all bs)))

  abbrev pub change_of : Bytes → Reader (Option ℕ)
  change_of [] = pure none
  change_of (b ∷ bs) =
      ok_or (codecs.address_of (b ∷ bs)) io_error >>= λ address. pure (some address)

  unfoldable pub read_plan : Reader Plan
  unfolding read_times read_exact read_payment
  read_plan = do
    key ← codecs.read_key
    inputs ← read_list codecs.read_output
    payments ← read_list read_payment
    bs ← read_int 1 >>= read_exact
    change ← change_of bs
    pure (record { key = key; inputs = inputs; payments = payments; change = change })
