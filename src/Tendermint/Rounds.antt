-- ===== src/Tendermint/Rounds.antt =====
-- coordinator/tributary/tendermint/src/time.rs, round.rs and block.rs: the times of the rounds, and
-- what a round starts with. Times are seconds (`time`) and milliseconds (`instant`).
use serai.Common.{
  ℕ, zero, suc, ◌+◌, ◌-◌, ◌*◌, ◌/◌, ◌%◌, Bool, true, false, Option, none, some, [], Map, lookup,
  insert, nat_eq, pair_eq, contains_key, if◌then◌else◌, ◌==◌, u32_mod, Action, ◌>>=◌, ◌>>◌, pure,
  unwrap, gets, modify,
}
use serai.Tendermint.Types.{Step, Data, step_of, Message, TendermintError, step_eq}

pub record CanonicalInstant : Type 0 where
  pub time : ℕ
  pub instant : ℕ

-- `Add<Duration>`, of a duration in milliseconds.
abbrev pub after : CanonicalInstant → ℕ → CanonicalInstant
after t ms = record { time = t.time + ms / 1000; instant = t.instant + ms }

-- The constants of the network, in milliseconds.
pub record Latency : Type 0 where
  pub block_processing_time : ℕ
  pub latency_time : ℕ

-- `block_time`, in seconds; the assertion fails where that is no whole number.
unfoldable pub block_time : Latency → Option ℕ
block_time c =
    let raw = (c.block_processing_time + (3 * c.latency_time) % u32_mod) % u32_mod in
    if raw / 1000 * 1000 == raw then some (raw / 1000) else none

pub record RoundData : Type 0 where
  pub number : ℕ
  pub start_time : CanonicalInstant
  pub step : Step
  pub timeouts : Map Step ℕ

abbrev pub new_round_data : ℕ → CanonicalInstant → RoundData
new_round_data n start = record {
  number = n;
  start_time = start;
  step = Step.propose;
  timeouts = [];
}

-- How many latencies each step waits for.
abbrev latencies : Step → ℕ
latencies Step.propose = 1
latencies Step.prevote = 2
latencies Step.precommit = 3

-- The offset is computed over `u32`.
unfoldable pub timeout_offset : Latency → ℕ → Step → ℕ
timeout_offset c number st =
    let adjusted_block = c.block_processing_time * (number + 1) % u32_mod in
    let adjusted_latency = c.latency_time * (number + 1) % u32_mod in
    (adjusted_block + latencies st * adjusted_latency % u32_mod) % u32_mod

unfoldable pub timeout : Latency → RoundData → Step → CanonicalInstant
unfolding timeout_offset
timeout c r st = after r.start_time (timeout_offset c r.number st)

unfoldable pub end_time : Latency → RoundData → CanonicalInstant
unfolding timeout
end_time c r = timeout c r Step.precommit

-- `entry(step).or_insert(timeout)`
abbrev or_insert : Step → ℕ → Map Step ℕ → Map Step ℕ
or_insert st t m = if contains_key st m then m else insert st t m

unfoldable pub set_timeout : Latency → Step → RoundData → RoundData
unfolding timeout
set_timeout c st r = record r { timeouts = or_insert st (timeout c r st).instant r.timeouts }

-- A block under way. `sent` is what the database holds of the messages already sent.
pub record BlockData : Type 0 where
  pub number : ℕ
  pub validator_id : Option ℕ
  pub proposal : Option ℕ
  pub end_times : Map ℕ CanonicalInstant
  pub round : Option RoundData
  pub locked : Option (ℕ × ℕ)
  pub valid : Option (ℕ × ℕ)
  pub sent : Map ((ℕ × ℕ) × Step) (Unit {0})

-- The loop of `populate_end_time`: `count` rounds from `r` on. `none` is the panic of a missing
-- prior time.
unfoldable pub populate : Latency → ℕ → ℕ → Map ℕ CanonicalInstant → Option (Map ℕ CanonicalInstant)
unfolding end_time
populate c zero r ends = some ends
populate c (suc count) r ends = elim (lookup (r - 1) ends) [
  | none ↦ none
  | some prior ↦ populate c count (r + 1) (insert r (end_time c (new_round_data r prior)) ends)
]

abbrev Machine : Type 0 → Type 0
Machine = Action BlockData TendermintError

unfoldable pub populate_end_time : Latency → ℕ → Action BlockData TendermintError (Unit {0})
unfolding populate
populate_end_time c n = do
  r ← gets (λ b. b.round)
  current ← unwrap r
  ends ← gets (λ b. populate c (n - current.number) (current.number + 1) b.end_times)
  ends' ← unwrap ends
  modify (λ b. record b { end_times = ends' })

-- The block to propose: the valid one, or else our own.
abbrev pub proposed : Option (ℕ × ℕ) → Option ℕ → Option Data
proposed (some (r, b)) own = some (Data.proposal (some r) b)
proposed none none = none
proposed none (some b) = some (Data.proposal none b)

abbrev is_ours : ℕ → Option ℕ → Bool
is_ours proposer none = false
is_ours proposer (some us) = proposer == us

abbrev start_of : ℕ → Option CanonicalInstant → Map ℕ CanonicalInstant → Option CanonicalInstant
start_of n (some t) ends = some t
start_of n none ends = lookup (n - 1) ends

-- The start of a round; the result is what to propose, if it is for us to propose.
unfoldable pub new_round :
    Latency → ℕ → ℕ → Option CanonicalInstant → Action BlockData TendermintError (Option Data)
unfolding populate_end_time end_time set_timeout
new_round c n proposer time = do
  if n == 0 then pure tt else populate_end_time c n
  started ← gets (λ b. start_of n time b.end_times)
  start ← unwrap started
  let r = new_round_data n start
  modify (λ b. record b { round = some r; end_times = insert n (end_time c r) b.end_times })
  b ← gets (λ b. b)
  if is_ours proposer b.validator_id
      then pure (proposed b.valid b.proposal)
      else (modify (λ b. record b { round = some (set_timeout c Step.propose r) }) >> pure none)

-- The message of a validator, unless the database says that it was sent.
abbrev pub key_of : ℕ → Data → BlockData → (ℕ × ℕ) × Step
key_of n d b = ((b.number, n), step_of d)

unfoldable pub send : ℕ → ℕ → Data → BlockData → Option Message × BlockData
send us n d b = elim (contains_key (key_of n d b) b.sent) [
  | true ↦ (none, b)
  | false ↦ (
    some (record { sender = us; block = b.number; round = n; content = d }),
    record b { sent = insert (key_of n d b) tt b.sent },
  )
]

abbrev pub sender_of : Option ℕ → ℕ → Data → BlockData → Option Message × BlockData
sender_of none n d b = (none, b)
sender_of (some us) n d b = send us n d b

-- `message`: the step of the round becomes that of the data.
unfoldable pub message : Data → Action BlockData TendermintError (Option Message)
unfolding send
message d = do
  r ← gets (λ b. b.round)
  current ← unwrap r
  modify (λ b. record b { round = some (record current { step = step_of d }) })
  b ← gets (λ b. b)
  let (m, b') = sender_of b.validator_id current.number d b
  modify (λ _. b')
  pure m
