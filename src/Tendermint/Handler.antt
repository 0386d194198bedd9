-- ===== src/Tendermint/Handler.antt =====
-- coordinator/tributary/tendermint/src/lib.rs: `message`, the handler of a signed message. The
-- numbers in comments are lines of the paper's algorithm, as the source gives them.
use serai.Common.{
  ℕ, Bool, true, false, not, ◌&&◌, ◌||◌, Option, none, some, lookup, nat_eq, ◌==◌, ltb, leb,
  if◌then◌else◌, ◌>>=◌, ◌>>◌, pure, throw_if, assert, abort, unwrap, gets, modify, beq,
}
use serai.Tendermint.Types.{Step, Data, Message, SignedMessage, Evidence, TendermintError, step_eq}
use serai.Tendermint.Weighing.{threshold, fault_threshold}
use serai.Tendermint.Log.{
  log, get, message_instances, has_participation, round_participation, round_of,
}
use serai.Tendermint.Rounds.{RoundData}
use serai.Tendermint.Machine.{
  Validity, Network, TendermintMachine, Handler, on_log, broadcast, start_round, current,
  verify_precommit_signature, consensus, time_out, recheck,
}

abbrev pub is_proposal : Data → Bool
is_proposal (Data.proposal _ _) = true
is_proposal (Data.prevote _) = false
is_proposal (Data.precommit _) = false

abbrev is_prevote : Data → Bool
is_prevote (Data.proposal _ _) = false
is_prevote (Data.prevote _) = true
is_prevote (Data.precommit _) = false

abbrev is_precommit : Data → Bool
is_precommit (Data.proposal _ _) = false
is_precommit (Data.prevote _) = false
is_precommit (Data.precommit _) = true

-- A precommit for a block; the comparison disregards its signature.
abbrev pub precommit_for : ℕ → Data
precommit_for id = Data.precommit (some (record { id = id; signature = 0 }))

abbrev pub decide : Network → ℕ → ℕ → Handler (Option ℕ)
decide net n b = do
  agreed ← consensus net n (precommit_for (net.id_of b))
  r ← current
  if agreed then (assert (leb n r.number) >> pure (some b)) else pure none

-- What the proposer of a round has proposed.
abbrev pub decide_proposed : Network → ℕ → Data → Handler (Option ℕ)
decide_proposed net n (Data.proposal _ b) = decide net n b
decide_proposed net n (Data.prevote _) = pure none
decide_proposed net n (Data.precommit _) = pure none

abbrev decide_logged : Network → ℕ → Option SignedMessage → Handler (Option ℕ)
decide_logged net n none = pure none
decide_logged net n (some m) = decide_proposed net n m.msg.content

abbrev pub proposal_of : Network → ℕ → TendermintMachine → Option SignedMessage
proposal_of net n s = get n (net.weights.proposer s.block.number n) Step.propose s.log

-- 49-52
unfoldable pub finalizer : Network → Message → Handler (Option ℕ)
finalizer net m =
    if is_proposal m.content || is_precommit m.content
    then (gets (proposal_of net m.round) >>= decide_logged net m.round)
    else pure none

-- 34-35 and 44-46; the result says whether the handler is done.
abbrev count_prevotes : Network → RoundData → Handler Bool
count_prevotes net r = do
  counted ← gets (λ s. message_instances net.weights r.number (Data.prevote none) s.log)
  (participation, weight) ← unwrap counted
  if leb (threshold net.weights) participation then time_out net Step.prevote else pure tt
  if leb (threshold net.weights) weight
      then (broadcast (Data.precommit none) >> pure true)
      else pure false

unfoldable pub tally_prevotes : Network → Message → Handler Bool
tally_prevotes net m = do
  r ← current
  if beq r.step Step.prevote && is_prevote m.content then count_prevotes net r else pure false

-- 47-48
unfoldable pub tally_precommits : Network → Message → Handler (Unit {0})
tally_precommits net m = do
  r ← current
  if is_precommit m.content
      then (do
        enough ← gets (λ s. has_participation net.weights r.number Step.precommit s.log)
        reached ← unwrap enough
        if reached then time_out net Step.precommit else pure tt)
      else pure tt

abbrev pub is_valid : Validity → Bool
is_valid Validity.valid = true
is_valid Validity.temporal = false
is_valid Validity.fatal = false

abbrev pub is_fatal : Validity → Bool
is_fatal Validity.valid = false
is_fatal Validity.temporal = false
is_fatal Validity.fatal = true

abbrev pub only_if : Bool → Option ℕ → Option ℕ
only_if true o = o
only_if false o = none

abbrev pub or_else : Option ℕ → Option ℕ → Option ℕ
or_else none o = o
or_else (some a) o = some a

-- A vote that rests on the block alone, and one that respects the lock.
abbrev raw_vote : Network → ℕ → Option ℕ
raw_vote net b = only_if (is_valid (net.validate b)) (some (net.id_of b))

abbrev pub is_open : Option (ℕ × ℕ) → ℕ → Bool
is_open none id = true
is_open (some (_, locked)) id = locked == id

abbrev pub first_vote : Network → ℕ → Option (ℕ × ℕ) → Option ℕ
first_vote net b locked = only_if (is_open locked (net.id_of b)) (raw_vote net b)

-- A proposal with a valid round that is not older than the lock may differ from it.
abbrev pub later_vote : Network → ℕ → ℕ → Option (ℕ × ℕ) → Option ℕ
later_vote net b vr none = first_vote net b none
later_vote net b vr (some (r, id)) =
    or_else (first_vote net b (some (r, id))) (only_if (leb r vr) (raw_vote net b))

-- The vote goes out before a proposer of an invalid block is reported.
unfoldable pub cast : Network → ℕ → ℕ → Option ℕ → Handler (Option ℕ)
cast net proposer b vote = do
  broadcast (Data.prevote vote)
  throw_if (is_fatal (net.validate b)) (TendermintError.malicious proposer none)
  pure none

abbrev vote_since : Network → SignedMessage → ℕ → ℕ → ℕ → Handler (Option ℕ)
vote_since net m proposer b vr = do
  r ← current
  throw_if (leb r.number vr)
      (TendermintError.malicious m.msg.sender (some (Evidence.invalid_valid_round m)))
  agreed ← consensus net vr (Data.prevote (some (net.id_of b)))
  vote ← gets (λ s. later_vote net b vr s.block.locked)
  if agreed then cast net proposer b vote else pure none

-- 22-33
unfoldable pub vote : Network → SignedMessage → ℕ → Option ℕ → ℕ → Handler (Option ℕ)
vote net m proposer none b = gets (λ s. first_vote net b s.block.locked) >>= cast net proposer b
vote net m proposer (some vr) b = vote_since net m proposer b vr

abbrev is_new_valid : ℕ → Option (ℕ × ℕ) → Bool
is_new_valid n none = true
is_new_valid n (some (r, _)) = not (r == n)

abbrev pub lock_on : Network → ℕ → ℕ → Handler (Unit {0})
lock_on net n b = do
  modify (λ s. record s { block = record s.block { locked = some (n, net.id_of b) } })
  ended ← gets (λ s. lookup n s.block.end_times)
  t ← unwrap ended
  broadcast (
      Data.precommit
        (some (record { id = net.id_of b; signature = net.sign_commit t.time (net.id_of b) })))

abbrev accept : Network → ℕ → RoundData → ℕ → Handler (Unit {0})
accept net proposer r b = do
  throw_if (is_fatal (net.validate b)) (TendermintError.malicious proposer none)
  modify (λ s. record s { block = record s.block { valid = some (r.number, b) } })
  if beq r.step Step.prevote then lock_on net r.number b else pure tt

-- 36-43
unfoldable pub lock : Network → ℕ → ℕ → Handler (Option ℕ)
lock net proposer b = do
  r ← current
  is_new ← gets (λ s. is_new_valid r.number s.block.valid)
  if is_new
      then (do
        agreed ← consensus net r.number (Data.prevote (some (net.id_of b)))
        if agreed then accept net proposer r b else pure tt)
      else pure tt
  pure none

abbrev pub on_proposed : Network → SignedMessage → ℕ → Data → Handler (Option ℕ)
on_proposed net m proposer (Data.proposal vr b) = do
  r ← current
  if beq r.step Step.propose then vote net m proposer vr b else lock net proposer b
on_proposed net m proposer (Data.prevote _) = abort
on_proposed net m proposer (Data.precommit _) = abort

abbrev pub on_logged : Network → SignedMessage → ℕ → Option SignedMessage → Handler (Option ℕ)
on_logged net m proposer none = pure none
on_logged net m proposer (some p) = on_proposed net m proposer p.msg.content

unfoldable pub on_proposal : Network → SignedMessage → Handler (Option ℕ)
on_proposal net m = do
  r ← current
  number ← gets (λ s. s.block.number)
  p ← gets (proposal_of net r.number)
  on_logged net m (net.weights.proposer number r.number) p

-- The message is of the current round.
unfoldable pub act : Network → SignedMessage → Handler (Option ℕ)
act net m = do
  done ← tally_prevotes net m.msg
  if done then pure none else (tally_precommits net m.msg >> on_proposal net m)

-- 55-56
unfoldable pub jump : Network → SignedMessage → Handler (Option ℕ)
jump net m = do
  proposes ← start_round net m.msg.round none
  logged ← gets (λ s. round_of m.msg.round s.log)
  recheck net m.msg.round logged
  if proposes then pure none else act net m

unfoldable pub progress : Network → SignedMessage → Handler (Option ℕ)
progress net m = do
  r ← current
  if ltb m.msg.round r.number
      then pure none
      else if ltb r.number m.msg.round
      then (do
        ahead ← gets (λ s. round_participation net.weights m.msg.round s.log)
        if ltb (fault_threshold net.weights) ahead then jump net m else pure none)
      else act net m

abbrev pub resume : Network → SignedMessage → Option ℕ → Handler (Option ℕ)
resume net m (some b) = pure (some b)
resume net m none = progress net m

-- The checks before a message counts, and its entry in the log.
unfoldable pub admit : Network → SignedMessage → Handler (Unit {0})
admit net m = do
  number ← gets (λ s. s.block.number)
  throw_if (not (m.msg.block == number)) TendermintError.temporal
  verify_precommit_signature net m
  throw_if
      (is_proposal m.msg.content
        && not (m.msg.sender == net.weights.proposer m.msg.block m.msg.round))
      (TendermintError.malicious m.msg.sender none)
  is_new ← on_log (log m)
  throw_if (not is_new) TendermintError.already_handled

-- `message`
unfoldable pub handle : Network → SignedMessage → Handler (Option ℕ)
handle net m = do admit net m; decided ← finalizer net m.msg; resume net m decided
