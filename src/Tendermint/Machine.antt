-- ===== src/Tendermint/Machine.antt =====
-- coordinator/tributary/tendermint/src/lib.rs: the machine, the functions that its handler uses, and
-- its timeouts. The network, the signatures and the check of a block are parameters.
use serai.Common.{
  ℕ, ◌+◌, Bool, true, false, ◌||◌, Option, none, some, List, [], ◌∷◌, ◌++◌, lookup, erase, nat_eq,
  ◌==◌, if◌then◌else◌, Action, ok, err, panic, ◌>>=◌, ◌>>◌, pure, throw, assert, unwrap, gets,
  modify, beq,
}
use serai.Tendermint.Types.{
  Step, Data, Precommitted, Message, SignedMessage, Evidence, TendermintError, step_eq, RoundLog,
  MessageLog,
}
use serai.Tendermint.Weighing.{Weights}
use serai.Tendermint.Log.{has_consensus, messages_of, put_messages}
use serai.Tendermint.Rounds.{
  Latency, RoundData, BlockData, CanonicalInstant, message, new_round, set_timeout,
}

pub data SlashReason : Type 0 where
  fail_to_propose invalid_block invalid_message : SlashReason

pub data SlashEvent : Type 0 where
  slash_id : SlashReason → ℕ → ℕ → SlashEvent
  with_evidence : Evidence → SlashEvent

-- `Result<(), BlockError>` of the check of a block.
pub data Validity : Type 0 where
  valid temporal fatal : Validity

-- The network: the constants, the weights, the identifier and the check of a block, and the
-- signatures of a commit, over the time that the round ends and the identifier.
pub record Network : Type 0 where
  pub latency : Latency
  pub weights : Weights
  pub id_of : ℕ → ℕ
  pub validate : ℕ → Validity
  pub verify_commit : ℕ → ℕ → ℕ → ℕ → Bool
  pub sign_commit : ℕ → ℕ → ℕ

-- `slashes` are the validators slashed in this block, `slashed` what the network was told.
pub record TendermintMachine : Type 0 where
  pub block : BlockData
  pub log : MessageLog
  pub slashes : List ℕ
  pub slashed : List (ℕ × SlashEvent)
  pub queue : List Message

abbrev pub Handler : Type 0 → Type 0
Handler = Action TendermintMachine TendermintError

abbrev pub on_block : {A : Type 0} → Action BlockData TendermintError A → Handler A
on_block m s = let (r, b) = m s.block in (r, record s { block = b })

abbrev pub on_log : {A : Type 0} → Action MessageLog TendermintError A → Handler A
on_log m s = let (r, l) = m s.log in (r, record s { log = l })

abbrev pub enqueue : Option Message → TendermintMachine → TendermintMachine
enqueue none s = s
enqueue (some m) s = record s { queue = s.queue ++ m ∷ [] }

unfoldable pub broadcast : Data → Handler (Unit {0})
broadcast d = do m ← on_block (message d); modify (enqueue m)

abbrev pub offer : Option Data → Handler Bool
offer none = pure false
offer (some d) = broadcast d >> pure true

-- The start of a round; the result is whether it was for us to propose.
unfoldable pub start_round : Network → ℕ → Option CanonicalInstant → Handler Bool
unfolding broadcast
start_round net n time = do
  number ← gets (λ s. s.block.number)
  d ← on_block (new_round net.latency n (net.weights.proposer number n) time)
  offer d

abbrev pub current : Handler RoundData
current = gets (λ s. s.block.round) >>= unwrap

abbrev contains : ℕ → List ℕ → Bool
contains n [] = false
contains n (m ∷ ms) = (m == n) || contains n ms

unfoldable pub slash : ℕ → SlashEvent → TendermintMachine → TendermintMachine
slash who e s =
    if contains who s.slashes
    then s
    else (record s { slashes = who ∷ s.slashes; slashed = s.slashed ++ (who, e) ∷ [] })

-- The signature inside a precommit, where the end of its round is known.
abbrev verify_ended :
    Network → SignedMessage → Precommitted → Option CanonicalInstant → Handler Bool
verify_ended net m p none = pure false
verify_ended net m p (some t) =
    if net.verify_commit m.msg.sender t.time p.id p.signature
    then pure true
    else throw (TendermintError.malicious m.msg.sender (some (Evidence.invalid_precommit m)))

abbrev verify_content : Network → SignedMessage → Data → Handler Bool
verify_content net m (Data.proposal _ _) = pure false
verify_content net m (Data.prevote _) = pure false
verify_content net m (Data.precommit none) = pure true
verify_content net m (Data.precommit (some p)) =
    gets (λ s. lookup m.msg.round s.block.end_times) >>= verify_ended net m p

unfoldable pub verify_precommit_signature : Network → SignedMessage → Handler Bool
verify_precommit_signature net m = verify_content net m m.msg.content

-- `self.log[&round]` panics where the round has no entry.
abbrev pub consensus : Network → ℕ → Data → Handler Bool
consensus net n d = gets (λ s. has_consensus net.weights n d s.log) >>= unwrap

abbrev pub time_out : Network → Step → Handler (Unit {0})
time_out net st = do
  r ← current
  modify (λ s. record s { block = record s.block { round = some (set_timeout net.latency st r) } })

-- A precommit whose signature is wrong is taken out of the log, and its sender is slashed.
abbrev pub drop_precommit : ℕ → ℕ → SignedMessage → TendermintMachine → TendermintMachine
drop_precommit n who m s =
    slash who (SlashEvent.with_evidence (Evidence.invalid_precommit m))
      (record s { log = put_messages n who (erase Step.precommit (messages_of n who s.log)) s.log })

unfoldable pub recheck_message : Network → ℕ → ℕ → SignedMessage → Handler (Unit {0})
unfolding verify_precommit_signature slash
recheck_message net n who m s = elim (verify_precommit_signature net m s).0 [
  | ok verified ↦ assert verified s
  | err _ ↦ (ok tt, drop_precommit n who m s)
  | panic ↦ (panic, s)
]

abbrev pub recheck_logged : Network → ℕ → ℕ → Option SignedMessage → Handler (Unit {0})
recheck_logged net n who none = pure tt
recheck_logged net n who (some m) = recheck_message net n who m

-- The precommits that were logged before the jump.
unfoldable pub recheck : Network → ℕ → RoundLog → Handler (Unit {0})
recheck net n [] = pure tt
recheck net n ((who, ms) ∷ more) =
    recheck_logged net n who (lookup Step.precommit ms) >> recheck net n more

abbrev expire : Step → Step → Network → RoundData → Handler (Unit {0})
expire Step.propose _ net r = do
  number ← gets (λ s. s.block.number)
  modify (
      slash (net.weights.proposer number r.number)
        (SlashEvent.slash_id SlashReason.fail_to_propose number r.number))
  broadcast (Data.prevote none)
expire Step.prevote _ net r = broadcast (Data.precommit none)
expire Step.precommit _ net r = start_round net (r.number + 1) none >> pure tt

-- A timeout of the step `st` fires; it matters if the round is still at that step.
unfoldable on_timeout : Network → Step → Handler (Unit {0})
unfolding slash start_round
on_timeout net st = do
  r ← current
  modify (λ s. record s {
    block = record s.block { round = some (record r { timeouts = erase st r.timeouts }) };
  })
  if beq r.step st then expire st st net r else pure tt
