-- ===== src/Tendermint/Blame.antt =====
-- coordinator/tributary/tendermint/src/lib.rs: what `message` does with a proposal whose valid round is
-- not one that it can refer to.
use serai.Common.{
  ℕ, ◌≤◌, ◌<◌, ◌≡◌, ◌≢◌, refl, sym, subst, Bool, true, false, Option, none, some, [], ◌∷◌, arith,
  lookup, insert, ap, nat_eq, ◌==◌, ==_iff, ok, err, panic, lookup-insert, lookup-insert_self,
}
use serai.Tendermint.Types.{
  Step, Data, step_of, Message, SignedMessage, Evidence, TendermintError, step_eq, malicious,
}
use serai.Tendermint.Weighing.{threshold}
use serai.Tendermint.Log.{log, log_over, get, has_consensus, message_instances}
use serai.Tendermint.Rounds.{RoundData}
use serai.Tendermint.Machine.{Network, TendermintMachine, verify_precommit_signature}
use serai.Tendermint.Evidence.{verify_evidence}
use serai.Tendermint.Handler.{
  handle, admit, finalizer, progress, act, tally_prevotes, tally_precommits, on_proposal, vote,
}

-- A message of a validator in the current block.
abbrev pub says : TendermintMachine → ℕ → ℕ → ℕ → Data → SignedMessage
says s who round sig d = record {
  msg = record { sender = who; block = s.block.number; round = round; content = d };
  sig = sig;
}

-- A proposal of the proposer of a round, that claims a valid round.
abbrev pub claims : Network → TendermintMachine → ℕ → ℕ → ℕ → ℕ → SignedMessage
claims net s round sig vr b =
    says s (net.weights.proposer s.block.number round) round sig (Data.proposal (some vr) b)

-- The machine once the proposal is logged, as the first message of its round.
abbrev logged : SignedMessage → TendermintMachine → TendermintMachine
logged m s = record s {
  log = insert m.msg.round ((m.msg.sender, (step_of m.msg.content, m) ∷ []) ∷ []) s.log;
}

==_self : (n : ℕ) → (n == n) ≡ true
==_self n = (==_iff n n).1 refl

log-logged :
    (m : SignedMessage) (s : TendermintMachine)
    → lookup m.msg.round s.log ≡ none
    → log m s.log ≡ (ok true, (logged m s).log)
unfolding log log_over
log-logged m s fresh = ground (arith, fresh)

admit-logged :
    (net : Network) (s : TendermintMachine) (n sig vr b : ℕ)
    → lookup n s.log ≡ none
    → admit net (claims net s n sig vr b) s ≡ (ok tt, logged (claims net s n sig vr b) s)
unfolding admit verify_precommit_signature
admit-logged net s n sig vr b fresh = ground (
  arith,
  ==_self s.block.number,
  ==_self (net.weights.proposer s.block.number n),
  log-logged (claims net s n sig vr b) s fresh,
)

finalizer-logged :
    (net : Network) (s : TendermintMachine) (r : RoundData) (sig vr b : ℕ)
    → s.block.round ≡ some r
    → finalizer net (claims net s r.number sig vr b).msg (logged (claims net s r.number sig vr b) s)
      ≡ (ok none, logged (claims net s r.number sig vr b) s)
unfolding finalizer get has_consensus message_instances threshold
finalizer-logged net s r sig vr b known =
    let who = net.weights.proposer s.block.number r.number in
    let m = claims net s r.number sig vr b in
    ground (
      arith,
      lookup-insert_self r.number ((who, (Step.propose, m) ∷ []) ∷ []) s.log,
      ==_self who,
      known,
    )

act-logged :
    (net : Network) (s : TendermintMachine) (r : RoundData) (sig vr b : ℕ)
    → s.block.round ≡ some r
    → r.step ≡ Step.propose
    → progress net (claims net s r.number sig vr b) (logged (claims net s r.number sig vr b) s)
      ≡ vote net
          (claims net s r.number sig vr b)
          (net.weights.proposer s.block.number r.number)
          (some vr)
          b
          (logged (claims net s r.number sig vr b) s)
unfolding progress act tally_prevotes tally_precommits on_proposal get
act-logged net s r sig vr b known step =
    let who = net.weights.proposer s.block.number r.number in
    let m = claims net s r.number sig vr b in
    ground (
      arith,
      lookup-insert_self r.number ((who, (Step.propose, m) ∷ []) ∷ []) s.log,
      ==_self who,
      known,
      step,
    )

-- The first message of a round, a proposal with a valid round, is voted on.
handle-vote :
    (net : Network) (s : TendermintMachine) (r : RoundData) (sig vr b : ℕ)
    → s.block.round ≡ some r
    → r.step ≡ Step.propose
    → lookup r.number s.log ≡ none
    → handle net (claims net s r.number sig vr b) s
      ≡ vote net
          (claims net s r.number sig vr b)
          (net.weights.proposer s.block.number r.number)
          (some vr)
          b
          (logged (claims net s r.number sig vr b) s)
unfolding handle
handle-vote net s r sig vr b known step fresh = ground (
  arith,
  admit-logged net s r.number sig vr b fresh,
  finalizer-logged net s r sig vr b known,
  act-logged net s r sig vr b known step,
)

-- Where the machine waits for the proposal of a round and has logged nothing in it, and the first
-- message is a proposal of the round's proposer that claims a valid round before it in which nothing
-- was logged either, the handling of this message panics.
pub handle-panics :
    (net : Network) (s : TendermintMachine) (r : RoundData) (sig vr b : ℕ)
    → s.block.round ≡ some r
    → r.step ≡ Step.propose
    → lookup r.number s.log ≡ none
    → vr < r.number
    → lookup vr s.log ≡ none
    → (handle net (claims net s r.number sig vr b) s).0 ≡ panic
unfolding vote has_consensus message_instances
handle-panics net s r sig vr b known step fresh before empty =
    let who = net.weights.proposer s.block.number r.number in
    let m = claims net s r.number sig vr b in
    rw (handle-vote net s r sig vr b known step fresh) (
      ground (
        arith,
        known,
        before,
        empty,
        ==_iff r.number vr,
        lookup-insert r.number vr ((who, (Step.propose, m) ∷ []) ∷ []) s.log,
      ))

-- The machine once another validator's prevote is logged after the proposal.
abbrev logged_second : SignedMessage → SignedMessage → TendermintMachine → TendermintMachine
logged_second p m s = record s {
  log =
      insert p.msg.round
        ((p.msg.sender, (step_of p.msg.content, p) ∷ [])
          ∷ (m.msg.sender, (step_of m.msg.content, m) ∷ [])
          ∷ [])
        (logged p s).log;
}

log-second :
    (p m : SignedMessage) (s : TendermintMachine)
    → m.msg.round ≡ p.msg.round
    → (p.msg.sender == m.msg.sender) ≡ false
    → log m (logged p s).log ≡ (ok true, (logged_second p m s).log)
unfolding log log_over
log-second p m s same apart = ground (
  arith,
  same,
  apart,
  lookup-insert_self p.msg.round ((p.msg.sender, (step_of p.msg.content, p) ∷ []) ∷ []) s.log,
)

admit-second :
    (net : Network) (s : TendermintMachine) (p : SignedMessage) (who sig : ℕ) (id : Option ℕ)
    → (p.msg.sender == who) ≡ false
    → let m = says s who p.msg.round sig (Data.prevote id) in
      admit net m (logged p s) ≡ (ok tt, logged_second p m s)
unfolding admit verify_precommit_signature
admit-second net s p who sig id apart = ground (
  arith,
  ==_self s.block.number,
  log-second p (says s who p.msg.round sig (Data.prevote id)) s refl apart,
)

act-second :
    (net : Network) (s : TendermintMachine) (r : RoundData) (sig vr b : ℕ) (m : SignedMessage)
    (id : Option ℕ)
    → s.block.round ≡ some r
    → r.step ≡ Step.propose
    → m.msg.round ≡ r.number
    → m.msg.content ≡ Data.prevote id
    → r.number ≤ vr
    → let p = claims net s r.number sig vr b in
      (progress net m (logged_second p m s)).0
      ≡ err (malicious m.msg.sender (some (Evidence.invalid_valid_round m)))
unfolding progress act tally_prevotes tally_precommits on_proposal get vote
act-second net s r sig vr b m id known step at votes late =
    let who = net.weights.proposer s.block.number r.number in
    let p = claims net s r.number sig vr b in
    ground (
      arith,
      lookup-insert_self r.number
          ((who, (Step.propose, p) ∷ []) ∷ (m.msg.sender, (step_of m.msg.content, m) ∷ []) ∷ [])
          (logged p s).log,
      ==_self who,
      ==_self r.number,
      known,
      step,
      at,
      votes,
      late,
    )

finalizer-prevote :
    (net : Network) (m : Message) (id : Option ℕ) (s : TendermintMachine)
    → m.content ≡ Data.prevote id
    → finalizer net m s ≡ (ok none, s)
unfolding finalizer
finalizer-prevote net m id s votes = ground (arith, votes)

-- Where the machine waits for the proposal of a round and has logged nothing in it, and the first
-- message is a signed proposal of the round's proposer that claims a valid round not before it, the
-- handling of this message calls the proposer malicious, with evidence that every validator accepts.
-- Then the handling of a prevote of any other validator in that round calls this validator malicious,
-- with evidence that no validator accepts.
pub handle-blames :
    (net : Network) (is_signed : SignedMessage → Bool) (commit : ℕ → Option ℕ)
    (s : TendermintMachine) (r : RoundData) (sig vr b who sig' : ℕ) (id : Option ℕ)
    → s.block.round ≡ some r
    → r.step ≡ Step.propose
    → lookup r.number s.log ≡ none
    → r.number ≤ vr
    → is_signed (claims net s r.number sig vr b) ≡ true
    → net.weights.proposer s.block.number r.number ≢ who
    → let p = claims net s r.number sig vr b in
      let m = says s who r.number sig' (Data.prevote id) in
      let first = Evidence.invalid_valid_round p in
      let second = Evidence.invalid_valid_round m in
      ((handle net p s).0 ≡ err (malicious p.msg.sender (some first)))
      × (verify_evidence net is_signed commit first ≡ ok tt)
      × ((handle net m (handle net p s).1).0 ≡ err (malicious who (some second)))
      × (verify_evidence net is_signed commit second ≡ err TendermintError.invalid_evidence)
unfolding handle vote verify_evidence
handle-blames net is_signed commit s r sig vr b who sig' id known step fresh late signed other =
    let p = claims net s r.number sig vr b in
    let m = says s who r.number sig' (Data.prevote id) in
    let apart : (p.msg.sender == who) ≡ false = ground (arith, other, ==_iff p.msg.sender who) in
    let first : handle net p s
        ≡ (err (malicious p.msg.sender (some (Evidence.invalid_valid_round p))), logged p s) =
      ground (arith, handle-vote net s r sig vr b known step fresh, known, late) in
    (
      ap (λ r. r.0) first,
      ground (arith, signed, late),
      subst
          (λ t. (handle net m t.1).0 ≡ err (malicious who (some (Evidence.invalid_valid_round m))))
          (sym first)
          (ground (
            arith,
            admit-second net s p who sig' id apart,
            finalizer-prevote net m.msg id (logged_second p m s) refl,
            act-second net s r sig vr b m id known step refl refl late,
          )),
      ground arith,
    )
