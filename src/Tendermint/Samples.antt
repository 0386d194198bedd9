-- ===== src/Tendermint/Samples.antt =====
-- Weights, logs and machines at which the theorems on the consensus apply.
use serai.Common.{
  ℕ, ◌+◌, ◌≤◌, ◌≡◌, refl, Bool, true, Option, none, some, List, [], ◌∷◌, arith, if◌then◌else◌, ◌==◌,
  Map, lookup, Distinct, nat_eq, pair_eq, sum_of, subst, ==_iff, sym, ◌∙◌, ok, err, panic,
}
use serai.Tendermint.Types.{
  Step, Data, data_beq, data_beq_refl, SignedMessage, Evidence, TendermintError, malicious,
  conflicting_messages, RoundLog, MessageLog, step_eq,
}
use serai.Tendermint.Weighing.{Weights, threshold, fault_threshold, IsWeighing}
use serai.Tendermint.Log.{log, get, has_consensus, message_instances, has_participation}
use serai.Tendermint.Rounds.{CanonicalInstant, Latency, BlockData, new_round_data, message, send}
use serai.Tendermint.Quorums.{consensus_agrees}
use serai.Tendermint.Machine.{
  Network, TendermintMachine, Validity, verify_precommit_signature, broadcast,
}
use serai.Tendermint.Handler.{
  handle, admit, finalizer, on_proposal, vote, progress, act, cast, tally_prevotes,
  tally_precommits,
}
use serai.Tendermint.Deciding.{IsDecided, handle-IsDecided}
use serai.Tendermint.Voting.{Sends}
use serai.Tendermint.Voting.Handling.{handle-Sends}
use serai.Tendermint.Overlap.{AreConsistent}
use serai.Tendermint.Finality.{AreFair, decisions_agree}
use serai.Tendermint.Evidence.{IsKeyed, verify_evidence, log-verify_evidence}
use serai.Tendermint.Blame.{claims, says, handle-panics, handle-blames}
use serai.Tendermint.Sending.{Event, run, AreDistinct, run-AreDistinct}

-- Validator 0 is alone.
abbrev alone : Weights
alone = record { total_weight = 1; weight = λ v. if v == 0 then 1 else 0; proposer = λ b r. 0 }

abbrev weight_alone : ℕ × Map Step SignedMessage → ℕ
weight_alone e = alone.weight e.0

alone-without : (r : RoundLog) → lookup 0 r ≡ none → sum_of weight_alone r ≡ 0
alone-without [] h = refl
alone-without ((v, ms) ∷ r) h = ground (arith, alone-without r)

alone-covers : (r : RoundLog) → Distinct r → sum_of weight_alone r ≤ 1
alone-covers [] d = omega arith
alone-covers ((v, ms) ∷ r) d = ground (arith, alone-without r, alone-covers r d.1, ==_iff v 0)

alone-IsWeighing : IsWeighing alone
alone-IsWeighing = record { small = omega arith; covers = alone-covers }

abbrev vote_for : ℕ → SignedMessage
vote_for id = record {
  msg = record { sender = 0; block = 1; round = 0; content = Data.prevote (some id) };
  sig = 77;
}

abbrev voted : RoundLog
voted = (0, (Step.prevote, vote_for 3) ∷ []) ∷ []

abbrev votes : MessageLog
votes = (0, voted) ∷ []

votes-Distinct : (r : RoundLog) → lookup 0 votes ≡ some r → Distinct r
votes-Distinct r e =
    subst (λ (o : Option RoundLog). elim o [ none ↦ Unit {0} | some q ↦ Distinct q ]) e (refl, tt)

abbrev latency : Latency
latency = record { block_processing_time = 3000; latency_time = 1000 }

abbrev begun : CanonicalInstant
begun = record { time = 100; instant = 100000 }

abbrev ends_known : Map ℕ CanonicalInstant
ends_known = (0, begun) ∷ []

consensus_agrees_example : data_beq (Data.prevote (some 3)) (Data.prevote (some 3)) ≡ true
unfolding has_consensus threshold
consensus_agrees_example =
    consensus_agrees alone 0 (Data.prevote (some 3)) (Data.prevote (some 3)) votes alone-IsWeighing
      votes-Distinct refl refl refl

abbrev machine : BlockData
machine = record {
  number = 1;
  validator_id = some 0;
  proposal = none;
  end_times = ends_known;
  round = some (new_round_data 0 begun);
  locked = none;
  valid = none;
  sent = [];
}

abbrev history : List Event
history =
    Event.say (Data.prevote (some 3))
    ∷ Event.become machine
    ∷ Event.say (Data.prevote none)
    ∷ Event.say (Data.precommit none)
    ∷ []

run-AreDistinct_example : AreDistinct (run machine history)
run-AreDistinct_example = run-AreDistinct history machine

abbrev network : Network
network = record {
  latency = latency;
  weights = alone;
  id_of = λ b. b + 10;
  validate = λ _. Validity.valid;
  verify_commit = λ who time id signature. signature == time + id;
  sign_commit = λ time id. time + id;
}

abbrev proposes : Option ℕ → ℕ → SignedMessage
proposes vr n = record {
  msg = record { sender = 0; block = 1; round = n; content = Data.proposal vr 3 };
  sig = 5;
}

-- The time is the end of round 0.
abbrev precommits : SignedMessage
precommits = record {
  msg = record {
    sender = 0;
    block = 1;
    round = 0;
    content = Data.precommit (some (record { id = 13; signature = 113 }));
  };
  sig = 6;
}

abbrev state_at : ℕ → Step → MessageLog → TendermintMachine
state_at n st l = record {
  block = record machine { round = some (record (new_round_data n begun) { step = st }) };
  log = l;
  slashes = [];
  slashed = [];
  queue = [];
}

abbrev proposal_log : Option ℕ → ℕ → MessageLog
proposal_log vr n = (n, (0, (Step.propose, proposes vr n) ∷ []) ∷ []) ∷ []

abbrev before : TendermintMachine
before = state_at 0 Step.prevote (proposal_log none 0)

abbrev agreed : RoundLog
agreed = (0, (Step.propose, proposes none 0) ∷ (Step.precommit, precommits) ∷ []) ∷ []

abbrev finished : TendermintMachine
finished = record before { log = (0, agreed) ∷ [] }

finished-IsDecided : IsDecided network 0 3 finished
unfolding has_consensus get message_instances threshold
finished-IsDecided = (proposes none 0, none, refl, refl, refl)

is_agreed : (r : RoundLog) → lookup 0 finished.log ≡ some r → agreed ≡ r
is_agreed r e = ground (arith, e)

finished-Distinct : (r : RoundLog) → lookup 0 finished.log ≡ some r → Distinct r
finished-Distinct r e = subst Distinct (is_agreed r e) (refl, tt)

finished-AreConsistent :
    (a b : RoundLog)
    → lookup 0 finished.log ≡ some a
    → lookup 0 finished.log ≡ some b
    → AreConsistent [] Step.precommit a b
finished-AreConsistent a b e f who ms ns m n _ ea eb em en =
    subst (λ x. data_beq m.msg.content x.msg.content ≡ true) m_is_n (data_beq_refl m.msg.content)
  where
    a_is_b : a ≡ b
    a_is_b = sym (is_agreed a e) ∙ is_agreed b f

    m_is_n : m ≡ n
    m_is_n = ground (arith, ea, eb, em, en, a_is_b)

finished-AreFair : AreFair [] 0 finished finished
finished-AreFair = record {
  distinct_faulty = tt;
  distinct_first = finished-Distinct;
  distinct_second = finished-Distinct;
  consistent = finished-AreConsistent;
}

abbrev waiting : TendermintMachine
waiting = state_at 0 Step.propose []

abbrev voted_machine : TendermintMachine
voted_machine = (handle network (proposes none 0) waiting).1

abbrev anyone : SignedMessage → Bool
anyone _ = true

abbrev no_commit : ℕ → Option ℕ
no_commit _ = none

votes-IsKeyed : IsKeyed anyone 1 votes
unfolding get
votes-IsKeyed n v st m e = ground (arith, e)

abbrev unheard : TendermintMachine
unheard = state_at 2 Step.propose []

handle-IsDecided_example : IsDecided network precommits.msg.round 3 finished
unfolding handle admit finalizer get has_consensus message_instances threshold log
    verify_precommit_signature
handle-IsDecided_example = handle-IsDecided network precommits before finished 3 refl

handle-Sends_example : Sends network waiting.queue waiting.block.locked voted_machine
unfolding handle admit finalizer get has_consensus message_instances threshold log
    verify_precommit_signature progress act tally_prevotes tally_precommits on_proposal vote cast
    broadcast has_participation message send fault_threshold
handle-Sends_example = handle-Sends network (proposes none 0) waiting voted_machine none refl

decisions_agree_example : network.id_of 3 ≡ network.id_of 3
unfolding fault_threshold threshold
decisions_agree_example =
    decisions_agree network [] 0 3 3 finished finished alone-IsWeighing finished-AreFair
      (omega arith) finished-IsDecided finished-IsDecided

log-verify_evidence_example :
    (ev : Evidence) × ((malicious 0 (some (conflicting_messages (vote_for 3) (vote_for 4))))
      ≡ malicious (vote_for 4).msg.sender (some ev))
    × (verify_evidence network anyone no_commit ev ≡ ok tt)
unfolding log
log-verify_evidence_example =
    log-verify_evidence network anyone no_commit (vote_for 4) votes
      (malicious 0 (some (conflicting_messages (vote_for 3) (vote_for 4)))) votes-IsKeyed refl refl

handle-panics_example :
    (handle network (claims network unheard (new_round_data 2 begun).number 5 1 3) unheard).0
    ≡ panic
handle-panics_example =
    handle-panics network unheard (new_round_data 2 begun) 5 1 3 refl refl refl (omega arith) refl

handle-blames_example :
    let p = claims network unheard (new_round_data 2 begun).number 5 2 3 in
    let m = says unheard 1 (new_round_data 2 begun).number 6 (Data.prevote none) in
    let first = Evidence.invalid_valid_round p in
    let second = Evidence.invalid_valid_round m in
    ((handle network p unheard).0 ≡ err (malicious p.msg.sender (some first)))
    × (verify_evidence network anyone no_commit first ≡ ok tt)
    × ((handle network m (handle network p unheard).1).0 ≡ err (malicious 1 (some second)))
    × (verify_evidence network anyone no_commit second ≡ err TendermintError.invalid_evidence)
handle-blames_example =
    handle-blames network anyone no_commit unheard (new_round_data 2 begun) 5 2 3 1 6 none refl refl
      refl (omega arith) refl (λ e. ground (arith, e))
