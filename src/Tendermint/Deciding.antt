-- ===== src/Tendermint/Deciding.antt =====
-- coordinator/tributary/tendermint/src/lib.rs: what a block has when `message` returns it.
use serai.Common.{
  ℕ, ◌≡◌, refl, sym, Bool, true, false, Option, none, some, arith, nat_eq, leb, if◌then◌else◌, ok,
  Ensures, Ensures->>=, Ensures-inv, Ensures-intro, ◌>>=◌, ◌>>◌, pure, Bool-cases, Option-cases,
  inl, inr, subst,
}
use serai.Tendermint.Types.{Data, Message, SignedMessage}
use serai.Tendermint.Log.{has_consensus, round_of}
use serai.Tendermint.Machine.{Network, TendermintMachine, Handler, start_round, recheck}
use serai.Tendermint.Handler.{
  finalizer, decide, decide_proposed, proposal_of, precommit_for, resume, progress, jump, act,
  admit, handle, cast, first_vote, later_vote, tally_prevotes, tally_precommits, on_proposal,
  on_proposed, on_logged, vote, lock,
}

-- The block `b` is proposed by the proposer of round `n`, and precommitted to with consensus there.
abbrev pub IsDecided : Network → ℕ → ℕ → TendermintMachine → Type 0
IsDecided net n b s =
    (p : SignedMessage) × (vr : Option ℕ) × (proposal_of net n s ≡ some p)
    × (p.msg.content ≡ Data.proposal vr b)
    × (has_consensus net.weights n (precommit_for (net.id_of b)) s.log ≡ some true)

-- The result of a handler is a decision that holds of the state it leaves.
abbrev Decides : Network → ℕ → Option ℕ → TendermintMachine → Type 0
Decides net n none s = Unit
Decides net n (some b) s = IsDecided net n b s

abbrev Nothing : Option ℕ → TendermintMachine → Type 0
Nothing o s = o ≡ none

-- What follows from nothing.
abbrev Anything : {A : Type 0} → A → TendermintMachine → Type 0
Anything a s = Unit {0}

anything : {A : Type 0} (m : Handler A) (s : TendermintMachine) → Ensures Anything (m s)
anything m s = Ensures-intro Anything (m s) (λ _ _ _. tt)

then_Nothing :
    {A : Type 0} (m : Handler A) (k : A → Handler (Option ℕ)) (s : TendermintMachine)
    → ((a : A) (t : TendermintMachine) → Ensures Nothing (k a t))
    → Ensures Nothing ((m >>= k) s)
then_Nothing m k s h = Ensures->>= Anything Nothing m k s (anything m s) (λ a t _. h a t)

cast-Nothing :
    (net : Network) (p b : ℕ) (v : Option ℕ) (s : TendermintMachine)
    → Ensures Nothing (cast net p b v s)
unfolding cast
cast-Nothing net p b v s = ground arith

vote-Nothing :
    (net : Network) (m : SignedMessage) (p : ℕ) (vr : Option ℕ) (b : ℕ) (s : TendermintMachine)
    → Ensures Nothing (vote net m p vr b s)
unfolding vote
vote-Nothing net m p none b s = cast-Nothing net p b (first_vote net b s.block.locked) s
vote-Nothing net m p (some vr) b s =
    ground (arith, cast-Nothing net p b (later_vote net b vr s.block.locked) s)

lock-Nothing : (net : Network) (p b : ℕ) (s : TendermintMachine) → Ensures Nothing (lock net p b s)
unfolding lock
lock-Nothing net p b s = ground arith

on_proposed-Nothing :
    (net : Network) (m : SignedMessage) (p : ℕ) (d : Data) (s : TendermintMachine)
    → Ensures Nothing (on_proposed net m p d s)
on_proposed-Nothing net m p (Data.proposal vr b) s =
    ground (arith, vote-Nothing net m p vr b s, lock-Nothing net p b s)
on_proposed-Nothing net m p (Data.prevote _) s = tt
on_proposed-Nothing net m p (Data.precommit _) s = tt

on_logged-Nothing :
    (net : Network) (m : SignedMessage) (p : ℕ) (o : Option SignedMessage) (s : TendermintMachine)
    → Ensures Nothing (on_logged net m p o s)
on_logged-Nothing net m p none s = refl
on_logged-Nothing net m p (some q) s = on_proposed-Nothing net m p q.msg.content s

on_proposal-Nothing :
    (net : Network) (m : SignedMessage) (s : TendermintMachine)
    → Ensures Nothing (on_proposal net m s)
unfolding on_proposal
on_proposal-Nothing net m s = elim (Option-cases s.block.round) [
  | inl absent ↦ ground (arith, absent)
  | inr (r, there) ↦
      let number = s.block.number in
      ground (
        arith,
        there,
        on_logged-Nothing net m (net.weights.proposer number r.number) (proposal_of net r.number s)
            s,
      )
]

act-Nothing :
    (net : Network) (m : SignedMessage) (s : TendermintMachine) → Ensures Nothing (act net m s)
unfolding act
act-Nothing net m s = then_Nothing (tally_prevotes net m.msg) _ s (λ done t. after done t)
  where
    after :
        (done : Bool) (t : TendermintMachine)
        → Ensures Nothing
            ((if done then pure none else (tally_precommits net m.msg >> on_proposal net m)) t)
    after true t = refl
    after false t =
        then_Nothing (tally_precommits net m.msg) _ t (λ _ u. on_proposal-Nothing net m u)

jump-Nothing :
    (net : Network) (m : SignedMessage) (s : TendermintMachine) → Ensures Nothing (jump net m s)
unfolding jump
jump-Nothing net m s = then_Nothing (start_round net m.msg.round none) _ s (λ proposes t.
    then_Nothing (recheck net m.msg.round (round_of m.msg.round t.log)) _ t
      (λ _ u. after proposes u))
  where
    after :
        (proposes : Bool) (u : TendermintMachine)
        → Ensures Nothing ((if proposes then pure none else act net m) u)
    after true u = refl
    after false u = act-Nothing net m u

progress-Nothing :
    (net : Network) (m : SignedMessage) (s : TendermintMachine) → Ensures Nothing (progress net m s)
unfolding progress
progress-Nothing net m s = ground (arith, jump-Nothing net m s, act-Nothing net m s)

decide-Decides :
    (net : Network) (n b : ℕ) (p : SignedMessage) (vr : Option ℕ) (s : TendermintMachine)
    → proposal_of net n s ≡ some p
    → p.msg.content ≡ Data.proposal vr b
    → Ensures (Decides net n) (decide net n b s)
decide-Decides net n b p vr s there holds =
    elim (Option-cases (has_consensus net.weights n (precommit_for (net.id_of b)) s.log)) [
      | inl absent ↦ ground (arith, absent)
      | inr (true, agreed) ↦ agreeing (p, vr, there, holds, agreed)
      | inr (false, missed) ↦ ground (arith, missed)
    ]
  where
    agreeing : IsDecided net n b s → Ensures (Decides net n) (decide net n b s)
    agreeing (q, wr, e, f, agreed) = elim (Option-cases s.block.round) [
      | inl absent ↦ ground (arith, absent, agreed)
      | inr (r, known) ↦ elim (Bool-cases (leb n r.number)) [
        | inl reached ↦
            let returns : decide net n b s ≡ (ok (some b), s) =
              ground (arith, agreed, known, reached) in
            subst (Ensures (Decides net n)) (sym returns) (q, wr, e, f, agreed)
        | inr ahead ↦ ground (arith, agreed, known, ahead)
      ]
    ]

decide_proposed-Decides :
    (net : Network) (n : ℕ) (p : SignedMessage) (d : Data) (s : TendermintMachine)
    → proposal_of net n s ≡ some p
    → p.msg.content ≡ d
    → Ensures (Decides net n) (decide_proposed net n d s)
decide_proposed-Decides net n p (Data.proposal vr b) s there holds =
    decide-Decides net n b p vr s there holds
decide_proposed-Decides net n p (Data.prevote _) s there holds = tt
decide_proposed-Decides net n p (Data.precommit _) s there holds = tt

finalizer-Decides :
    (net : Network) (m : Message) (s : TendermintMachine)
    → Ensures (Decides net m.round) (finalizer net m s)
unfolding finalizer
finalizer-Decides net m s = elim (Option-cases (proposal_of net m.round s)) [
  | inl absent ↦ ground (arith, absent)
  | inr (p, there) ↦
      ground (arith, there, decide_proposed-Decides net m.round p p.msg.content s there refl)
]

resume-Decides :
    (net : Network) (m : SignedMessage) (o : Option ℕ) (s : TendermintMachine)
    → Decides net m.msg.round o s
    → Ensures (Decides net m.msg.round) (resume net m o s)
resume-Decides net m (some b) s d = d
resume-Decides net m none s d = Ensures-intro (Decides net m.msg.round) (progress net m s) (λ a t e.
    subst (λ o. Decides net m.msg.round o t)
      (sym (Ensures-inv Nothing _ a t (progress-Nothing net m s) e)) tt)

-- A block that the handler returns for a message was proposed by the proposer of the message's
-- round, and the precommits for it in that round, in the log as the call leaves it, reach the
-- threshold.
pub handle-IsDecided :
    (net : Network) (m : SignedMessage) (s s' : TendermintMachine) (b : ℕ)
    → handle net m s ≡ (ok (some b), s')
    → IsDecided net m.msg.round b s'
unfolding handle
handle-IsDecided net m s s' b e =
    Ensures-inv (Decides net m.msg.round) _ (some b) s'
      (Ensures->>= Anything (Decides net m.msg.round) (admit net m) _ s (anything (admit net m) s)
        (λ _ t _.
          Ensures->>= (Decides net m.msg.round) (Decides net m.msg.round) (finalizer net m.msg) _ t
            (finalizer-Decides net m.msg t) (λ o u d. resume-Decides net m o u d)))
      e
