-- ===== src/Tendermint/Voting/Handling.antt =====
-- coordinator/tributary/tendermint/src/lib.rs: `message` as a whole.
use serai.Common.{
  ℕ, ◌≡◌, refl, ◌∙◌, sym, subst, Bool, true, false, Option, none, some, arith, nat_eq,
  if◌then◌else◌, ok, Ensures, Ensures->>=, Ensures-inv, ◌>>=◌, ◌>>◌, pure, Option-cases, inl, inr,
  ◌>>◌,
}
use serai.Tendermint.Types.{Step, Message, SignedMessage, TendermintError, step_eq}
use serai.Tendermint.Log.{round_of}
use serai.Tendermint.Rounds.{set_timeout}
use serai.Tendermint.Machine.{
  Network, TendermintMachine, Handler, start_round, recheck, verify_precommit_signature,
}
use serai.Tendermint.Handler.{
  finalizer, resume, progress, jump, act, admit, handle, tally_prevotes, tally_precommits,
  on_proposal,
}
use serai.Tendermint.Voting.{IsAllowed, Sends, Keeps, then-Sends, Still, none-Sends}
use serai.Tendermint.Voting.Votes.{on_proposal-Sends}
use serai.Tendermint.Voting.Starting.{Starts, start_round-Starts, recheck-Still}

tally_precommits-still :
    (net : Network) (m : Message) (s : TendermintMachine)
    → Ensures
        (λ _ t. (t.queue ≡ s.queue) × (t.block.locked ≡ s.block.locked))
        (tally_precommits net m s)
unfolding tally_precommits
tally_precommits-still net m s = ground arith

-- Whether the tally of the prevotes ends the call, by sending a precommit for no block.
abbrev Tallied : Network → TendermintMachine → Bool → TendermintMachine → Type 0
Tallied net s true t = Sends net s.queue s.block.locked t
Tallied net s false t = Keeps s t

tally_prevotes-Tallied :
    (net : Network) (m : Message) (s : TendermintMachine)
    → Ensures (Tallied net s) (tally_prevotes net m s)
unfolding tally_prevotes
tally_prevotes-Tallied net m s = elim (Option-cases s.block.round) [
  | inl absent ↦ ground (arith, absent)
  | inr (r, known) ↦
      let s₁ : TendermintMachine = record s {
        block = record s.block { round = some (set_timeout net.latency Step.prevote r) };
      } in
      ground (arith, known, none-Sends net s, none-Sends net s₁)
]

act-Sends :
    (net : Network) (m : SignedMessage) (s : TendermintMachine)
    → Ensures (λ _ u. Sends net s.queue s.block.locked u) (act net m s)
unfolding act
act-Sends net m s =
    Ensures->>= (Tallied net s) (λ _ u. Sends net s.queue s.block.locked u)
      (tally_prevotes net m.msg)
      (λ done. if done then pure none else (tally_precommits net m.msg >> on_proposal net m)) s
      (tally_prevotes-Tallied net m.msg s) after
  where
    after :
        (done : Bool) (t : TendermintMachine)
        → Tallied net s done t
        → Ensures {E = TendermintError}
            (λ (_ : Option ℕ) u. Sends net s.queue s.block.locked u)
            ((if done then pure none else (tally_precommits net m.msg >> on_proposal net m)) t)
    after true t sent = sent
    after false t (_, l, q) =
        let rest : Handler (Option ℕ) = tally_precommits net m.msg >> on_proposal net m in
        subst (λ queue. Ensures (λ _ u. Sends net queue s.block.locked u) (rest t)) q
          (subst (λ old. Ensures (λ _ u. Sends net t.queue old u) (rest t)) l
            (then-Sends net (tally_precommits net m.msg) (λ _. on_proposal net m) t
              (tally_precommits-still net m.msg t) (λ _ u. on_proposal-Sends net m u)))

jump-Sends :
    (net : Network) (m : SignedMessage) (s : TendermintMachine)
    → Ensures (λ _ u. Sends net s.queue s.block.locked u) (jump net m s)
unfolding jump
jump-Sends net m s =
    Ensures->>= (Starts s.queue s.block.locked) (λ _ u. Sends net s.queue s.block.locked u)
      (start_round net m.msg.round none) after s (start_round-Starts net m.msg.round none s) goes
  where
    after : Bool → Handler (Option ℕ)
    after proposes t =
        (recheck net m.msg.round (round_of m.msg.round t.log) >>= λ _.
        if proposes then pure none else act net m)
          t

    goes :
        (proposes : Bool) (t : TendermintMachine)
        → Starts s.queue s.block.locked proposes t
        → Ensures (λ _ u. Sends net s.queue s.block.locked u) (after proposes t)
    goes true t (l, q) =
        Ensures->>= (λ _ u. Still t u) (λ _ u. Sends net s.queue s.block.locked u)
          (recheck net m.msg.round (round_of m.msg.round t.log)) (λ _. pure none) t
          (recheck-Still net m.msg.round (round_of m.msg.round t.log) t)
          (λ _ u (same, _). elim q [
            | inl kept ↦ inl (same ∙ kept)
            | inr (p, vr, b, more, c) ↦
                inr (p, same ∙ more, subst (IsAllowed net s.block.locked u) (sym c) tt)
          ])
    goes false t (l, q) =
        subst (λ queue. Ensures (λ _ u. Sends net queue s.block.locked u) (after false t)) q
          (subst (λ old. Ensures (λ _ u. Sends net t.queue old u) (after false t)) l
            (then-Sends net (recheck net m.msg.round (round_of m.msg.round t.log)) (λ _. act net m)
              t (recheck-Still net m.msg.round (round_of m.msg.round t.log) t)
              (λ _ u. act-Sends net m u)))

progress-Sends :
    (net : Network) (m : SignedMessage) (s : TendermintMachine)
    → Ensures (λ _ u. Sends net s.queue s.block.locked u) (progress net m s)
unfolding progress
progress-Sends net m s = ground (arith, jump-Sends net m s, act-Sends net m s)

admit-Still :
    (net : Network) (m : SignedMessage) (s : TendermintMachine)
    → Ensures (λ _ t. Still s t) (admit net m s)
unfolding admit verify_precommit_signature
admit-Still net m s = ground arith

finalizer-Still :
    (net : Network) (m : Message) (s : TendermintMachine)
    → Ensures (λ _ t. Still s t) (finalizer net m s)
unfolding finalizer
finalizer-Still net m s = ground arith

resume-Sends :
    (net : Network) (m : SignedMessage) (o : Option ℕ) (s : TendermintMachine)
    → Ensures (λ _ u. Sends net s.queue s.block.locked u) (resume net m o s)
resume-Sends net m none s = progress-Sends net m s
resume-Sends net m (some b) s = inl refl

-- A call of the handler that returns adds one message of our own at most. If this is a prevote for
-- a block, then the lock from before the call was open to it, or the prevotes of a round that is
-- not older than the lock have consensus on it; if it is a precommit for a block, then the prevotes
-- of a round have consensus on it, and the call leaves it locked in that round.
pub handle-Sends :
    (net : Network) (m : SignedMessage) (s s' : TendermintMachine) (o : Option ℕ)
    → handle net m s ≡ (ok o, s')
    → Sends net s.queue s.block.locked s'
unfolding handle
handle-Sends net m s s' o e =
    Ensures-inv (λ _ u. Sends net s.queue s.block.locked u) _ o s'
      (then-Sends net (admit net m) (λ _. finalizer net m.msg >>= resume net m) s
        (admit-Still net m s)
        (λ _ t.
          then-Sends net (finalizer net m.msg) (resume net m) t (finalizer-Still net m.msg t)
            (λ d u. resume-Sends net m d u)))
      e
