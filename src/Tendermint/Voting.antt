-- ===== src/Tendermint/Voting.antt =====
-- coordinator/tributary/tendermint/src/lib.rs: what a call of the machine adds to the queue of our own messages.
use serai.Common.{
  ℕ, ◌+◌, ◌≤◌, ◌<◌, ◌≡◌, ◌⊎◌, refl, ◌∙◌, sym, ap, subst, Bool, true, false, Option, none, some,
  List, [], ◌∷◌, ◌++◌, arith, lookup, nat_eq, ltb, leb, ◌==◌, beq, if◌then◌else◌, Outcome, ok, err,
  panic, Action, Ensures, Ensures->>=, Ensures-inv, Ensures-intro, ◌>>=◌, ◌>>◌, pure, Bool-cases,
  Option-cases, inl, inr, gets, leb→le, throw_if, ◌>>◌,
}
use serai.Tendermint.Types.{
  Step, Data, Precommitted, Message, SignedMessage, TendermintError, RoundLog, Messages, step_eq,
}
use serai.Tendermint.Log.{get, has_consensus, round_of}
use serai.Tendermint.Rounds.{
  RoundData, BlockData, message, send, set_timeout, proposed, new_round, populate_end_time, Latency,
  CanonicalInstant,
}
use serai.Tendermint.Machine.{
  Network, TendermintMachine, Handler, current, consensus, broadcast, start_round, recheck,
  on_block, enqueue, offer, recheck_message, recheck_logged, slash, drop_precommit,
  verify_precommit_signature,
}
use serai.Tendermint.Handler.{
  finalizer, proposal_of, resume, progress, jump, act, admit, handle, cast, first_vote, later_vote,
  tally_prevotes, tally_precommits, on_proposal, on_proposed, on_logged, vote, lock, is_open,
  is_valid, is_fatal, only_if, or_else, lock_on,
}
mod Votes
mod Starting
pub mod Handling

-- What a machine with the lock `old` may send, by the state in which the call ends: a prevote for a
-- block respects the lock, or there is consensus on it since; a precommit for a block has the
-- consensus of the prevotes in its round, and is locked.
abbrev pub IsAllowed : Network → Option (ℕ × ℕ) → TendermintMachine → Data → Type 0
IsAllowed net old s (Data.proposal _ _) = Unit
IsAllowed net old s (Data.prevote none) = Unit
IsAllowed net old s (Data.prevote (some id)) =
    (is_open old id ≡ true)
    ⊎ ((r : ℕ) × (vr : ℕ) × (locked : ℕ) × (old ≡ some (r, locked))
        × (r ≤ vr)
        × (has_consensus net.weights vr (Data.prevote (some id)) s.log ≡ some true))
IsAllowed net old s (Data.precommit none) = Unit
IsAllowed net old s (Data.precommit (some p)) =
    (n : ℕ) × (s.block.locked ≡ some (n, p.id))
    × (has_consensus net.weights n (Data.prevote (some p.id)) s.log ≡ some true)

-- From a queue and a lock, a call adds one allowed message at most.
abbrev pub Sends : Network → List Message → Option (ℕ × ℕ) → TendermintMachine → Type 0
Sends net queue old t =
    (t.queue ≡ queue)
    ⊎ ((m : Message) × (t.queue ≡ queue ++ m ∷ []) × IsAllowed net old t m.content)

abbrev Carries : Data → Option Message → Type 0
Carries d none = Unit
Carries d (some m) = m.content ≡ d

message-Carries :
    (d : Data) (b : BlockData) → Ensures (λ o t. (t.locked ≡ b.locked) × Carries d o) (message d b)
unfolding message send
message-Carries d b = ground arith

-- A broadcast leaves the log and the lock, and adds a message with its content at most.
abbrev pub Says : Data → TendermintMachine → TendermintMachine → Type 0
Says d s t =
    (t.log ≡ s.log)
    × (t.block.locked ≡ s.block.locked)
    × ((t.queue ≡ s.queue) ⊎ ((m : Message) × (t.queue ≡ s.queue ++ m ∷ []) × (m.content ≡ d)))

enqueue-Says :
    (d : Data) (s : TendermintMachine) (b : BlockData) (o : Option Message)
    → b.locked ≡ s.block.locked
    → Carries d o
    → Says d s (enqueue o (record s { block = b }))
enqueue-Says d s b none same c = (refl, same, inl refl)
enqueue-Says d s b (some m) same c = (refl, same, inr (m, refl, c))

pub broadcast-Says :
    (d : Data) (s : TendermintMachine) → Ensures (λ _ t. Says d s t) (broadcast d s)
unfolding broadcast
broadcast-Says d s = said (message d s.block) (message-Carries d s.block)
  where
    said :
        (r : Outcome TendermintError (Option Message) × BlockData)
        → Ensures (λ o b. (b.locked ≡ s.block.locked) × Carries d o) r
        → Ensures {E = TendermintError}
            (λ (_ : Unit {0}) t. Says d s t)
            (elim r.0 [
              | ok o ↦ (ok tt, enqueue o (record s { block = r.1 }))
              | err e ↦ (err e, record s { block = r.1 })
              | panic ↦ (panic, record s { block = r.1 })
            ])
    said (ok o, b) (same, c) = enqueue-Says d s b o same c
    said (err e, b) h = tt
    said (panic, b) h = tt

-- What is said is allowed, and so the call sends.
pub Says-Sends :
    (net : Network) (d : Data) (s t : TendermintMachine) (old : Option (ℕ × ℕ))
    → Says d s t
    → IsAllowed net old t d
    → Sends net s.queue old t
Says-Sends net d s t old (_, _, inl same) allowed = inl same
Says-Sends net d s t old (_, _, inr (m, more, content)) allowed =
    inr (m, more, subst (IsAllowed net old t) (sym content) allowed)

-- A call that leaves the log, the lock and the queue.
abbrev pub Keeps : TendermintMachine → TendermintMachine → Type 0
Keeps s t = (t.log ≡ s.log) × (t.block.locked ≡ s.block.locked) × (t.queue ≡ s.queue)

pub none-Sends :
    (net : Network) (s : TendermintMachine)
    → Ensures (λ _ t. Sends net s.queue s.block.locked t) (broadcast (Data.precommit none) s)
none-Sends net s =
    Ensures-intro (λ _ t. Sends net s.queue s.block.locked t) (broadcast (Data.precommit none) s)
      (λ _ t e.
        Says-Sends net (Data.precommit none) s t s.block.locked
          (Ensures-inv (λ _ t. Says (Data.precommit none) s t) _ tt t
            (broadcast-Says (Data.precommit none) s) e)
          tt)

-- After a call that keeps the queue and the lock, another sends as if it began before.
pub then-Sends :
    {A B : Type 0} (net : Network) (first : Handler A) (next : A → Handler B)
    (s : TendermintMachine)
    → Ensures (λ _ t. (t.queue ≡ s.queue) × (t.block.locked ≡ s.block.locked)) (first s)
    → ((a : A) (t : TendermintMachine)
        → Ensures (λ _ u. Sends net t.queue t.block.locked u) (next a t))
    → Ensures (λ _ u. Sends net s.queue s.block.locked u) ((first >>= next) s)
then-Sends net first next s kept sends =
    Ensures->>= (λ _ t. (t.queue ≡ s.queue) × (t.block.locked ≡ s.block.locked))
      (λ _ u. Sends net s.queue s.block.locked u) first next s kept
      (λ a t (q, l).
        Ensures-intro (λ _ u. Sends net s.queue s.block.locked u) (next a t)
          (λ b u e.
            let sent =
              Ensures-inv (λ _ u. Sends net t.queue t.block.locked u) _ b u (sends a t) e in
            subst (λ queue. Sends net queue s.block.locked u) q
              (subst (λ old. Sends net t.queue old u) l sent)))

abbrev pub Still : TendermintMachine → TendermintMachine → Type 0
Still s t = (t.queue ≡ s.queue) × (t.block.locked ≡ s.block.locked)
