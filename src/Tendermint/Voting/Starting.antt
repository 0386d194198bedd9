-- ===== src/Tendermint/Voting/Starting.antt =====
-- coordinator/tributary/tendermint/src/lib.rs: what the start of a round adds to the queue, and the check of what was logged of
-- the round before.
use serai.Common.{
  ℕ, ◌≡◌, ◌⊎◌, refl, ◌∙◌, subst, Bool, true, false, Option, none, some, List, [], ◌∷◌, ◌++◌, arith,
  lookup, nat_eq, Outcome, ok, err, panic, Ensures, Ensures->>=, Ensures-inv, Ensures-intro, pure,
  inl, inr,
}
use serai.Tendermint.Types.{Step, Data, Message, SignedMessage, TendermintError, RoundLog, step_eq}
use serai.Tendermint.Rounds.{
  BlockData, proposed, new_round, populate_end_time, Latency, CanonicalInstant,
}
use serai.Tendermint.Machine.{
  Network, TendermintMachine, broadcast, start_round, recheck, offer, recheck_message,
  recheck_logged, slash,
}
use serai.Tendermint.Voting.{Says, broadcast-Says, Still}

-- Whether the start of a round proposes: then it adds a proposal at most.
abbrev pub Starts : List Message → Option (ℕ × ℕ) → Bool → TendermintMachine → Type 0
Starts queue old true t =
    (t.block.locked ≡ old)
    × ((t.queue ≡ queue)
        ⊎ ((m : Message) × (vr : Option ℕ) × (b : ℕ) × (t.queue ≡ queue ++ m ∷ [])
            × (m.content ≡ Data.proposal vr b)))
Starts queue old false t = (t.block.locked ≡ old) × (t.queue ≡ queue)

abbrev IsOffer : Option Data → Type 0
IsOffer none = Unit
IsOffer (some d) = (vr : Option ℕ) × (b : ℕ) × (d ≡ Data.proposal vr b)

proposed-IsOffer : (v : Option (ℕ × ℕ)) (own : Option ℕ) → IsOffer (proposed v own)
proposed-IsOffer (some (r, b)) own = (some r, b, refl)
proposed-IsOffer none none = tt
proposed-IsOffer none (some b) = (none, b, refl)

new_round-IsOffer :
    (c : Latency) (n proposer : ℕ) (time : Option CanonicalInstant) (b : BlockData)
    → Ensures (λ o t. (t.locked ≡ b.locked) × IsOffer o) (new_round c n proposer time b)
unfolding new_round populate_end_time
new_round-IsOffer c n proposer time b = ground (arith, proposed-IsOffer b.valid b.proposal)

offer-Starts :
    (s : TendermintMachine) (o : Option Data)
    → IsOffer o
    → Ensures (Starts s.queue s.block.locked) (offer o s)
offer-Starts s none h = (refl, refl)
offer-Starts s (some d) (vr, b, is_proposal) =
    Ensures->>= (λ _ t. Says d s t) (Starts s.queue s.block.locked) (broadcast d) (λ _. pure true) s
      (broadcast-Says d s) (λ _ t (_, k, q). (k, offered t q))
  where
    offered :
        (t : TendermintMachine)
        → (t.queue ≡ s.queue) ⊎ ((m : Message) × (t.queue ≡ s.queue ++ m ∷ []) × (m.content ≡ d))
        → (t.queue ≡ s.queue)
          ⊎ ((m : Message) × (vr : Option ℕ) × (b : ℕ) × (t.queue ≡ s.queue ++ m ∷ [])
              × (m.content ≡ Data.proposal vr b))
    offered t (inl same) = inl same
    offered t (inr (m, more, c)) = inr (m, vr, b, more, c ∙ is_proposal)

pub start_round-Starts :
    (net : Network) (n : ℕ) (time : Option CanonicalInstant) (s : TendermintMachine)
    → Ensures (Starts s.queue s.block.locked) (start_round net n time s)
unfolding start_round
start_round-Starts net n time s =
    started (new_round net.latency n (net.weights.proposer s.block.number n) time s.block)
      (new_round-IsOffer net.latency n (net.weights.proposer s.block.number n) time s.block)
  where
    started :
        (r : Outcome TendermintError (Option Data) × BlockData)
        → Ensures (λ o b. (b.locked ≡ s.block.locked) × IsOffer o) r
        → Ensures {E = TendermintError} (Starts s.queue s.block.locked) (elim r.0 [
          | ok o ↦ offer o (record s { block = r.1 })
          | err e ↦ (err e, record s { block = r.1 })
          | panic ↦ (panic, record s { block = r.1 })
        ])
    started (ok o, b) (same, is_offer) =
        subst (λ old. Ensures (Starts s.queue old) (offer o (record s { block = b }))) same
          (offer-Starts (record s { block = b }) o is_offer)
    started (err e, b) h = tt
    started (panic, b) h = tt

recheck_logged-Still :
    (net : Network) (n who : ℕ) (o : Option SignedMessage) (s : TendermintMachine)
    → Ensures (λ _ t. Still s t) (recheck_logged net n who o s)
unfolding recheck_message slash
recheck_logged-Still net n who none s = (refl, refl)
recheck_logged-Still net n who (some m) s = ground arith

pub recheck-Still :
    (net : Network) (n : ℕ) (r : RoundLog) (s : TendermintMachine)
    → Ensures (λ _ t. Still s t) (recheck net n r s)
unfolding recheck
recheck-Still net n [] s = (refl, refl)
recheck-Still net n ((who, ms) ∷ more) s =
    Ensures->>= (λ _ t. Still s t) (λ _ t. Still s t)
      (recheck_logged net n who (lookup Step.precommit ms)) (λ _. recheck net n more) s
      (recheck_logged-Still net n who (lookup Step.precommit ms) s)
      (λ _ t (q, l).
        Ensures-intro (λ _ u. Still s u) (recheck net n more t)
          (λ _ u e.
            let (q', l') = Ensures-inv (λ _ u. Still t u) _ tt u (recheck-Still net n more t) e in
            (q' ∙ q, l' ∙ l)))
