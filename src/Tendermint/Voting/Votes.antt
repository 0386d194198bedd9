-- ===== src/Tendermint/Voting/Votes.antt =====
-- coordinator/tributary/tendermint/src/lib.rs: the vote on a proposal and the lock on it, in `message`.
use serai.Common.{
  ℕ, ◌≡◌, refl, ◌∙◌, ap, Bool, true, false, Option, none, some, arith, lookup, nat_eq, leb, ◌==◌,
  Ensures, Ensures->>=, Ensures-inv, Ensures-intro, ◌>>◌, pure, Option-cases, inl, inr, leb→le,
  throw_if, ◌>>◌,
}
use serai.Tendermint.Types.{Data, SignedMessage, TendermintError, step_eq}
use serai.Tendermint.Log.{has_consensus}
use serai.Tendermint.Machine.{Network, TendermintMachine, broadcast}
use serai.Tendermint.Handler.{
  proposal_of, cast, first_vote, later_vote, on_proposal, on_proposed, on_logged, vote, lock,
  is_open, is_valid, is_fatal, only_if, or_else, lock_on,
}
use serai.Tendermint.Voting.{IsAllowed, Sends, Says, broadcast-Says, Says-Sends}

first_vote-IsAllowed :
    (net : Network) (b : ℕ) (old : Option (ℕ × ℕ)) (t : TendermintMachine)
    → IsAllowed net old t (Data.prevote (first_vote net b old))
first_vote-IsAllowed net b old t =
    chosen (is_open old (net.id_of b)) (is_valid (net.validate b)) refl
  where
    chosen :
        (open_to has_value : Bool)
        → is_open old (net.id_of b) ≡ open_to
        → IsAllowed net old t
            (Data.prevote (only_if open_to (only_if has_value (some (net.id_of b)))))
    chosen true true e = inl e
    chosen true false e = tt
    chosen false has_value e = tt

later_vote-IsAllowed :
    (net : Network) (b vr : ℕ) (old : Option (ℕ × ℕ)) (t : TendermintMachine)
    → has_consensus net.weights vr (Data.prevote (some (net.id_of b))) t.log ≡ some true
    → IsAllowed net old t (Data.prevote (later_vote net b vr old))
later_vote-IsAllowed net b vr none t agreed = first_vote-IsAllowed net b none t
later_vote-IsAllowed net b vr (some (r, id)) t agreed =
    chosen (id == net.id_of b) (is_valid (net.validate b)) (leb r vr) refl refl
  where
    chosen :
        (open_to has_value recent : Bool)
        → (id == net.id_of b) ≡ open_to
        → leb r vr ≡ recent
        → IsAllowed net (some (r, id)) t (
            Data.prevote (
              or_else
                (only_if open_to (only_if has_value (some (net.id_of b))))
                (only_if recent (only_if has_value (some (net.id_of b))))))
    chosen true true recent e f = inl e
    chosen true false true e f = tt
    chosen true false false e f = tt
    chosen false true true e f = inr (r, vr, id, refl, leb→le r vr f, agreed)
    chosen false true false e f = tt
    chosen false false true e f = tt
    chosen false false false e f = tt

cast-Sends :
    (net : Network) (p b : ℕ) (v : Option ℕ) (s : TendermintMachine) (old : Option (ℕ × ℕ))
    → ((t : TendermintMachine) → t.log ≡ s.log → IsAllowed net old t (Data.prevote v))
    → Ensures (λ _ t. Sends net s.queue old t) (cast net p b v s)
unfolding cast
cast-Sends net p b v s old allowed =
    Ensures->>= (λ _ t. Says (Data.prevote v) s t) (λ _ t. Sends net s.queue old t)
      (broadcast (Data.prevote v))
      (λ _. (throw_if (is_fatal (net.validate b)) (TendermintError.malicious p none) >> pure none))
      s (broadcast-Says (Data.prevote v) s)
      (λ _ t says.
        let sends = Says-Sends net (Data.prevote v) s t old says (allowed t says.0) in
        ground (arith, sends))

vote-Sends :
    (net : Network) (m : SignedMessage) (p : ℕ) (vr : Option ℕ) (b : ℕ) (s : TendermintMachine)
    → Ensures (λ _ t. Sends net s.queue s.block.locked t) (vote net m p vr b s)
unfolding vote
vote-Sends net m p none b s =
    cast-Sends net p b (first_vote net b s.block.locked) s s.block.locked
      (λ t _. first_vote-IsAllowed net b s.block.locked t)
vote-Sends net m p (some vr) b s =
    elim (Option-cases (has_consensus net.weights vr (Data.prevote (some (net.id_of b))) s.log)) [
      | inl absent ↦ ground (arith, absent)
      | inr (false, missed) ↦ ground (arith, missed)
      | inr (true, agreed) ↦
          let sends =
            cast-Sends net p b (later_vote net b vr s.block.locked) s s.block.locked (λ t same.
              later_vote-IsAllowed net b vr s.block.locked t (
                ap (has_consensus net.weights vr (Data.prevote (some (net.id_of b)))) same
                ∙ agreed)) in
          ground (arith, agreed, sends)
    ]

lock_on-Sends :
    (net : Network) (n b : ℕ) (s : TendermintMachine) (old : Option (ℕ × ℕ))
    → has_consensus net.weights n (Data.prevote (some (net.id_of b))) s.log ≡ some true
    → Ensures (λ _ t. Sends net s.queue old t) (lock_on net n b s)
lock_on-Sends net n b s old agreed = elim (Option-cases (lookup n s.block.end_times)) [
  | inl absent ↦ ground (arith, absent)
  | inr (time, known) ↦
      let d : Data =
        Data.precommit (
          some
            (record { id = net.id_of b; signature = net.sign_commit time.time (net.id_of b) })) in
      let s₁ : TendermintMachine = record s {
        block = record s.block { locked = some (n, net.id_of b) };
      } in
      let sent : Ensures (λ _ t. Sends net s.queue old t) (broadcast d s₁) =
        Ensures-intro (λ _ t. Sends net s.queue old t) (broadcast d s₁)
          (λ _ t e.
            let says = Ensures-inv (λ _ t. Says d s₁ t) _ tt t (broadcast-Says d s₁) e in
            Says-Sends net d s₁ t old says (
              n,
              says.1,
              ap (has_consensus net.weights n (Data.prevote (some (net.id_of b)))) says.0 ∙ agreed,
            )) in
      ground (arith, known, sent)
]

lock-Sends :
    (net : Network) (p b : ℕ) (s : TendermintMachine) (old : Option (ℕ × ℕ))
    → Ensures (λ _ t. Sends net s.queue old t) (lock net p b s)
unfolding lock
lock-Sends net p b s old = elim (Option-cases s.block.round) [
  | inl absent ↦ ground (arith, absent)
  | inr (r, known) ↦
      elim (Option-cases
        (has_consensus net.weights r.number (Data.prevote (some (net.id_of b))) s.log)) [
          | inl absent ↦ ground (arith, known, absent)
          | inr (false, missed) ↦ ground (arith, known, missed)
          | inr (true, agreed) ↦
              let s₁ : TendermintMachine = record s {
                block = record s.block { valid = some (r.number, b) };
              } in
              ground (arith, known, agreed, lock_on-Sends net r.number b s₁ old agreed)
        ]
]

on_logged-Sends :
    (net : Network) (m : SignedMessage) (p : ℕ) (o : Option SignedMessage) (s : TendermintMachine)
    → Ensures (λ _ t. Sends net s.queue s.block.locked t) (on_logged net m p o s)
on_logged-Sends net m p none s = inl refl
on_logged-Sends net m p (some q) s = on_proposed-Sends q.msg.content
  where
    on_proposed-Sends :
        (d : Data) → Ensures (λ _ t. Sends net s.queue s.block.locked t) (on_proposed net m p d s)
    on_proposed-Sends (Data.proposal vr b) =
        ground (arith, vote-Sends net m p vr b s, lock-Sends net p b s s.block.locked)
    on_proposed-Sends (Data.prevote _) = tt
    on_proposed-Sends (Data.precommit _) = tt

pub on_proposal-Sends :
    (net : Network) (m : SignedMessage) (s : TendermintMachine)
    → Ensures (λ _ t. Sends net s.queue s.block.locked t) (on_proposal net m s)
unfolding on_proposal
on_proposal-Sends net m s = elim (Option-cases s.block.round) [
  | inl absent ↦ ground (arith, absent)
  | inr (r, known) ↦
      let number = s.block.number in
      ground (
        arith,
        known,
        on_logged-Sends net m (net.weights.proposer number r.number) (proposal_of net r.number s) s,
      )
]
