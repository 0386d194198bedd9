-- ===== src/Tendermint/Evidence.antt =====
-- coordinator/tributary/tendermint/src/lib.rs: `verify_tendermint_evience`, by which a validator that
-- did not see the fault itself decides on a slash.
use serai.Common.{
  ℕ, zero, suc, ◌+◌, ◌-◌, ◌≡◌, refl, Bool, true, false, not, ◌&&◌, ◌||◌, Option, none, some, arith,
  nat_eq, ltb, ◌==◌, ==_iff, if◌then◌else◌, Outcome, ok, err, panic, beq, inl, inr,
}
use serai.Tendermint.Types.{
  Step, Data, Precommitted, step_of, data_beq, Message, SignedMessage, Evidence, TendermintError,
  step_eq, step_beq_iff, MessageLog, malicious, conflicting_messages,
}
use serai.Tendermint.Log.{log, get}
use serai.Tendermint.Logged.{log_cases}
use serai.Tendermint.Rounds.{CanonicalInstant, new_round_data, end_time}
use serai.Tendermint.Machine.{Network}

abbrev Verdict : Type 0
Verdict = Outcome TendermintError (Unit {0})

abbrev refuse : Verdict
refuse = err TendermintError.invalid_evidence

abbrev accept_if : Bool → Verdict
accept_if true = ok tt
accept_if false = refuse

-- The derived equality of messages.
abbrev message_beq : Message → Message → Bool
message_beq a b =
    a.sender == b.sender && a.block == b.block && a.round == b.round && data_beq a.content b.content

-- When round `r + count` ends, if round `r` starts at `t`.
unfoldable end_after : Network → ℕ → ℕ → CanonicalInstant → CanonicalInstant
unfolding end_time
end_after net zero r t = end_time net.latency (new_round_data r t)
end_after net (suc count) r t =
    end_after net count (r + 1) (end_time net.latency (new_round_data r t))

-- A commit's end time comes as seconds.
abbrev commit_instant : ℕ → CanonicalInstant
commit_instant t = record { time = t; instant = t }

abbrev check_precommit : Network → Message → Precommitted → Option ℕ → Verdict
check_precommit net m p none = refuse
check_precommit net m p (some t) = accept_if (
    not (
      net.verify_commit m.sender (end_after net m.round 0 (commit_instant t)).time p.id
        p.signature))

-- A precommit of the first block is not handled: `todo!`.
abbrev check_invalid_precommit : Network → (ℕ → Option ℕ) → Message → Data → Verdict
check_invalid_precommit net commit m (Data.precommit (some p)) =
    if m.block == 0 then panic else check_precommit net m p (commit (m.block - 1))
check_invalid_precommit net commit m (Data.precommit none) = refuse
check_invalid_precommit net commit m (Data.prevote _) = refuse
check_invalid_precommit net commit m (Data.proposal _ _) = refuse

abbrev check_valid_round : Message → Data → Verdict
check_valid_round m (Data.proposal (some vr) b) = accept_if (not (ltb vr m.round))
check_valid_round m (Data.proposal none b) = refuse
check_valid_round m (Data.prevote _) = refuse
check_valid_round m (Data.precommit _) = refuse

abbrev are_conflicting : Message → Message → Bool
are_conflicting a b =
    not (message_beq a b || not (a.sender == b.sender) || not (a.block == b.block))
    && (a.round == b.round && beq (step_of a.content) (step_of b.content))

-- `is_signed` checks the signature of a message, and `commit` gives the end time of the commit of a
-- block, if it is known.
unfoldable pub verify_evidence :
    Network → (SignedMessage → Bool) → (ℕ → Option ℕ) → Evidence → Verdict
unfolding end_after
verify_evidence net is_signed commit (Evidence.conflicting_messages a b) =
    if is_signed a && is_signed b then accept_if (are_conflicting a.msg b.msg) else refuse
verify_evidence net is_signed commit (Evidence.invalid_precommit m) =
    if is_signed m then check_invalid_precommit net commit m.msg m.msg.content else refuse
verify_evidence net is_signed commit (Evidence.invalid_valid_round m) =
    if is_signed m then check_valid_round m.msg m.msg.content else refuse

-- Each message is logged under its round, its sender and its step, is of this block, and is signed.
abbrev pub IsKeyed : (SignedMessage → Bool) → ℕ → MessageLog → Type 0
IsKeyed is_signed block l =
    (n v : ℕ) (st : Step) (m : SignedMessage)
    → get n v st l ≡ some m
    → (m.msg.round ≡ n)
      × (m.msg.sender ≡ v)
      × (step_of m.msg.content ≡ st)
      × (m.msg.block ≡ block)
      × (is_signed m ≡ true)

are_conflicting_lem :
    (a b : Message)
    → a.round ≡ b.round
    → a.sender ≡ b.sender
    → step_of a.content ≡ step_of b.content
    → a.block ≡ b.block
    → data_beq a.content b.content ≡ false
    → are_conflicting a b ≡ true
are_conflicting_lem a b n v st k apart = ground (
  arith,
  apart,
  ==_iff a.round b.round,
  ==_iff a.sender b.sender,
  ==_iff a.block b.block,
  (step_beq_iff (step_of a.content) (step_of b.content)).1 st,
)

-- In a log that is keyed so, if a signed message of the block is refused, then it is with evidence
-- against its sender that every validator accepts.
pub log-verify_evidence :
    (net : Network) (is_signed : SignedMessage → Bool) (commit : ℕ → Option ℕ) (m : SignedMessage)
    (l : MessageLog) (e : TendermintError)
    → IsKeyed is_signed m.msg.block l
    → is_signed m ≡ true
    → (log m l).0 ≡ err e
    → (ev : Evidence) × (e ≡ malicious m.msg.sender (some ev))
      × (verify_evidence net is_signed commit ev ≡ ok tt)
unfolding verify_evidence
log-verify_evidence net is_signed commit m l e keyed signed refused = elim (log_cases m l) [
  | inl (_, r, _) ↦ absurd (ground (arith, r, refused))
  | inr (old, found, _, inl (_, r)) ↦ absurd (ground (arith, r, refused))
  | inr (old, found, _, inr (apart, r)) ↦
      let (n, v, st, k, signed') =
        keyed m.msg.round m.msg.sender (step_of m.msg.content) old found in
      let conflict : are_conflicting old.msg m.msg ≡ true =
        are_conflicting_lem old.msg m.msg n v st k apart in
      (conflicting_messages old m, ground (arith, r, refused), rw (signed, signed', conflict) refl)
]
