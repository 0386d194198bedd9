-- ===== src/Tendermint/Types.antt =====
-- The messages of coordinator/tributary/tendermint/src/lib.rs. Blocks, identifiers, signatures and
-- validators are numbers, which the code compares.
use serai.Common.{
  ==_iff, ℕ, ◌≡◌, ◌↔◌, Bool, true, false, ◌&&◌, Option, none, some, arith, Eq, Map, ◌==◌,
}

pub data Step : Type 0 where
  propose prevote precommit : Step

pub record Precommitted : Type 0 where
  pub id : ℕ
  pub signature : ℕ

pub data Data : Type 0 where
  proposal : Option ℕ → ℕ → Data
  prevote : Option ℕ → Data
  precommit : Option Precommitted → Data

abbrev pub step_of : Data → Step
step_of (Data.proposal _ _) = Step.propose
step_of (Data.prevote _) = Step.prevote
step_of (Data.precommit _) = Step.precommit

abbrev option_beq : Option ℕ → Option ℕ → Bool
option_beq none none = true
option_beq (some a) (some b) = a == b
option_beq _ _ = false

-- `PartialEq for Data`: the signature of a precommit is disregarded.
abbrev pub data_beq : Data → Data → Bool
data_beq (Data.proposal r b) (Data.proposal r' b') = option_beq r r' && (b == b')
data_beq (Data.prevote id) (Data.prevote id') = option_beq id id'
data_beq (Data.precommit none) (Data.precommit none) = true
data_beq (Data.precommit (some p)) (Data.precommit (some p')) = p.id == p'.id
data_beq _ _ = false

pub record Message : Type 0 where
  pub sender : ℕ
  pub block : ℕ
  pub round : ℕ
  pub content : Data

pub record SignedMessage : Type 0 where
  pub msg : Message
  pub sig : ℕ

-- The evidence carries the messages, which the source encodes.
pub data Evidence : Type 0 where
  conflicting_messages : SignedMessage → SignedMessage → Evidence
  invalid_precommit : SignedMessage → Evidence
  invalid_valid_round : SignedMessage → Evidence

pub data TendermintError : Type 0 where
  malicious : ℕ → Option Evidence → TendermintError
  temporal already_handled invalid_evidence : TendermintError

abbrev step_index : Step → ℕ
step_index Step.propose = 0
step_index Step.prevote = 1
step_index Step.precommit = 2

abbrev step_beq : Step → Step → Bool
step_beq a b = step_index a == step_index b

pub step_beq_iff : (a b : Step) → (step_beq a b ≡ true) ↔ (a ≡ b)
step_beq_iff Step.propose b = ground arith
step_beq_iff _ b = ground arith

instance abbrev pub step_eq : Eq Step
step_eq = record { beq = step_beq; beq_iff = step_beq_iff }

-- `==` of the contents is an equivalence that keeps the step.
pub data_beq_trans :
    (a b c : Data) → data_beq a c ≡ true → data_beq b c ≡ true → data_beq a b ≡ true
data_beq_trans (Data.proposal r b) (Data.proposal r' b') (Data.proposal r'' b'') h k = ground arith
data_beq_trans (Data.prevote i) (Data.prevote i') (Data.prevote i'') h k = ground arith
data_beq_trans _ _ _ h k = ground arith

-- The messages of a validator by step, of a round by validator, and of all rounds.
abbrev pub Messages : Type 0
Messages = Map Step SignedMessage

abbrev pub RoundLog : Type 0
RoundLog = Map ℕ Messages

abbrev pub MessageLog : Type 0
MessageLog = Map ℕ RoundLog

pub data_beq_refl : (d : Data) → data_beq d d ≡ true
data_beq_refl (Data.proposal none b) = ground (arith, ==_iff b b)
data_beq_refl (Data.proposal (some r) b) = ground (arith, ==_iff b b, ==_iff r r)
data_beq_refl (Data.prevote none) = ground arith
data_beq_refl (Data.prevote (some i)) = ground (arith, ==_iff i i)
data_beq_refl (Data.precommit none) = ground arith
data_beq_refl (Data.precommit (some p)) = ground (arith, ==_iff p.id p.id)
