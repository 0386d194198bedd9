-- ===== src/Tendermint/Log.antt =====
-- coordinator/tributary/tendermint/src/message_log.rs.
use serai.Common.{
  ℕ, Bool, true, false, Option, none, some, [], lookup, insert, nat_eq, sum_of, if◌then◌else◌, leb,
  Outcome, Action, ok, err,
}
use serai.Tendermint.Types.{
  Step, Data, step_of, data_beq, SignedMessage, TendermintError, malicious, conflicting_messages,
  step_eq, Messages, RoundLog, MessageLog,
}
use serai.Tendermint.Weighing.{Weights, threshold}

-- `entry(k).or_insert_with(HashMap::new)`
abbrev messages_or_new : Option Messages → Messages
messages_or_new none = []
messages_or_new (some m) = m

abbrev round_or_new : Option RoundLog → RoundLog
round_or_new none = []
round_or_new (some m) = m

abbrev pub round_of : ℕ → MessageLog → RoundLog
round_of r l = round_or_new (lookup r l)

abbrev pub messages_of : ℕ → ℕ → MessageLog → Messages
messages_of r sender l = messages_or_new (lookup sender (round_of r l))

-- The log with the messages of one sender in one round put in place.
abbrev pub put_messages : ℕ → ℕ → Messages → MessageLog → MessageLog
put_messages r sender ms l = insert r (insert sender ms (round_of r l)) l

-- What the log does with a message whose step has been filled, or not.
unfoldable pub log_over :
    SignedMessage
    → Option SignedMessage
    → Messages
    → MessageLog
    → Outcome TendermintError Bool × MessageLog
log_over signed none ms l = (
  ok true,
  put_messages signed.msg.round signed.msg.sender (insert (step_of signed.msg.content) signed ms) l,
)
log_over signed (some existing) ms l = (
  if data_beq existing.msg.content signed.msg.content
      then ok false
      else err (malicious signed.msg.sender (some (conflicting_messages existing signed))),
  put_messages signed.msg.round signed.msg.sender ms l,
)

unfoldable pub log : SignedMessage → Action MessageLog TendermintError Bool
unfolding log_over
log signed l =
    let ms = messages_of signed.msg.round signed.msg.sender l in
    log_over signed (lookup (step_of signed.msg.content) ms) ms l

-- The weight of a participant, if it has sent a message in this step, and if that is this data. The
-- sums of these are not wrapped: distinct validators weigh at most the total, which is 64-bit.
abbrev sent_weight : Weights → ℕ → Option SignedMessage → ℕ
sent_weight w who none = 0
sent_weight w who (some m) = w.weight who

abbrev pub agreeing_weight : Weights → Data → ℕ → Option SignedMessage → ℕ
agreeing_weight w d who none = 0
agreeing_weight w d who (some m) = if data_beq d m.msg.content then w.weight who else 0

abbrev participating : Weights → Step → RoundLog → ℕ
participating w st = sum_of (λ e. sent_weight w e.0 (lookup st e.1))

abbrev pub agreeing : Weights → Data → RoundLog → ℕ
agreeing w d = sum_of (λ e. agreeing_weight w d e.0 (lookup (step_of d) e.1))

-- `self.log[&round]` panics where the round has no entry.
unfoldable pub message_instances : Weights → ℕ → Data → MessageLog → Option (ℕ × ℕ)
message_instances w r d l = elim (lookup r l) [
  | none ↦ none
  | some round ↦ some (participating w (step_of d) round, agreeing w d round)
]

unfoldable pub round_participation : Weights → ℕ → MessageLog → ℕ
round_participation w r l = sum_of (λ e. w.weight e.0) (round_of r l)

unfoldable pub has_participation : Weights → ℕ → Step → MessageLog → Option Bool
has_participation w r st l = elim (lookup r l) [
  | none ↦ none
  | some round ↦ some (leb (threshold w) (participating w st round))
]

unfoldable pub has_consensus : Weights → ℕ → Data → MessageLog → Option Bool
unfolding message_instances
has_consensus w r d l = elim (message_instances w r d l) [
  | none ↦ none
  | some (_, weight) ↦ some (leb (threshold w) weight)
]

unfoldable pub get : ℕ → ℕ → Step → MessageLog → Option SignedMessage
get r sender st l = elim (lookup r l) [
  | none ↦ none
  | some round ↦ elim (lookup sender round) [ none ↦ none | some ms ↦ lookup st ms ]
]
