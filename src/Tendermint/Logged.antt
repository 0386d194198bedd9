-- ===== src/Tendermint/Logged.antt =====
-- What `log` does to the log.
use serai.Common.{
  ℕ, ◌≡◌, ◌≢◌, refl, ◌∙◌, true, false, ◌&&◌, Option, none, some, arith, lookup, insert, nat_eq,
  lookup-insert, Option-cases, Bool-cases, inl, inr, ◌⊎◌, ok, err, if◌then◌else◌, ◌==◌, ==_iff,
}
use serai.Tendermint.Types.{
  Step, step_of, data_beq, step_eq, step_beq_iff, SignedMessage, MessageLog, Messages, malicious,
  conflicting_messages,
}
use serai.Tendermint.Log.{log, log_over, get, put_messages, messages_of, round_of}

get-eq-lookup :
    (n v : ℕ) (st : Step) (l : MessageLog) → get n v st l ≡ lookup st (messages_of n v l)
unfolding get
get-eq-lookup n v st l = ground arith

messages_of-put :
    (r s n v : ℕ) (ms : Messages) (l : MessageLog)
    → messages_of n v (put_messages r s ms l) ≡ (if r == n && s == v then ms else messages_of n v l)
messages_of-put r s n v ms l = ground (
  arith,
  ==_iff r n,
  lookup-insert r n (insert s ms (round_of r l)) l,
  lookup-insert s v ms (round_of r l),
)

abbrev stored : SignedMessage → Option SignedMessage → Messages → Messages
stored m none ms = insert (step_of m.msg.content) m ms
stored m (some old) ms = ms

log_over-stored :
    (m : SignedMessage) (o : Option SignedMessage) (ms : Messages) (l : MessageLog)
    → (log_over m o ms l).1 ≡ put_messages m.msg.round m.msg.sender (stored m o ms) l
unfolding log_over
log_over-stored m none ms l = refl
log_over-stored m (some old) ms l = refl

abbrev sender_messages : SignedMessage → MessageLog → Messages
sender_messages m l = messages_of m.msg.round m.msg.sender l

abbrev slot : SignedMessage → MessageLog → Option SignedMessage
slot m l = lookup (step_of m.msg.content) (sender_messages m l)

-- Every entry of the log after `log`.
get-log :
    (m : SignedMessage) (l : MessageLog) (n v : ℕ) (st : Step)
    → get n v st (log m l).1 ≡ (
        if m.msg.round == n && m.msg.sender == v
        then lookup st (stored m (slot m l) (sender_messages m l))
        else get n v st l)
unfolding log
get-log m l n v st =
    let ms = stored m (slot m l) (sender_messages m l) in
    rw
      (
        log_over-stored m (slot m l) (sender_messages m l) l,
        get-eq-lookup n v st (put_messages m.msg.round m.msg.sender ms l),
        messages_of-put m.msg.round m.msg.sender n v ms l,
        get-eq-lookup n v st l,
      )
      (ground arith)

log-free : (m : SignedMessage) (l : MessageLog) → slot m l ≡ none → (log m l).0 ≡ ok true
unfolding log log_over
log-free m l e = rw (e, log_over)

log-filled :
    (m old : SignedMessage) (l : MessageLog)
    → slot m l ≡ some old
    → (log m l).0 ≡ (
        if data_beq old.msg.content m.msg.content
        then ok false
        else err (malicious m.msg.sender (some (conflicting_messages old m))))
unfolding log log_over
log-filled m old l e = rw (e, log_over)

-- The message's own entry after `log`.
get-log_self :
    (m : SignedMessage) (l : MessageLog)
    → get m.msg.round m.msg.sender (step_of m.msg.content) (log m l).1
      ≡ lookup (step_of m.msg.content) (stored m (slot m l) (sender_messages m l))
get-log_self m l = rw (get-log m l m.msg.round m.msg.sender (step_of m.msg.content)) (ground arith)

stored-free :
    (m : SignedMessage) (ms : Messages) → lookup (step_of m.msg.content) (stored m none ms) ≡ some m
stored-free m ms = ground (
  arith,
  lookup-insert (step_of m.msg.content) (step_of m.msg.content) m ms,
  step_beq_iff (step_of m.msg.content) (step_of m.msg.content),
)

-- A message for a step that its sender has not filled is logged as new. One for a filled step is
-- disregarded if its contents are those logged, and otherwise refused as malicious, with both
-- messages as the evidence; either way the one logged first stays.
pub log_cases :
    (m : SignedMessage) (l : MessageLog)
    → let (r, l') = log m l in
      let slot = get m.msg.round m.msg.sender (step_of m.msg.content) in
      ((slot l ≡ none) × (r ≡ ok true) × (slot l' ≡ some m))
      ⊎ ((old : SignedMessage) × (slot l ≡ some old)
          × (slot l' ≡ some old)
          × (((data_beq old.msg.content m.msg.content ≡ true) × (r ≡ ok false))
              ⊎ ((data_beq old.msg.content m.msg.content ≡ false)
                  × (r ≡ err (malicious m.msg.sender (some (conflicting_messages old m)))))))
log_cases m l =
    let st = step_of m.msg.content in
    let before = get-eq-lookup m.msg.round m.msg.sender st l in
    elim (Option-cases (slot m l)) [
      | inl free ↦ inl (
        before ∙ free,
        log-free m l free,
        rw (get-log_self m l, free) (stored-free m (sender_messages m l)),
      )
      | inr (old, filled) ↦ inr (
        old,
        before ∙ filled,
        rw (get-log_self m l, filled) filled,
        elim (Bool-cases (data_beq old.msg.content m.msg.content)) [
          | inl same ↦ inl (same, log-filled m old l filled ∙ rw same refl)
          | inr apart ↦ inr (apart, log-filled m old l filled ∙ rw apart refl)
        ],
      )
    ]

-- Logging a message leaves what was logged of every other sender, round or step.
log_others :
    (m : SignedMessage) (l : MessageLog) (n v : ℕ) (st : Step)
    → (n ≢ m.msg.round) ⊎ (v ≢ m.msg.sender) ⊎ (st ≢ step_of m.msg.content)
    → get n v st (log m l).1 ≡ get n v st l
log_others m l n v st other = ground (
  arith,
  get-log m l n v st,
  get-eq-lookup n v st l,
  lookup-insert (step_of m.msg.content) st m (sender_messages m l),
  step_beq_iff (step_of m.msg.content) st,
)
