-- ===== src/Tendermint/Sending.antt =====
-- Histories of a machine, over restarts, and the messages that it sends in them.
use serai.Common.{
  ℕ, ◌≡◌, ◌≢◌, true, false, Option, none, some, List, [], ◌∷◌, arith, insert, contains_key, nat_eq,
  pair_eq, contains_key-insert_self, contains_key-insert_mono, Bool-cases, Option-cases, inl, inr,
  All, ok, err, panic,
}
use serai.Tendermint.Types.{Step, Data, step_of, Message, step_eq}
use serai.Tendermint.Rounds.{BlockData, send, sender_of, message, key_of}

abbrev Key : Type 0
Key = (ℕ × ℕ) × Step

abbrev message_key : Message → Key
message_key m = ((m.block, m.round), step_of m.content)

-- What can happen to a machine: it is asked to send some data, or it moves on or is restarted with
-- any other fields; the database stays.
pub data Event : Type 0 where
  say : Data → Event
  become : BlockData → Event

abbrev said : Option Message → List Message → List Message
said none ms = ms
said (some m) ms = m ∷ ms

-- The message that a call of `message` returns, if any.
abbrev returned : Data → BlockData → Option Message
returned d b = elim (message d b).0 [ ok m ↦ m | err e ↦ none | panic ↦ none ]

-- The messages sent in a history.
pub run : BlockData → List Event → List Message
run b [] = []
run b (say d ∷ es) = said (returned d b) (run (message d b).1 es)
run b (become c ∷ es) = run (record c { sent = b.sent }) es

abbrev WasSent : Key → BlockData → Type 0
WasSent k b = contains_key k b.sent ≡ true

abbrev composed : ℕ → ℕ → Data → BlockData → Message
composed us n d b = record { sender = us; block = b.number; round = n; content = d }

send-old :
    (us n : ℕ) (d : Data) (b : BlockData) → WasSent (key_of n d b) b → send us n d b ≡ (none, b)
unfolding send
send-old us n d b h = ground (arith, h)

send-new :
    (us n : ℕ) (d : Data) (b : BlockData)
    → contains_key (key_of n d b) b.sent ≡ false
    → send us n d b
      ≡ (some (composed us n d b), record b { sent = insert (key_of n d b) tt b.sent })
unfolding send
send-new us n d b h = ground (arith, h)

-- A sent message was not in the database, and is afterwards; what was there stays.
send-fresh :
    (o : Option ℕ) (n : ℕ) (d : Data) (b : BlockData) (m : Message)
    → (sender_of o n d b).0 ≡ some m
    → (contains_key (message_key m) b.sent ≡ false) × WasSent (message_key m) (sender_of o n d b).1
send-fresh none n d b m e = cc
send-fresh (some us) n d b m e = elim (Bool-cases (contains_key (key_of n d b) b.sent)) [
  | inl old ↦ absurd (ground (arith, send-old us n d b old))
  | inr new ↦
      let is_m : composed us n d b ≡ m = ground (arith, send-new us n d b new) in
      rw (← is_m, send-new us n d b new) (new, contains_key-insert_self (key_of n d b) tt b.sent)
]

send-WasSent :
    (o : Option ℕ) (n : ℕ) (d : Data) (b : BlockData) (k : Key)
    → WasSent k b
    → WasSent k (sender_of o n d b).1
send-WasSent none n d b k h = h
send-WasSent (some us) n d b k h = elim (Bool-cases (contains_key (key_of n d b) b.sent)) [
  | inl old ↦ rw (send-old us n d b old) h
  | inr new ↦ rw (send-new us n d b new) (contains_key-insert_mono (key_of n d b) k tt b.sent h)
]

-- The same of `message`.
message-fresh :
    (d : Data) (b : BlockData) (m : Message)
    → returned d b ≡ some m
    → (contains_key (message_key m) b.sent ≡ false) × WasSent (message_key m) (message d b).1
unfolding message
message-fresh d b m e = elim (Option-cases b.round) [
  | inl no_round ↦ absurd (ground (arith, no_round))
  | inr (r, at_round) ↦
      let c : BlockData = record b { round = some (record r { step = step_of d }) } in
      let fresh = send-fresh b.validator_id r.number d c m in ground (arith, at_round, fresh)
]

message-WasSent : (d : Data) (b : BlockData) (k : Key) → WasSent k b → WasSent k (message d b).1
unfolding message
message-WasSent d b k h = elim (Option-cases b.round) [
  | inl no_round ↦ ground (arith, no_round)
  | inr (r, at_round) ↦ ground (
    arith,
    at_round,
    send-WasSent b.validator_id r.number d
        (record b { round = some (record r { step = step_of d }) }) k h,
  )
]

abbrev IsNew : BlockData → Message → Type 0
IsNew b m = contains_key (message_key m) b.sent ≡ false

-- No two messages of the list share block, round and step.
abbrev pub AreDistinct : List Message → Type 0
AreDistinct [] = Unit
AreDistinct (m ∷ ms) = All (λ m'. message_key m ≢ message_key m') ms × AreDistinct ms

All-map {ℓ} :
    {P Q : Message → Type ℓ} (ms : List Message) → ((m : Message) → P m → Q m) → All P ms → All Q ms
All-map [] f h = tt
All-map (m ∷ ms) f h = (f m h.0, All-map ms f h.1)

new_of_WasSent :
    (k : Key) (b : BlockData) → WasSent k b → (m : Message) → IsNew b m → k ≢ message_key m
new_of_WasSent k b h m new e = let h' = rw e at h in cc

IsNew-before : (d : Data) (b : BlockData) (m : Message) → IsNew (message d b).1 m → IsNew b m
IsNew-before d b m new = elim (Bool-cases (contains_key (message_key m) b.sent)) [
  | inl old ↦ let still = message-WasSent d b (message_key m) old in cc
  | inr fresh ↦ fresh
]

run-IsNew : (es : List Event) (b : BlockData) → All (IsNew b) (run b es)
unfolding run
run-IsNew [] b = tt
run-IsNew (become c ∷ es) b = run-IsNew es (record c { sent = b.sent })
run-IsNew (say d ∷ es) b =
    let later : All (IsNew b) (run (message d b).1 es) =
      All-map (run (message d b).1 es) (IsNew-before d b) (run-IsNew es (message d b).1) in
    elim (Option-cases (returned d b)) [
      | inl silent ↦ rw silent later
      | inr (m, sent) ↦ rw sent ((message-fresh d b m sent).0, later)
    ]

-- Whatever a machine is asked to say, and however often it is restarted with its database, it
-- never sends two messages for the same block, round and step.
pub run-AreDistinct : (es : List Event) (b : BlockData) → AreDistinct (run b es)
unfolding run
run-AreDistinct [] b = tt
run-AreDistinct (become c ∷ es) b = run-AreDistinct es (record c { sent = b.sent })
run-AreDistinct (say d ∷ es) b =
    let b' = (message d b).1 in
    elim (Option-cases (returned d b)) [
      | inl silent ↦ rw silent (run-AreDistinct es b')
      | inr (m, sent) ↦ rw sent (
        All-map (run b' es) (new_of_WasSent (message_key m) b' (message-fresh d b m sent).1)
            (run-IsNew es b'),
        run-AreDistinct es b',
      )
    ]
