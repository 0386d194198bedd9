-- ===== src/MessageQueue.antt =====
-- message-queue/src/queue.rs and main.rs: messages between the coordinator and the processors are
-- queued, fetched and acknowledged. The state is what the database holds; a write in a transaction
-- that is committed at the end is one write.
use serai.Common.{
  ℕ, ◌+◌, ◌-◌, ◌%◌, ◌≡◌, ◌↔◌, Bool, true, false, not, Option, none, some, arith, Eq, beq, ◌==◌,
  if◌then◌else◌, Map, lookup, insert, contains_key, nat_eq, pair_eq, u64_mod, Action, Outcome, ok,
  err, panic, ◌>>=◌, ◌>>◌, pure, gets, modify, assert, unwrap, abort,
}
use serai.Primitives.{NetworkId, network_eq, network_beq_iff}
pub mod Delivery
mod Samples

pub data Service : Type 0 where
  processor : NetworkId → Service
  coordinator : Service

abbrev service_beq : Service → Service → Bool
service_beq (Service.processor m) (Service.processor n) = beq m n
service_beq Service.coordinator Service.coordinator = true
service_beq _ _ = false

pub service_beq_iff : (a b : Service) → (service_beq a b ≡ true) ↔ (a ≡ b)
service_beq_iff (Service.processor m) (Service.processor n) = ground (arith, network_beq_iff m n)
service_beq_iff (Service.processor m) Service.coordinator = ground arith
service_beq_iff Service.coordinator (Service.processor n) = ground arith
service_beq_iff Service.coordinator Service.coordinator = ground arith

instance abbrev pub service_eq : Eq Service
service_eq = record { beq = service_beq; beq_iff = service_beq_iff }

-- A queue leads from one service to another.
abbrev pub Route : Type 0
Route = Service × Service

pub record Metadata : Type 0 where
  pub from_to : Route
  pub intent : ℕ

pub record QueuedMessage : Type 0 where
  pub from : Service
  pub id : ℕ
  pub msg : ℕ
  pub sig : ℕ

-- The services and queues registered at the start, and the check of a signature: by a service, of
-- the metadata and the message, or of an acknowledged identifier.
pub record Registry : Type 0 where
  pub keys : Map Service (Unit {0})
  pub queues : Map Route (Unit {0})
  pub is_signed : Metadata → ℕ → ℕ → Bool
  pub is_ack_signed : Route → ℕ → ℕ → Bool

pub record Db : Type 0 where
  pub message_counts : Map Route ℕ
  pub acknowledged : Map Route ℕ
  pub messages : Map (Route × ℕ) QueuedMessage
  pub intents : Map (Route × ℕ) (Unit {0})

pub data Never : Type 0 where

abbrev pub Handler : Type 0 → Type 0
Handler = Action Db Never

abbrev pub message_count : Route → Db → ℕ
message_count r db = elim (lookup r db.message_counts) [ none ↦ 0 | some n ↦ n ]

-- `Queue::queue_message`
unfoldable pub push : Route → QueuedMessage → Db → Db
push r m db = record db {
  messages = insert (r, message_count r db) (record m { id = message_count r db }) db.messages;
  message_counts = insert r ((message_count r db + 1) % u64_mod) db.message_counts;
}

-- `Queue::get_message`
unfoldable pub get_message : Route → ℕ → Handler (Option QueuedMessage)
get_message r n = do
  found ← gets (λ db. lookup (r, n) db.messages)
  assert (elim found [ none ↦ true | some m ↦ m.id == n ])
  pure found

abbrev is_coordinator : Service → Bool
is_coordinator Service.coordinator = true
is_coordinator (Service.processor _) = false

abbrev differ : Bool → Bool → Bool
differ true b = not b
differ false b = b

abbrev needs_key : Registry → Service → Handler (Unit {0})
needs_key reg s = assert (contains_key s reg.keys)

abbrev needs_queue : Registry → Route → Handler (Unit {0})
needs_queue reg r = assert (contains_key r reg.queues)

-- The new message is queued, and its intent is marked as seen.
abbrev put_new : Registry → Metadata → ℕ → ℕ → Handler (Unit {0})
put_new reg meta msg sig = do
  needs_queue reg meta.from_to
  modify (λ db.
      push meta.from_to (record { from = meta.from_to.0; id = u64_mod - 1; msg = msg; sig = sig })
        (record db { intents = insert (meta.from_to, meta.intent) tt db.intents }))

unfoldable pub queue_message : Registry → Metadata → ℕ → ℕ → Handler (Unit {0})
unfolding push
queue_message reg meta msg sig = do
  needs_key reg meta.from_to.0
  assert (reg.is_signed meta msg sig)
  assert (differ (is_coordinator meta.from_to.0) (is_coordinator meta.from_to.1))
  seen ← gets (λ db. contains_key (meta.from_to, meta.intent) db.intents)
  if seen then pure tt else put_new reg meta msg sig

-- The identifier after the one that was acknowledged last.
abbrev pub next_of : Route → Db → ℕ
next_of r db = elim (lookup r db.acknowledged) [ none ↦ 0 | some n ↦ (n + 1) % u64_mod ]

unfoldable pub get_next_message : Registry → Route → Handler (Option QueuedMessage)
unfolding get_message
get_next_message reg r = do needs_queue reg r; next ← gets (next_of r); get_message r next

unfoldable ack_message : Registry → Route → ℕ → ℕ → Handler (Unit {0})
ack_message reg r n sig = do
  needs_key reg r.1
  assert (reg.is_ack_signed r n sig)
  needs_queue reg r
  modify (λ db. record db { acknowledged = insert r n db.acknowledged })
