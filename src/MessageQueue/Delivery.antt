-- ===== src/MessageQueue/Delivery.antt =====
-- message-queue/src/main.rs: what is queued, and what is fetched of it.
use serai.Common.{
  ℕ, ◌+◌, ◌-◌, ◌%◌, ◌≤◌, ◌<◌, ◌≡◌, ◌⊎◌, inl, inr, refl, Bool, true, false, Option, none, some,
  arith, ◌==◌, if◌then◌else◌, lookup, insert, contains_key, nat_eq, pair_eq, u64_mod, ok,
  lookup-insert, contains_key-insert_self, ==_iff, Bool-cases, beq, ◌&&◌, ap, ◌↔◌, ◌∙◌, sym,
}
use serai.MessageQueue.{
  Service, service_eq, service_beq_iff, Route, Metadata, QueuedMessage, Registry, Db, message_count,
  push, get_message, queue_message, get_next_message, next_of,
}

-- A message is stored under its identifier, and the identifiers in use are those below the count.
abbrev Slot : ℕ → ℕ → Option QueuedMessage → Type 0
Slot count n none = count ≤ n
Slot count n (some m) = (n < count) × (m.id ≡ n)

abbrev pub IsSequential : Db → Type 0
IsSequential db = (r : Route) (n : ℕ) → Slot (message_count r db) n (lookup (r, n) db.messages)

route_beq_refl : (r : Route) → beq r r ≡ true
route_beq_refl (a, b) = ground (arith, service_beq_iff a a, service_beq_iff b b)

count-push :
    (r q : Route) (m : QueuedMessage) (db : Db)
    → message_count r db + 1 < u64_mod
    → message_count q (push r m db)
      ≡ (if beq r q then message_count r db + 1 else message_count q db)
unfolding push
count-push r q m db small =
    ground (arith, lookup-insert r q ((message_count r db + 1) % u64_mod) db.message_counts)

lookup-push :
    (r q : Route) (m : QueuedMessage) (db : Db) (n : ℕ)
    → lookup (q, n) (push r m db).messages ≡ (
        if beq r q && (message_count r db == n)
        then some (record m { id = message_count r db })
        else lookup (q, n) db.messages)
unfolding push
lookup-push r q m db n =
    lookup-insert (r, message_count r db) (q, n) (record m { id = message_count r db }) db.messages

route_beq_iff : (r q : Route) → (beq r q ≡ true) ↔ (r ≡ q)
route_beq_iff = (pair_eq {A = Service} {B = Service}).beq_iff

-- The slot after a push, by whether it is the pushed one's route.
Slot-push :
    (r q : Route) (m : QueuedMessage) (db : Db) (n : ℕ)
    → message_count r db + 1 < u64_mod
    → Slot (message_count q db) n (lookup (q, n) db.messages)
    → Slot (if beq r q then message_count r db + 1 else message_count q db) n (
        if beq r q && (message_count r db == n)
        then some (record m { id = message_count r db })
        else lookup (q, n) db.messages)
Slot-push r q m db n small h = elim (Bool-cases (beq r q)) [
  | inl same ↦
      let r_is_q : r ≡ q = (route_beq_iff r q).0 same in
      let counts : message_count r db ≡ message_count q db = ap (λ x. message_count x db) r_is_q in
      ground (arith, same, counts, h, ==_iff (message_count r db) n)
  | inr other ↦ ground (arith, other, h)
]

push-IsSequential :
    (r : Route) (m : QueuedMessage) (db : Db)
    → message_count r db + 1 < u64_mod
    → IsSequential db
    → IsSequential (push r m db)
push-IsSequential r m db small h q n =
    rw (count-push r q m db small, lookup-push r q m db n) (Slot-push r q m db n small (h q n))

-- The message as it is queued, before it has its identifier, and the database with its intent.
abbrev queued : Metadata → ℕ → ℕ → QueuedMessage
queued meta msg sig = record { from = meta.from_to.0; id = u64_mod - 1; msg = msg; sig = sig }

abbrev marked : Metadata → Db → Db
marked meta db = record db { intents = insert (meta.from_to, meta.intent) tt db.intents }

abbrev was_seen : Metadata → Db → Bool
was_seen meta db = contains_key (meta.from_to, meta.intent) db.intents

-- The message that waits under the next identifier.
abbrev pub waiting : Metadata → ℕ → ℕ → Db → QueuedMessage
waiting meta msg sig db = record {
  from = meta.from_to.0;
  id = message_count meta.from_to db;
  msg = msg;
  sig = sig;
}

queue_message-inv :
    (reg : Registry) (meta : Metadata) (msg sig : ℕ) (db db' : Db)
    → queue_message reg meta msg sig db ≡ (ok tt, db')
    → ((was_seen meta db ≡ true) × (db' ≡ db))
      ⊎ ((was_seen meta db ≡ false)
          × (contains_key meta.from_to reg.queues ≡ true)
          × (db' ≡ push meta.from_to (queued meta msg sig) (marked meta db)))
unfolding queue_message
queue_message-inv reg meta msg sig db db' e = elim (Bool-cases (was_seen meta db)) [
  | inl seen ↦ inl (seen, ground (arith, e, seen))
  | inr unseen ↦ inr (unseen, ground (arith, e, unseen), ground (arith, e, unseen))
]

push-intents : (r : Route) (m : QueuedMessage) (db : Db) → (push r m db).intents ≡ db.intents
unfolding push
push-intents r m db = refl

push-next : (r : Route) (m : QueuedMessage) (db : Db) → next_of r (push r m db) ≡ next_of r db
unfolding push
push-next r m db = refl

lookup-push_self :
    (r : Route) (m : QueuedMessage) (db : Db)
    → lookup (r, message_count r db) (push r m db).messages
      ≡ some (record m { id = message_count r db })
lookup-push_self r m db = ground (
  arith,
  lookup-push r r m db (message_count r db),
  route_beq_refl r,
  ==_iff (message_count r db) (message_count r db),
)

count-push_self :
    (r : Route) (m : QueuedMessage) (db : Db)
    → message_count r db + 1 < u64_mod
    → message_count r (push r m db) ≡ message_count r db + 1
count-push_self r m db small = ground (arith, count-push r r m db small, route_beq_refl r)

-- Where identifiers are in sequence and the count has room, a call that returns keeps them so. It
-- changes nothing if the intent was seen on the route before; otherwise the intent is seen from
-- then on, and the message is stored under the identifier that the count was, which goes up by one.
pub queue_message_lem :
    (reg : Registry) (meta : Metadata) (msg sig : ℕ) (db db' : Db)
    → IsSequential db
    → message_count meta.from_to db + 1 < u64_mod
    → queue_message reg meta msg sig db ≡ (ok tt, db')
    → IsSequential db'
      × (((was_seen meta db ≡ true) × (db' ≡ db))
          ⊎ ((was_seen meta db ≡ false)
              × (was_seen meta db' ≡ true)
              × (message_count meta.from_to db' ≡ message_count meta.from_to db + 1)
              × (lookup (meta.from_to, message_count meta.from_to db) db'.messages
                  ≡ some (waiting meta msg sig db))))
queue_message_lem reg meta msg sig db db' h small e =
    elim (queue_message-inv reg meta msg sig db db' e) [
      | inl (seen, same) ↦ (rw same h, inl (seen, same))
      | inr (unseen, _, is_push) ↦ rw is_push (
        push-IsSequential meta.from_to (queued meta msg sig) (marked meta db) small h,
        inr (
          unseen,
          ap (contains_key (meta.from_to, meta.intent))
                (push-intents meta.from_to (queued meta msg sig) (marked meta db))
              ∙ contains_key-insert_self (meta.from_to, meta.intent) tt db.intents,
          count-push_self meta.from_to (queued meta msg sig) (marked meta db) small,
          lookup-push_self meta.from_to (queued meta msg sig) (marked meta db),
        ),
      )
    ]

get_next_message-eq :
    (reg : Registry) (r : Route) (db : Db) (m : QueuedMessage)
    → contains_key r reg.queues ≡ true
    → lookup (r, next_of r db) db.messages ≡ some m
    → m.id ≡ next_of r db
    → get_next_message reg r db ≡ (ok (some m), db)
unfolding get_next_message get_message
get_next_message-eq reg r db m there found is_next =
    ground (arith, there, found, is_next, ==_iff m.id (next_of r db))

-- Where every earlier message of the route is acknowledged, a new message that is queued is the
-- next one that is fetched.
pub queue-get_next_message :
    (reg : Registry) (meta : Metadata) (msg sig : ℕ) (db db' : Db)
    → next_of meta.from_to db ≡ message_count meta.from_to db
    → was_seen meta db ≡ false
    → queue_message reg meta msg sig db ≡ (ok tt, db')
    → get_next_message reg meta.from_to db' ≡ (ok (some (waiting meta msg sig db)), db')
queue-get_next_message reg meta msg sig db db' all_read unseen e =
    elim (queue_message-inv reg meta msg sig db db' e) [
      | inl (seen, _) ↦ absurd (ground (arith, seen, unseen))
      | inr (_, there, is_push) ↦
          let next : next_of meta.from_to (push meta.from_to (queued meta msg sig) (marked meta db))
              ≡ message_count meta.from_to db =
            push-next meta.from_to (queued meta msg sig) (marked meta db) ∙ all_read in
          rw is_push (
            get_next_message-eq reg meta.from_to
              (push meta.from_to (queued meta msg sig) (marked meta db)) (waiting meta msg sig db)
              there (rw next (lookup-push_self meta.from_to (queued meta msg sig) (marked meta db)))
              (sym next))
    ]
