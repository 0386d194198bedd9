-- ===== src/MessageQueue/Samples.antt =====
-- A registry and a message at which the theorems on the message queue apply.
use serai.Common.{◌≡◌, refl, some, [], ◌∷◌, arith, ◌==◌, nat_eq, pair_eq, ok}
use serai.Primitives.{NetworkId, network_eq}
use serai.MessageQueue.{
  Service, service_eq, Route, Metadata, Registry, Db, queue_message, get_next_message,
}
use serai.MessageQueue.Delivery.{IsSequential, waiting, queue-get_next_message}

abbrev route : Route
route = (Service.coordinator, Service.processor NetworkId.bitcoin)

abbrev registry : Registry
registry = record {
  keys = (Service.coordinator, tt) ∷ (Service.processor NetworkId.bitcoin, tt) ∷ [];
  queues = (route, tt) ∷ [];
  is_signed = λ meta msg sig. sig == 7;
  is_ack_signed = λ r n sig. sig == 7;
}

abbrev metadata : Metadata
metadata = record { from_to = route; intent = 30 }

abbrev no_messages : Db
no_messages = record { message_counts = []; acknowledged = []; messages = []; intents = [] }

abbrev one_message : Db
one_message = (queue_message registry metadata 40 7 no_messages).1

no_messages-IsSequential : IsSequential no_messages
no_messages-IsSequential r n = omega arith

queue-get_next_message_example :
    get_next_message registry metadata.from_to one_message
    ≡ (ok (some (waiting metadata 40 7 no_messages)), one_message)
unfolding queue_message
queue-get_next_message_example =
    queue-get_next_message registry metadata 40 7 no_messages one_message refl refl refl
