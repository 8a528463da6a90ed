-- ===== src/Flow/Wiring.antt =====
-- The consumers of the commands, as the main functions of cmd/orchestrator, the three workers,
-- cmd/projector and cmd/order-status configure them, and their answer to an event that is done.
use workers_kafka.Prelude.{
  ◌≡◌, refl, subst, String, List, [], ◌∷◌, Option, none, some, some-injective, Bool, true, false,
  ◌||◌, str_eq, if◌then◌else◌,
}
use workers_kafka.Domain.{
  Event, EventType, order_created, order_completed, order_failed, payment_compensate,
  payment_compensate_result, payment_command, payment_result, inventory_command, inventory_result,
  notification_command, notification_result, unknown,
}
use workers_kafka.Errors.{Result, ok}
use workers_kafka.Topics.{
  topic_for_event_type, flow_topics, topic_order_created, topic_order_status, topic_payment_command,
  topic_payment_result, topic_inventory_command, topic_inventory_result, topic_notification_command,
  topic_notification_result,
}
use workers_kafka.Flow.{
  Service, orchestrator, payment_worker, inventory_worker, notification_worker, subscriber,
}

-- The part of `ConsumerConfig` in which the commands differ.
pub record ConsumerConfig : Type 0 where
  pub group_id : String
  pub topics : List String
  pub has_dlq : Bool

pub data Command : Type 0 where
  service : Service → Command
  projector order_status : Command

unfoldable pub orchestrator_config : ConsumerConfig
orchestrator_config = record {
  group_id = "orchestrator";
  topics =
      topic_order_created ∷ topic_payment_result ∷ topic_inventory_result
      ∷ topic_notification_result ∷ [];
  has_dlq = true;
}

unfoldable pub payment_config : ConsumerConfig
payment_config = record {
  group_id = "worker-payment";
  topics = topic_payment_command ∷ [];
  has_dlq = true;
}

unfoldable pub inventory_config : ConsumerConfig
inventory_config = record {
  group_id = "worker-inventory";
  topics = topic_inventory_command ∷ [];
  has_dlq = true;
}

unfoldable pub notification_config : ConsumerConfig
notification_config = record {
  group_id = "worker-notification";
  topics = topic_notification_command ∷ [];
  has_dlq = true;
}

unfoldable pub projector_config : ConsumerConfig
unfolding flow_topics
projector_config = record { group_id = "projector"; topics = flow_topics; has_dlq = true }

unfoldable pub order_status_config : ConsumerConfig
order_status_config = record {
  group_id = "order-status";
  topics = topic_order_status ∷ [];
  has_dlq = false;
}

unfoldable pub config_of : Command → ConsumerConfig
unfolding orchestrator_config payment_config inventory_config notification_config projector_config
    order_status_config
config_of (service orchestrator) = orchestrator_config
config_of (service payment_worker) = payment_config
config_of (service inventory_worker) = inventory_config
config_of (service notification_worker) = notification_config
config_of projector = projector_config
config_of order_status = order_status_config

-- `handleTerminalEvent`, which only logs.
unfoldable pub handle_terminal_event : {S : Type 0} → Event → S → Result (Unit {0}) × S
handle_terminal_event event s = (ok tt, s)

abbrev pub reads : String → List String → Bool
reads topic [] = false
reads topic (t ∷ ts) = str_eq t topic || reads topic ts

abbrev pub commands : List Command
commands =
    service orchestrator
    ∷ service payment_worker
    ∷ service inventory_worker
    ∷ service notification_worker
    ∷ projector
    ∷ order_status
    ∷ []

abbrev pub readers_in : List Command → String → List Command
readers_in [] topic = []
readers_in (c ∷ cs) topic =
    let rest = readers_in cs topic in if reads topic (config_of c).topics then c ∷ rest else rest

-- The commands that get the messages of a topic.
unfoldable pub readers : String → List Command
unfolding config_of
readers topic = readers_in commands topic

-- The one that acts on them: the service that subscribes, or else the log of ended orders.
abbrev pub actor : Option Service → List Command → List Command
actor none shown = projector ∷ order_status ∷ []
actor (some s) shown = service s ∷ shown

abbrev Right : String → Type 0
Right topic = readers topic ≡ actor (subscriber topic) (projector ∷ [])

at_topic : (a topic : String) → some a ≡ some topic → Right a → Right topic
at_topic a topic h r = subst Right (some-injective _ _ h) r

-- The messages of every type that has a topic are read by the projector and by one more command: the
-- service that `subscriber` names, or the log of ended orders where it names none.
pub readers-subscriber :
    (t : EventType) (topic : String)
    → topic_for_event_type t ≡ some topic
    → readers topic ≡ actor (subscriber topic) (projector ∷ [])
unfolding topic_for_event_type readers subscriber
readers-subscriber order_created topic h = at_topic _ topic h refl
readers-subscriber order_completed topic h = at_topic _ topic h refl
readers-subscriber order_failed topic h = at_topic _ topic h refl
readers-subscriber payment_compensate topic h = at_topic _ topic h refl
readers-subscriber payment_compensate_result topic h = at_topic _ topic h refl
readers-subscriber payment_command topic h = at_topic _ topic h refl
readers-subscriber payment_result topic h = at_topic _ topic h refl
readers-subscriber inventory_command topic h = at_topic _ topic h refl
readers-subscriber inventory_result topic h = at_topic _ topic h refl
readers-subscriber notification_command topic h = at_topic _ topic h refl
readers-subscriber notification_result topic h = at_topic _ topic h refl
readers-subscriber (unknown s) topic h = cc
