-- ===== src/Shared/Consumers.antt =====
-- shared/events/consumer.go: the consumers of NATS Streaming and their subscriptions. The connection is
-- stan's, and an argument.
use Prim.Native.String.{String}
use scalemate.Prelude.{List, [], ◌∷◌, ◌++◌, Option, none, some}
use scalemate.World.{Err, wrap, Result, ok, err}

-- The options of a subscription: the one that messages are acknowledged by the handlers, or another.
pub data SubscriptionOption : Type 0 where
  set_manual_ack_mode : SubscriptionOption
  other_option : String → SubscriptionOption

pub record NatsConsumer : Type 0 where
  pub subject : String
  pub opts : List SubscriptionOption

-- `NewNatsConsumer`
unfoldable pub new_nats_consumer : String → List SubscriptionOption → NatsConsumer
new_nats_consumer subject opts = record {
  subject = subject;
  opts = opts ++ set_manual_ack_mode ∷ [];
}

pub record NatsQueueConsumer : Type 0 where
  pub consumer : NatsConsumer
  pub queue_name : String

-- `NewNatsQueueConsumer`
unfoldable pub new_nats_queue_consumer :
    String → String → List SubscriptionOption → NatsQueueConsumer
unfolding new_nats_consumer
new_nats_queue_consumer subject queue_name opts = record {
  consumer = new_nats_consumer subject opts;
  queue_name = queue_name;
}

-- What `Subscribe` of the connection gets: the subject, the name of the queue if there is one, and the
-- options.
abbrev pub Subscribe : Type 0 → Type 0
Subscribe S = String → Option String → List SubscriptionOption → Result S

module _ {S : Type 0} (subscribe : Subscribe S) where
  -- `NatsConsumer.Consume`
  unfoldable pub consume : NatsConsumer → Result S
  consume c = elim (subscribe c.subject none c.opts) [
    | ok s ↦ ok s
    | err e ↦ err (wrap e "conn.Subscribe failed")
  ]

  -- `NatsQueueConsumer.Consume`
  unfoldable pub consume_queue : NatsQueueConsumer → Result S
  consume_queue c = elim (subscribe c.consumer.subject (some c.queue_name) c.consumer.opts) [
    | ok s ↦ ok s
    | err e ↦ err (wrap e "conn.QueueSubscribe failed")
  ]

-- `NatsSubscription.Close`, on the answer of the subscription: the error, and none if the channel of
-- the errors was closed.
unfoldable pub close_subscription : Option Err → Option Err
close_subscription none = none
close_subscription (some e) = some (wrap e "subscription.Close failed")
