-- ===== src/Web/Kafka/Handles.antt =====
-- The objects of librdkafka that webserver/src/kafka_client.cpp leaves.
use dts_framework.Common.{
  ℕ, ◌≡◌, refl, true, false, ◌||◌, not, Option, none, some, List, if◌then◌else◌, Text, Bool-cases,
  inl, inr,
}
use dts_framework.Web.Kafka.{
  no_live, ProducerCalls, new_producer, producer_start, producer_shutdown,
}
use dts_framework.Web.Kafka.Consumer.{
  ConsumerCalls, KafkaConsumer, new_consumer, assign_parts, topic_parts, consumer_start,
  consumer_stop,
}

-- `Shutdown` undoes every start of a producer.
pub producer_freed :
    (calls : ProducerCalls)
    → (producer_shutdown (producer_start calls new_producer).1).live ≡ no_live
unfolding producer_start producer_shutdown
producer_freed calls = elim (Bool-cases calls.new_ok) [
  | inr e ↦ rw e
  | inl e ↦ elim (Bool-cases calls.topic_ok) [ inl f ↦ rw (e, f) | inr f ↦ rw (e, f) ]
]

abbrev made : KafkaConsumer
made = record new_consumer { rk = true; live = record no_live { rks = 1 } }

assigned_left :
    (calls : ConsumerCalls) (parts : Option (List ℕ))
    → (consumer_stop (assign_parts calls parts made).1).live.rks
      ≡ (if (assign_parts calls parts made).0 || false then 0 else 1)
unfolding assign_parts consumer_stop
assigned_left calls none = refl
assigned_left calls (some parts) = elim (Bool-cases calls.assign_ok) [ inl e ↦ rw e | inr e ↦ rw e ]

-- A new consumer that is started and stopped has destroyed its handle exactly if the start
-- succeeded or made none; a start that fails later leaves one handle that `Stop` does not destroy.
pub consumer_left :
    (calls : ConsumerCalls) (topic : Text)
    → let r = consumer_start calls topic new_consumer in
      (consumer_stop r.1).live.rks ≡ (if r.0 || not calls.new_ok then 0 else 1)
unfolding consumer_start
consumer_left calls topic = elim (Bool-cases calls.new_ok) [
  | inl e ↦ rw e (assigned_left (record calls { new_ok = true }) (topic_parts topic calls.metadata))
  | inr e ↦ rw e (unfold consumer_stop in refl)
]
