-- ===== src/Web/Kafka/Consumer.antt =====
-- The consumer of webserver/src/kafka_client.cpp.
use dts_framework.Common.{
  ℕ, suc, ◌+◌, ◌-◌, ◌%◌, ◌^◌, Bool, true, false, not, Option, none, some, List, [], ◌∷◌, ◌++◌, ◌==◌,
  if◌then◌else◌, Text, text_eq, c_str,
}
use dts_framework.Web.Kafka.{RespErr, is_ok, Live, no_live}

-- `lag` and `hi_base` are 64-bit numbers in two's complement.
pub record KafkaConsumer : Type 0 where
  pub rk : Bool
  pub running : Bool
  pub consumed : ℕ
  pub lag : ℕ
  pub parts : List ℕ
  pub hi_base : ℕ
  pub live : Live

abbrev pub new_consumer : KafkaConsumer
new_consumer = record {
  rk = false;
  running = false;
  consumed = 0;
  lag = 0;
  parts = [];
  hi_base = 0;
  live = no_live;
}

-- The metadata are the topics with their partitions, `none` for an error.
pub record ConsumerCalls : Type 0 where
  pub new_ok : Bool
  pub metadata : Option (List (Text × List ℕ))
  pub assign_ok : Bool
  pub watermark : ℕ → Option ℕ

unfoldable pub find_topic : Text → List (Text × List ℕ) → Option (List ℕ)
find_topic topic [] = none
find_topic topic ((name, parts) ∷ more) =
    let rest = find_topic topic more in if text_eq name (c_str topic) then some parts else rest

-- The metadata of no topic end as an error does.
abbrev pub topic_parts : Text → Option (List (Text × List ℕ)) → Option (List ℕ)
topic_parts topic none = none
topic_parts topic (some topics) = find_topic topic topics

abbrev pub mark_of : Option ℕ → ℕ
mark_of none = 0
mark_of (some hi) = hi

-- The sum of the high watermarks that could be asked for.
unfoldable pub watermarks : (ℕ → Option ℕ) → List ℕ → ℕ → ℕ
watermarks watermark [] sum = sum
watermarks watermark (part ∷ parts) sum =
    watermarks watermark parts ((sum + mark_of (watermark part)) % 2 ^ 64)

-- `Start` once the handle is there, by the partitions of the topic.
unfoldable pub assign_parts : ConsumerCalls → Option (List ℕ) → KafkaConsumer → Bool × KafkaConsumer
unfolding watermarks
assign_parts calls none c = (false, c)
assign_parts calls (some parts) c =
    let assigned = record c { parts = c.parts ++ parts } in
    if calls.assign_ok
    then (
      true,
      record assigned {
        hi_base = watermarks calls.watermark assigned.parts assigned.hi_base;
        running = true;
      },
    )
    else (false, assigned)

unfoldable pub consumer_start : ConsumerCalls → Text → KafkaConsumer → Bool × KafkaConsumer
unfolding assign_parts find_topic
consumer_start calls topic c =
    if calls.new_ok
    then assign_parts calls (topic_parts topic calls.metadata)
        (record c { rk = true; live = record c.live { rks = suc c.live.rks } })
    else (false, record c { rk = false })

pub record Polled : Type 0 where
  pub err : RespErr
  pub payload : List ℕ
  pub offset : ℕ

module _ {S : Type 0} (fn : List ℕ → ℕ → S → S) where
  -- What a message does; an error is only logged.
  unfoldable pub take_msg : Option Polled → KafkaConsumer × S → KafkaConsumer × S
  take_msg none (c, s) = (c, s)
  take_msg (some msg) (c, s) =
      if is_ok msg.err
      then (record c { consumed = (c.consumed + 1) % 2 ^ 64 }, fn msg.payload msg.offset s)
      else (c, s)

  -- A round of `Run` with its count: each tenth one asks for the watermarks.
  unfoldable pub consumer_round :
      (ℕ → Option ℕ) → Option Polled → ℕ → KafkaConsumer × S → KafkaConsumer × S
  unfolding take_msg watermarks
  consumer_round watermark msg poll_cnt cs =
      let taken = take_msg msg cs in
      let c = taken.0 in
      let hi = watermarks watermark c.parts 0 in
      if suc poll_cnt % 10 == 0
      then (record c { lag = (hi + 2 ^ 64 - c.hi_base + (2 ^ 64 - c.consumed)) % 2 ^ 64 }, taken.1)
      else taken

-- `KafkaConsumer::Stop`
unfoldable pub consumer_stop : KafkaConsumer → KafkaConsumer
consumer_stop c = if not c.running then c else record c {
  running = false;
  rk = false;
  live = record c.live { rks = if c.rk then c.live.rks - 1 else c.live.rks };
}
