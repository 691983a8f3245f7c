-- ===== src/Web/Kafka.antt =====
-- webserver/src/kafka_client.cpp: the producer; Consumer has the consumer. librdkafka is a library: what its
-- calls return is an argument, and `Live` counts its objects that are made and not destroyed. Objects
-- that one call makes and destroys again on each of its paths (metadata, the queue and the event of
-- the topic's creation, the list of partitions, the message) are left out.
pub mod Consumer
pub mod Handles
use dts_framework.Common.{
  ℕ, suc, ◌+◌, ◌-◌, ◌%◌, ◌^◌, Bool, true, false, not, Option, none, some, List, ◌==◌, if◌then◌else◌,
  Text,
}

-- `rd_kafka_resp_err_t`, as far as the code tells its values apart.
pub data RespErr : Type 0 where
  no_error topic_already_exists timed_out partition_eof msg_timed_out : RespErr
  other : ℕ → RespErr

abbrev pub is_ok : RespErr → Bool
is_ok no_error = true
is_ok topic_already_exists = false
is_ok timed_out = false
is_ok partition_eof = false
is_ok msg_timed_out = false
is_ok (other n) = false

abbrev pub is_created : RespErr → Bool
is_created topic_already_exists = true
is_created no_error = true
is_created timed_out = false
is_created partition_eof = false
is_created msg_timed_out = false
is_created (other n) = false

-- `LogOnce`: the last error that it kept, and whether it logs.
unfoldable pub log_once : ℕ → ℕ → Bool × ℕ
log_once err last_err = if err == last_err then (false, last_err) else (true, err)

pub record Live : Type 0 where
  pub confs : ℕ
  pub rks : ℕ
  pub topics : ℕ

abbrev pub no_live : Live
no_live = record { confs = 0; rks = 0; topics = 0 }

pub record KafkaProducer : Type 0 where
  pub rk : Bool
  pub rkt : Bool
  pub queued : ℕ
  pub delivered : ℕ
  pub failed : ℕ
  pub live : Live

abbrev pub new_producer : KafkaProducer
new_producer = record {
  rk = false;
  rkt = false;
  queued = 0;
  delivered = 0;
  failed = 0;
  live = no_live;
}

-- The creation of the handle, of the topic and of the new-topic object, the metadata, and the event
-- of the creation, if one came in time.
pub record ProducerCalls : Type 0 where
  pub new_ok : Bool
  pub topic_ok : Bool
  pub metadata : RespErr
  pub new_topic_ok : Bool
  pub event : Option RespErr

abbrev event_error : Option RespErr → RespErr
event_error none = timed_out
event_error (some err) = err

-- `Start` once the handle and the topic are there.
unfoldable pub start_checks : ProducerCalls → Bool
start_checks calls =
    if is_ok calls.metadata
    then if calls.new_topic_ok then is_created (event_error calls.event) else false
    else false

-- `KafkaProducer::Start`; the configuration goes over to the handle, or is destroyed.
unfoldable pub producer_start : ProducerCalls → KafkaProducer → Bool × KafkaProducer
unfolding start_checks
producer_start calls p =
    let conf = record p { live = record p.live { confs = suc p.live.confs } } in
    let made = record p { rk = true; live = record p.live { rks = suc p.live.rks } } in
    let topic = record made {
      rkt = true;
      live = record made.live { topics = suc made.live.topics };
    } in
    if calls.new_ok
    then if calls.topic_ok
      then (start_checks calls, topic)
      else (false, record made { rkt = false })
    else (
      false,
      record conf { rk = false; live = record conf.live { confs = conf.live.confs - 1 } },
    )

-- `OnDelivery`: the pointer that it casts is the opaque of the configuration, and a null one is read
-- through, which C++ leaves undefined.
unfoldable pub on_delivery : Option KafkaProducer → RespErr → Option KafkaProducer
on_delivery none err = none
on_delivery (some p) err = some (
    if is_ok err
    then record p { delivered = (p.delivered + 1) % 2 ^ 64 }
    else record p { failed = (p.failed + 1) % 2 ^ 64 })

pub record KafkaMsg : Type 0 where
  pub value : List ℕ
  pub key : Text
  pub headers : List (Text × Text)

-- `Produce`, by what `rd_kafka_producev` returns, with the message that is queued.
unfoldable pub produce :
    RespErr
    → List ℕ
    → Text
    → List (Text × Text)
    → KafkaProducer
    → (Bool × Option KafkaMsg) × KafkaProducer
produce err value key headers p =
    if not p.rk
    then ((false, none), p)
    else if is_ok err
    then (
      (true, some (record { value = value; key = key; headers = headers })),
      record p { queued = (p.queued + 1) % 2 ^ 64 },
    )
    else ((false, none), p)

unfoldable pub producer_shutdown : KafkaProducer → KafkaProducer
producer_shutdown p = record p {
  rk = false;
  rkt = false;
  live = record p.live {
    topics = if p.rkt then p.live.topics - 1 else p.live.topics;
    rks = if p.rk then p.live.rks - 1 else p.live.rks;
  };
}
