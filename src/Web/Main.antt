-- ===== src/Web/Main.antt =====
-- webserver/src/main.cpp: the set-up and the end of the web server, and what it does with a report on
-- its way to Kafka and from it.
pub mod Pushes
use dts_framework.Common.{
  zero, suc, ◌%◌, not, ltb, true, false, ℕ, ◌+◌, Bool, Option, none, some, List, [], ◌∷◌, ◌++◌, leb,
  if◌then◌else◌, length, take, Text, codes, to_text, is_nil,
}
use dts_framework.Web.ReportFrame.{ReportView, parse_report}
use dts_framework.Web.Stats.{snapshot_json, Stats, on_report}
use dts_framework.Web.Kafka.{
  RespErr, KafkaProducer, KafkaMsg, produce, ProducerCalls, new_producer, producer_start,
  producer_shutdown,
}
use dts_framework.Web.Kafka.Consumer.{
  ConsumerCalls, KafkaConsumer, new_consumer, consumer_start, consumer_stop,
}
use dts_framework.Boot.Commands.{digits_value}
use dts_framework.Web.Http
use dts_framework.Web.Http.{HttpSseServer, broadcast, event_text}

-- `OnDtsReport`, by what the library makes of the message; the message that is queued, if any. The
-- buffers of the two header texts are long enough for any number of their widths.
unfoldable pub on_dts_report :
    RespErr → Option (List ℕ) → Option KafkaProducer → Option KafkaMsg × Option KafkaProducer
unfolding parse_report produce to_text
on_dts_report err none p = (none, p)
on_dts_report err (some frame) none = (none, none)
on_dts_report err (some frame) (some p) =
    let v = (parse_report (some frame) (length frame)).1 in
    let r =
      produce err frame (to_text v.task_id)
        ((codes "seq", to_text v.seq) ∷ (codes "ts_ms", to_text v.timestamp_ms) ∷ []) p in
    if is_nil frame then (none, some p) else (r.0.1, some r.1)

-- A field of the event of a frame.
abbrev pub field : Text → ℕ → Text → Text
field key value rest = 34 ∷ (key ++ (34 ∷ (58 ∷ (to_text value ++ rest))))

unfoldable pub frame_json : ReportView → ℕ → Text
unfolding to_text
frame_json v offset =
    123
    ∷ field (codes "seq") v.seq (
        44
        ∷ field (codes "task") v.task_id (
            44
            ∷ field (codes "ts_ms") v.timestamp_ms (
                44
                ∷ field (codes "slices") v.slice_count (
                    44
                    ∷ (34
                        ∷ (codes "data_ids"
                            ++ (34
                                ∷ (58
                                    ∷ (91
                                        ∷ (to_text v.data_id_min
                                            ++ (44
                                                ∷ (to_text v.data_id_max
                                                    ++ (93
                                                        ∷ (44
                                                            ∷ field (codes "len") v.frame_len (
                                                            44
                                                            ∷ field (codes "offset") offset
                                                            (125 ∷ []))))))))))))))))

-- What the callback of the consumer works on; `last_frame_push` and the clock are in nanoseconds.
pub record Page : Type 0 where
  pub stats : Stats
  pub last_frame_push : ℕ
  pub http : HttpSseServer

-- 100 ms, on a `steady_clock` that counts nanoseconds.
abbrev pub frame_gap : ℕ
frame_gap = 100000000

-- The push of a frame, not sooner than `frame_gap` after the last one, with the text that is sent.
unfoldable pub push_frame : (ℕ → Bool) → ReportView → ℕ → ℕ → Page → Option Text × Page
unfolding frame_json broadcast event_text
push_frame sent v offset now page =
    if leb (page.last_frame_push + frame_gap) now
    then (
      some (event_text (codes "frame") (take 255 (frame_json v offset))),
      record page { last_frame_push = now; http = (broadcast sent page.http).1 },
    )
    else (none, page)

-- The callback of the consumer; `sec` is the second that the statistics count it in.
unfoldable pub on_message : (ℕ → Bool) → Option (List ℕ) → ℕ → ℕ → ℕ → ℕ → Page → Option Text × Page
unfolding parse_report on_report push_frame
on_message sent bytes len offset sec now page =
    let r = parse_report bytes len in
    if r.0
    then push_frame sent r.1 offset now (record page { stats = on_report page.stats r.1 sec })
    else (none, page)

-- A round of the loop at the end of `main`: a second is over, and the statistics go to the pages. The
-- first snapshot goes to the log.
unfoldable pub stats_round : (ℕ → Text) → (ℕ → Text) → (ℕ → Bool) → ℕ → ℕ → Page → Text × Page
unfolding snapshot_json broadcast event_text
stats_round fps_text mbps_text sent logged now page =
    let first = snapshot_json fps_text mbps_text page.stats logged in
    let second = snapshot_json fps_text mbps_text first.1 now in
    (
      event_text (codes "stats") second.0,
      record page { stats = second.1; http = (broadcast sent page.http).1 },
    )

-- What the parts of the web server return when they are set up.
pub record SetUp : Type 0 where
  pub args : List Text
  pub mw_good : Bool
  pub producer : ProducerCalls
  pub consumer : ConsumerCalls
  pub index : Text
  pub socket_ok : Bool
  pub bind_ok : Bool
  pub subscribe_ok : Bool

-- The parts as they stand when `main` returns, before their destructors run.
pub record Parts : Type 0 where
  pub producer : KafkaProducer
  pub consumer : KafkaConsumer
  pub http : HttpSseServer
  pub log_up : Bool

abbrev pub no_parts : Parts
no_parts = record {
  producer = new_producer;
  consumer = new_consumer;
  http = record { index = []; port = 0; listening = false; running = false; streams = [] };
  log_up = true;
}

abbrev arg_or : ℕ → Text → List Text → Text
arg_or i default [] = default
arg_or zero default (a ∷ args) = a
arg_or (suc i) default (a ∷ args) = arg_or i default args

-- `atoi` of the port, for digits, cut to 16 bits.
abbrev port_of : List Text → ℕ
port_of args = digits_value 0 (arg_or 3 (codes "8080") args) % 65536

-- The end of `main`: the loop has been stopped.
unfoldable pub stop_parts : Parts → Parts
unfolding consumer_stop producer_shutdown Http.stop
stop_parts p = record {
  producer = producer_shutdown p.producer;
  consumer = consumer_stop p.consumer;
  http = (Http.stop p.http).1;
  log_up = false;
}

-- Steps 2 to 6 of `main`, once the site is good.
unfoldable pub main_started : SetUp → Parts → ℕ × Parts
unfolding stop_parts producer_start consumer_start Http.start
main_started calls p =
    let topic = arg_or 4 (codes "dts.report") calls.args in
    let made = producer_start calls.producer p.producer in
    let p2 = record p { producer = made.1 } in
    let taken = consumer_start calls.consumer topic p2.consumer in
    let p3 = record p2 { consumer = taken.1 } in
    let page = Http.start (port_of calls.args) calls.index calls.socket_ok calls.bind_ok p3.http in
    let p4 = record p3 { http = page.1 } in
    if not made.0
    then (1, p2)
    else if not taken.0
    then (1, p3)
    else if not page.0
    then (1, p4)
    else if calls.subscribe_ok
    then (0, stop_parts p4)
    else (1, p4)

-- `main`; the first argument is the name of the program.
unfoldable pub main_run : SetUp → Option Parts × ℕ
unfolding main_started
main_run calls =
    let r = main_started calls no_parts in
    if ltb (length calls.args) 2
    then (none, 1)
    else if calls.mw_good
    then (some r.1, r.0)
    else (some no_parts, 1)
