-- ===== src/Tests/Edges.antt =====
-- The log files, the objects of librdkafka and the buffer of the agent, at small inputs.
use dts_framework.Common.{
  contains, starts_with, c_str, text_eq, split_at_text, ℕ, ◌≡◌, ◌||◌, refl, true, false, not,
  replicate, none, some, List, [], ◌∷◌, arith, Text, codes, if◌then◌else◌,
}
use dts_framework.Infra.RotatingSink.{TsRotatingSink, new_sink, Entry, evict_oldest}
use dts_framework.Infra.RotatingSink.Eviction.{IsSettled, evict_oldest-IsSettled}
use dts_framework.Web.Kafka.Consumer.{ConsumerCalls, new_consumer, consumer_start, consumer_stop}
use dts_framework.Web.Kafka.Handles.{consumer_left}
use dts_framework.Agent.PingPong.Flip.{all_full}
use dts_framework.Agent.Reader.Batches.{
  Fitting, run_batches, empty_faces, published, written, run_batches-published,
}
use dts_framework.Web.Http.Conns
use dts_framework.Web.Http.Conns.{Site, begin_stream, accept_round}
use dts_framework.Web.Http.Conns.Open.{IsOpen, Reach-IsOpen}
use dts_framework.Web.Http.Head.{joined, serve_conn-joined}
use dts_framework.Web.Main.Pushes.{Message, Spaced, push_times, push_times-Spaced}
use dts_framework.Web.Main.{Page, on_message}
use dts_framework.Web.Http.{HttpSseServer, serve_conn, streaming, broadcast}
use dts_framework.Agent.PingPong.{PingPongBuffer}

abbrev sink : TsRotatingSink
sink = record (new_sink (codes "log") (codes "{}-%Y") 1 0) {
  current_path = codes "log/dts-b.log";
  max_total = 20;
}

abbrev entry : Text → Text → ℕ → Entry
entry path name time = record { path = path; name = name; regular = true; size = 15; time = time }

abbrev entries : List Entry
entries =
    entry (codes "log/dts-b.log") (codes "dts-b.log") 9
    ∷ entry (codes "log/dts-a.log") (codes "dts-a.log") 4
    ∷ entry (codes "log/other.log") (codes "other.log") 1
    ∷ []

evict_oldest-IsSettled_example :
    IsSettled (codes "log/dts-b.log") 20 (evict_oldest (λ path. true) sink entries)
evict_oldest-IsSettled_example = evict_oldest-IsSettled (λ path. true) sink entries

-- Of the files of the sink, the older one goes.
one_removed : (evict_oldest (λ path. true) sink entries).removed ≡ codes "log/dts-a.log" ∷ []
unfolding evict_oldest new_sink split_at_text text_eq
one_removed = refl

abbrev no_topic : ConsumerCalls
no_topic = record {
  new_ok = true;
  metadata = some ((codes "other", 0 ∷ []) ∷ []);
  assign_ok = true;
  watermark = λ part. none;
}

consumer_left_example :
    let r = consumer_start no_topic (codes "dts.report") new_consumer in
    (consumer_stop r.1).live.rks ≡ (if r.0 || not no_topic.new_ok then 0 else 1)
consumer_left_example = consumer_left no_topic (codes "dts.report")

-- The handle of a consumer whose topic is missing stays.
one_left :
    (consumer_stop (consumer_start no_topic (codes "dts.report") new_consumer).1).live.rks ≡ 1
unfolding consumer_start consumer_stop text_eq c_str
one_left = refl

abbrev batches : List (List (List ℕ))
batches = ((1 ∷ 2 ∷ []) ∷ (3 ∷ []) ∷ []) ∷ [] ∷ ((4 ∷ []) ∷ []) ∷ []

batches-Fitting : Fitting batches
unfolding all_full
batches-Fitting = ((refl, omega arith), ((refl, omega arith), ((refl, omega arith), tt)))

run_batches-published_example :
    (msgs : List (ℕ × List ℕ)) × (b : PingPongBuffer) × (run_batches 9 batches (empty_faces false)
      ≡ some (msgs, b))
    × (published msgs ≡ written batches)
run_batches-published_example = run_batches-published 9 batches false batches-Fitting

abbrev page_server : HttpSseServer
page_server = record {
  index = codes "<html>";
  port = 8080;
  listening = true;
  running = true;
  streams = [];
}

stream_request :
    serve_conn page_server []
      (codes "GET /api/stream HTTP/1.1\r\nHost: dts\r\n" ∷ codes "\r\n" ∷ [])
    ≡ streaming
unfolding serve_conn starts_with text_eq
stream_request = refl

abbrev request_pieces : List Text
request_pieces = codes "GET /api/str" ∷ codes "eam HTTP/1.1\r\nHost: dts\r" ∷ codes "\n\r\n" ∷ []

serve_conn-joined_example :
    serve_conn page_server [] request_pieces
    ≡ serve_conn page_server [] (joined request_pieces ∷ [])
serve_conn-joined_example = serve_conn-joined page_server [] request_pieces (omega arith)

-- Three empty frames, the second one 50 ms after the first.
abbrev empty_frame : ℕ → Message
empty_frame now = record {
  sent = λ fd. true;
  bytes = some (replicate 24 0);
  len = 24;
  offset = 1;
  sec = 9;
  now = now;
}

abbrev three_frames : List Message
three_frames = empty_frame 9000000000 ∷ empty_frame 9050000000 ∷ empty_frame 9100000000 ∷ []

abbrev page : Page
page = record {
  stats = record {
    total_frames = 0;
    total_bytes = 0;
    gaps = 0;
    last_seq = 0;
    last_task_id = 0;
    has_last_seq = false;
    buckets = [];
  };
  last_frame_push = 0;
  http = page_server;
}

two_pushes : push_times page three_frames ≡ 9000000000 ∷ 9100000000 ∷ []
unfolding on_message
two_pushes = refl

push_times-Spaced_example : Spaced 0 (push_times page three_frames)
push_times-Spaced_example = push_times-Spaced page three_frames

abbrev quiet_site : Site
quiet_site = record { server = page_server; open_fds = []; waiting = [] }

abbrev one_open : Site
one_open = record quiet_site { open_fds = 7 ∷ [] }

pushed_site : Conns.Reach quiet_site (record (begin_stream true 7 one_open) {
  server = (broadcast (λ fd. false) (begin_stream true 7 one_open).server).1;
})
unfolding accept_round contains
pushed_site =
    Conns.next
      (Conns.next (Conns.next Conns.here (Conns.accept_step quiet_site true 7 refl refl))
        (Conns.stream_step one_open true 7 refl refl))
      (Conns.broadcast_step (begin_stream true 7 one_open) (λ fd. false))

quiet-IsOpen : IsOpen quiet_site
quiet-IsOpen = record { waits = λ fd h. h; pushed = λ fd h. h }

Reach-IsOpen_example : IsOpen (record (begin_stream true 7 one_open) {
  server = (broadcast (λ fd. false) (begin_stream true 7 one_open).server).1;
})
Reach-IsOpen_example = Reach-IsOpen pushed_site quiet-IsOpen
