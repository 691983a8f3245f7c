-- ===== src/Web/Http.antt =====
-- webserver/src/http_sse.cpp: the requests and the event streams of the observation page. Sockets are
-- numbers; what `recv` returns is a list of chunks, what the other calls return an argument. A thread
-- is not modelled but by what it does to the state.
pub mod Split
pub mod Head
pub mod Conns
use dts_framework.Common.{
  ℕ, Bool, true, false, not, Option, none, some, List, [], ◌∷◌, ◌++◌, leb, ◌==◌, if◌then◌else◌,
  length, drop, Text, codes, text_eq, is_nil, to_text, split_at_text, split_at_last, add_member,
}

abbrev pub max_req_head : ℕ
max_req_head = 4096

abbrev pub crlf : Text
crlf = 13 ∷ 10 ∷ []

-- The first line of a complete head; an empty one is a failure.
unfoldable pub first_line : Text → Option Text
first_line buf = elim (split_at_text crlf buf) [
  | none ↦ none
  | some (line, rest) ↦ if is_nil line then none else some line
]

-- `ReadRequestHead`
unfoldable pub read_request_head : Text → List Text → Option Text
unfolding first_line split_at_text
read_request_head buf [] = none
read_request_head buf (chunk ∷ chunks) =
    let more = read_request_head (buf ++ chunk) chunks in
    if leb max_req_head (length buf)
    then none
    else elim (split_at_text (crlf ++ crlf) (buf ++ chunk)) [
      | none ↦ more
      | some (head, rest) ↦ first_line (buf ++ chunk)
    ]

-- What `Respond` sends.
unfoldable pub respond : Text → Text → Text → Text → Text
unfolding to_text
respond status content_type body extra_head =
    codes "HTTP/1.1 "
    ++ (status
        ++ (crlf
            ++ (codes "Content-Type: "
                ++ (content_type
                    ++ (crlf
                        ++ (codes "Content-Length: "
                            ++ (to_text (length body)
                                ++ (crlf
                                    ++ (codes "Connection: close"
                                        ++ (crlf ++ (extra_head ++ (crlf ++ body))))))))))))

pub record HttpSseServer : Type 0 where
  pub index : Text
  pub port : ℕ
  pub listening : Bool
  pub running : Bool
  pub streams : List ℕ

-- `Start`: the page, whether the socket is made, and whether it listens; false for the source's -1.
unfoldable pub start : ℕ → Text → Bool → Bool → HttpSseServer → Bool × HttpSseServer
start port page socket_ok bind_ok v =
    let named = record v { index = page; port = port } in
    if is_nil page
    then (false, record v { index = page })
    else if socket_ok
    then if bind_ok
      then (true, record named { listening = true; running = true })
      else (false, named)
    else (false, named)

-- `Stop`, with the streams that it shuts down.
unfoldable pub stop : HttpSseServer → List ℕ × HttpSseServer
stop v = if v.running then (v.streams, record v { running = false; listening = false }) else ([], v)

-- What becomes of a connection.
pub data Served : Type 0 where
  closed : Served
  answered : Text → Served
  streaming : Served

-- `ServeConn` by the method and the path.
unfoldable pub route : HttpSseServer → Text → Text → Text → Served
unfolding respond
route v stats method path =
    if not (text_eq method (codes "GET"))
    then answered (
        respond (codes "405 Method Not Allowed") (codes "text/plain") (codes "GET only" ++ 10 ∷ [])
          [])
    else if text_eq path (codes "/api/stream")
    then streaming
    else if text_eq path (codes "/api/stats")
    then answered (respond (codes "200 OK") (codes "application/json") stats [])
    else if text_eq path (codes "/")
    then answered (respond (codes "200 OK") (codes "text/html; charset=utf-8") v.index [])
    else if text_eq path (codes "/index.html")
    then answered (respond (codes "200 OK") (codes "text/html; charset=utf-8") v.index [])
    else answered
        (respond (codes "404 Not Found") (codes "text/plain") (codes "not found" ++ 10 ∷ []) [])

-- The first line split at its first and its last blank, which must be two.
unfoldable pub serve_line : HttpSseServer → Text → Text → Served
unfolding route split_at_text split_at_last
serve_line v stats line = elim (split_at_text (codes " ") line) [
  | none ↦ closed
  | some (method, from_blank) ↦ elim (split_at_last (codes " ") (drop 1 from_blank)) [
    | none ↦ closed
    | some (path, version) ↦ route v stats method path
  ]
]

-- `ServeConn`
unfoldable pub serve_conn : HttpSseServer → Text → List Text → Served
unfolding read_request_head serve_line
serve_conn v stats chunks = elim (read_request_head [] chunks) [
  | none ↦ closed
  | some line ↦ serve_line v stats line
]

-- `ServeStream` up to its wait, by whether the head could be sent, and after it.
unfoldable pub enter_stream : Bool → ℕ → HttpSseServer → HttpSseServer
unfolding add_member
enter_stream sent fd v = if sent then record v { streams = add_member fd v.streams } else v

unfoldable pub without : ℕ → List ℕ → List ℕ
without fd [] = []
without fd (g ∷ gs) = let rest = without fd gs in if g == fd then rest else g ∷ rest

unfoldable pub leave_stream : ℕ → HttpSseServer → HttpSseServer
unfolding without
leave_stream fd v = record v { streams = without fd v.streams }

unfoldable pub event_text : Text → Text → Text
event_text event json =
    codes "event: " ++ (event ++ (10 ∷ (codes "data: " ++ (json ++ 10 ∷ 10 ∷ []))))

-- The loop of `Broadcast`: the streams that stay, and those that are shut down.
unfoldable pub send_all : (ℕ → Bool) → List ℕ → List ℕ × List ℕ
send_all sent [] = ([], [])
send_all sent (fd ∷ fds) =
    let rest = send_all sent fds in if sent fd then (fd ∷ rest.0, rest.1) else (rest.0, fd ∷ rest.1)

unfoldable pub broadcast : (ℕ → Bool) → HttpSseServer → List ℕ × HttpSseServer
unfolding send_all
broadcast sent v = let r = send_all sent v.streams in (r.1, record v { streams = r.0 })
