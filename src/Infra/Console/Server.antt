-- ===== src/Infra/Console/Server.antt =====
-- The listening socket and the console thread of infrastructure/src/console.cpp. What the socket
-- calls and the thread creation return are arguments; `open_fds` counts the listening sockets that
-- are open, and `created` the console threads that run. The threads of the sessions are detached, so
-- that the join of `console_stop` finds none.
use dts_framework.Common.{
  ℕ, suc, ◌-◌, Bool, true, false, Option, none, some, List, [], ◌∷◌, if◌then◌else◌, Text,
  add_member, ◌==◌, ◌≡◌, refl,
}

pub record Server : Type 0 where
  pub sock_path : Text
  pub listening : Bool
  pub console_h : Bool
  pub stop : Bool
  pub active_fds : List ℕ
  pub open_fds : ℕ
  pub created : ℕ

abbrev pub no_server : Server
no_server = record {
  sock_path = [];
  listening = false;
  console_h = false;
  stop = false;
  active_fds = [];
  open_fds = 0;
  created = 0;
}

pub record StartCalls : Type 0 where
  pub socket_ok : Bool
  pub bind_ok : Bool
  pub thread_ok : Bool

-- The end of `console_start`, once the socket listens.
unfoldable pub start_thread : Bool → Server → Bool × Server
start_thread true v =
    (true, record v { stop = false; listening = true; console_h = true; created = suc v.created })
start_thread false v = (
  false,
  record v { stop = false; listening = false; console_h = false; open_fds = v.open_fds - 1 },
)

-- `console_start`: false for the source's -1.
unfoldable pub console_start : StartCalls → Option Text → Server → Bool × Server
unfolding start_thread
console_start calls none v = (false, v)
console_start calls (some path) v =
    let named = record v { sock_path = path } in
    let opened = record named { open_fds = suc v.open_fds } in
    if calls.socket_ok
    then if calls.bind_ok
      then start_thread calls.thread_ok opened
      else (false, record opened { open_fds = opened.open_fds - 1 })
    else (false, named)

-- `console_stop`, with the sessions that it wakes up.
unfoldable pub console_stop : Server → List ℕ × Server
console_stop v = (
  v.active_fds,
  record v {
    stop = true;
    console_h = false;
    created = if v.console_h then v.created - 1 else v.created;
    listening = false;
    open_fds = if v.listening then v.open_fds - 1 else v.open_fds;
    sock_path = [];
  },
)

-- A round of `ConsoleLoop`: whether the poll found something, and what `accept` returned; `none`
-- where the loop ends.
unfoldable pub console_round : Bool → Option ℕ → Server → Option (Server × Option ℕ)
console_round polled conn v =
    if v.stop then none else if polled then some (v, conn) else some (v, none)

-- The beginning and the end of `SessionLoop`.
unfoldable pub enter_session : ℕ → Server → Server
enter_session fd v = record v { active_fds = add_member fd v.active_fds }

unfoldable pub without : ℕ → List ℕ → List ℕ
without fd [] = []
without fd (g ∷ gs) = let rest = without fd gs in if g == fd then rest else g ∷ rest

unfoldable pub leave_session : ℕ → Server → Server
unfolding without
leave_session fd v = record v { active_fds = without fd v.active_fds }

-- Nothing is open, and no thread runs.
abbrev pub IsIdle : Server → Type 0
IsIdle v = (v.open_fds ≡ 0) × (v.created ≡ 0) × (v.listening ≡ false) × (v.console_h ≡ false)

start_stop_with :
    (socket_ok bind_ok thread_ok : Bool) (path : Text)
    → let calls : StartCalls = record {
      socket_ok = socket_ok;
      bind_ok = bind_ok;
      thread_ok = thread_ok;
    } in
      IsIdle (console_stop (console_start calls (some path) no_server).1).1
unfolding console_stop console_start start_thread
start_stop_with false b t path = (refl, refl, refl, refl)
start_stop_with true false t path = (refl, refl, refl, refl)
start_stop_with true true false path = (refl, refl, refl, refl)
start_stop_with true true true path = (refl, refl, refl, refl)

-- After a start, whatever the calls returned, and a stop.
pub stop-IsIdle :
    (calls : StartCalls) (path : Text)
    → IsIdle (console_stop (console_start calls (some path) no_server).1).1
stop-IsIdle calls path = start_stop_with calls.socket_ok calls.bind_ok calls.thread_ok path
