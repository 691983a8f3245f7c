-- ===== src/Web/Http/Conns.antt =====
-- The connections of webserver/src/http_sse.cpp: the accept loop, the threads of the connections and
-- the pushes, each under its lock.
pub mod Open
use dts_framework.Common.{
  ℕ, Bool, true, false, ◌&&◌, Option, none, some, List, ◌∷◌, contains, if◌then◌else◌, ◌≡◌,
}
use dts_framework.Web.Http
use dts_framework.Web.Http.{HttpSseServer, without, enter_stream, leave_stream, broadcast}

-- A round of `AcceptLoop`: `none` where the loop ends, else the connection to serve, if there is one;
-- `ready` is whether `poll` returned more than 0, `conn` what `accept` returned, `none` below 0.
unfoldable pub accept_round : HttpSseServer → Bool → Option ℕ → Option (Option ℕ)
accept_round v ready conn = if v.running then some (if ready then conn else none) else none

-- Whether the wait of `ServeStream` goes on: `got` is whether `recv` returned more than 0, and is not
-- called after a stop.
unfoldable pub stream_waits : HttpSseServer → Bool → Bool
stream_waits v got = v.running && got

-- The server with its descriptors: the connections that are open, and those whose thread stands
-- between the two critical sections of `ServeStream`.
pub record Site : Type 0 where
  pub server : HttpSseServer
  pub open_fds : List ℕ
  pub waiting : List ℕ

-- `ServeStream` from the head on: where it cannot be sent, the connection is closed at once.
unfoldable pub begin_stream : Bool → ℕ → Site → Site
unfolding enter_stream
begin_stream sent fd t =
    if sent
    then record t { server = enter_stream true fd t.server; waiting = fd ∷ t.waiting }
    else record t { open_fds = without fd t.open_fds }

-- Its end, up to the `close`.
unfoldable pub end_stream : ℕ → Site → Site
unfolding leave_stream
end_stream fd t = record t { server = leave_stream fd t.server; waiting = without fd t.waiting }

-- What the threads do. A new descriptor is one that is not open.
pub data Step : Site → Site → Type 0 where
  accept_step :
      (t : Site) (ready : Bool) (fd : ℕ)
      → accept_round t.server ready (some fd) ≡ some (some fd)
      → contains fd t.open_fds ≡ false
      → Step t (record t { open_fds = fd ∷ t.open_fds })
  stream_step :
      (t : Site) (sent : Bool) (fd : ℕ)
      → contains fd t.open_fds ≡ true
      → contains fd t.waiting ≡ false
      → Step t (begin_stream sent fd t)
  leave_step :
      (t : Site) (got : Bool) (fd : ℕ)
      → contains fd t.waiting ≡ true
      → stream_waits t.server got ≡ false
      → Step t (end_stream fd t)
  close_step :
      (t : Site) (fd : ℕ)
      → contains fd t.open_fds ≡ true
      → contains fd t.waiting ≡ false
      → Step t (record t { open_fds = without fd t.open_fds })
  broadcast_step :
      (t : Site) (sent : ℕ → Bool) → Step t (record t { server = (broadcast sent t.server).1 })
  stop_step : (t : Site) → Step t (record t { server = (Http.stop t.server).1 })

pub data Reach (s : Site) : Site → Type 0 where
  here : Reach s s
  next : {t u : Site} → Reach s t → Step t u → Reach s u
