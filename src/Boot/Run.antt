-- ===== src/Boot/Run.antt =====
-- The stop and the run of bootstrap/src/run.cpp, with what the other threads do meanwhile: while the
-- main thread waits, after `control_stop`, and after the end of the control thread. What the commands
-- do is an argument.
use dts_framework.Common.{
  ℕ, Bool, true, false, not, Option, none, some, List, [], ◌∷◌, if◌then◌else◌, length, Text,
}
use dts_framework.Data.Factory.{World}
use dts_framework.Infra.Console.{push_job, control_stop, control_round}
use dts_framework.Infra.Console.Server.{enter_session, leave_session, console_stop}
use dts_framework.Infra.Console.Threads.{rounds}
use dts_framework.Boot.{Env, Process, on_route_ctl, stop_worker, start, init_data}
use dts_framework.Boot.Paths.{make_console_sock_path}

-- What the other threads do: a session begins, delivers a line or ends; the middleware calls
-- `OnRouteCtl`; the workers change their data; the control thread takes a round; a signal calls
-- `Stop`.
pub data Event : Type 0 where
  enter_event : ℕ → Event
  line_event : Text → Event
  leave_event : ℕ → Event
  route_event : Option (List ℕ) → Event
  worker_event : World → Event
  control_event : Event
  stop_event : Event

module _ (exec : Text → Text → World → Text × World) where
  unfoldable pub on_event : Event → Process → Process
  unfolding enter_session leave_session push_job on_route_ctl control_round
  on_event (enter_event fd) p = record p { server = enter_session fd p.server }
  on_event (line_event line) p = record p {
    control = push_job p.control (record { line = line; resp = []; done = false; dds = false });
  }
  on_event (leave_event fd) p = record p { server = leave_session fd p.server }
  on_event (route_event payload) p = record p { control = on_route_ctl payload p.control }
  on_event (worker_event w) p = record p { world = w }
  on_event control_event p =
      let r = control_round exec p.control p.world in record p { control = r.0; world = r.1 }
  on_event stop_event p = record p { stop = true }

  unfoldable pub on_events : List Event → Process → Process
  unfolding on_event
  on_events [] p = p
  on_events (e ∷ es) p = on_events es (on_event e p)

  -- `DestroyThread` waits until the control thread has left its loop: it takes the jobs that are
  -- still in the queue, and ends.
  unfoldable pub join_control : Process → Process
  unfolding rounds control_round
  join_control p =
      let left = rounds exec (length p.control.queue) (p.control, p.world) in
      let r = control_round exec left.0 left.1 in
      if p.control_h then record p { control = r.0; world = r.1; control_h = false } else p

  -- `Process::Stop`, with the events after `control_stop` has cleared the queue and those after the
  -- end of the control thread.
  unfoldable pub stop : List Event → List Event → Process → Process
  unfolding control_stop on_events join_control console_stop stop_worker
  stop late later p =
      let joined = join_control (on_events late (record p { control = control_stop p.control })) in
      let q = on_events later joined in
      record q {
        control = record q.control { mw_up = false };
        server = (console_stop q.server).1;
        task = stop_worker q.task;
        data_ctx = stop_worker q.data_ctx;
        log = stop_worker q.log;
        comm = false;
        subs = [];
      }

  module _ (events late later : List Event) where
    unfoldable pub shut_down : Process → Process
    unfolding stop
    shut_down p = record (stop late later p) { log_up = false }

    -- `Run` from the result of `Start` on; `events` is what happens before the stop, and `none` is
    -- that `WaitStop` still waits.
    unfoldable pub run_started : Bool × Process → Option (ℕ × Process)
    unfolding shut_down on_events
    run_started (false, p) = some (3, shut_down (on_events events p))
    run_started (true, p) =
        let q = on_events events p in if q.stop then some (0, shut_down q) else none

    unfoldable pub run : Env → Option Text → Process → Option (ℕ × Process)
    unfolding run_started start stop init_data make_console_sock_path
    run env none p = some (1, record p { log_up = true })
    run env (some cfg_path) p =
        let p' = record p { log_up = true; comm = true } in
        if not env.mw_good
        then some (2, record (stop [] [] p') { log_up = false })
        else run_started (
            start env (make_console_sock_path cfg_path) (record p' {
              control = record p.control { mw_up = true };
              world = init_data env.pool p.world;
            }))
