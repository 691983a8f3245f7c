-- ===== src/Boot/Life.antt =====
-- What a run of bootstrap/src/run.cpp leaves behind.
use dts_framework.Common.{
  ℕ, ◌+◌, ◌≤◌, arith, ◌≡◌, refl, ap, subst, ◌∙◌, Bool, true, false, some, List, [], Text,
  Bool-cases, inl, inr,
}
use dts_framework.Data.Factory.{World}
use dts_framework.Infra.Console.{control_stop}
use dts_framework.Infra.Console.Jobs.{stop-IsTracked}
use dts_framework.Infra.Console.Waits.{AtMost, waits, waits-stop}
use dts_framework.Infra.Console.Server.{IsIdle, console_stop}
use dts_framework.Boot.{Env, Process, stop_worker, start, init_data}
use dts_framework.Boot.Run.{Event, on_events, join_control, stop, shut_down, run_started, run}
use dts_framework.Boot.Events.{
  lines, asks, asked_stop, Same, Same-trans, Joined, events-Same, events-IsTracked, events-AtMost,
  events-exited, events-Joinable, join-Joined,
}
use dts_framework.Boot.Paths.{make_console_sock_path}
use dts_framework.Boot.Start.{
  IsNew, assembled, exit_code, IsStoppable, start-IsStoppable, unstarted-IsStoppable, start-all_ok,
}

-- No thread runs, no socket is open, the middleware is gone, and at most `n` jobs wait for an answer.
pub record IsDown (n : ℕ) (p : Process) : Type 0 where
  pub workers : (p.task.created ≡ 0) × (p.data_ctx.created ≡ 0) × (p.log.created ≡ 0)
  pub server : IsIdle p.server
  pub control : (p.control_h ≡ false) × (p.control.exited ≡ true)
  pub jobs : waits p.control.jobs ≤ n
  pub mw : (p.control.mw_up ≡ false) × (p.comm ≡ false) × (p.subs ≡ [])
  pub log : p.log_up ≡ false

fewer : (n m : ℕ) (p : Process) → n ≤ m → IsDown n p → IsDown m p
fewer n m p h d = record {
  workers = d.workers;
  server = d.server;
  control = d.control;
  jobs = omega (arith, d.jobs, h);
  mw = d.mw;
  log = d.log;
}

module _ (exec : Text → Text → World → Text × World) where
  -- What comes after the control thread.
  down :
      (n : ℕ) (late later : List Event) (p q : Process)
      → IsStoppable p
      → Same p q
      → Joined n q (join_control exec q)
      → IsDown (n + lines later) (
          let r = on_events exec later (join_control exec q) in
          record r {
            control = record r.control { mw_up = false };
            server = (console_stop r.server).1;
            task = stop_worker r.task;
            data_ctx = stop_worker r.data_ctx;
            log = stop_worker r.log;
            comm = false;
            subs = [];
            log_up = false;
          })
  down n late later p q h near j =
      let end = join_control exec q in
      let same = Same-trans near (Same-trans j.same (events-Same exec later end)) in
      let (handle, ended) = events-exited exec later end in
      record {
        workers = (
          ap (λ w. (stop_worker w).created) same.task ∙ h.task,
          ap (λ w. (stop_worker w).created) same.data_ctx ∙ h.data_ctx,
          ap (λ w. (stop_worker w).created) same.log ∙ h.log,
        );
        server = same.server h.server;
        control = (handle ∙ j.gone, ended j.exited);
        jobs = (events-AtMost exec n later end j.few).few;
        mw = (refl, refl, refl);
        log = refl;
      }

  shut_down-IsDown :
      (events late later : List Event) (p : Process)
      → IsStoppable p
      → IsDown (lines late + lines later) (shut_down exec events late later p)
  unfolding shut_down stop control_stop
  shut_down-IsDown events late later p h =
      let p' = record p { control = control_stop p.control } in
      let zero_left : AtMost 0 (control_stop p.control) = record {
        stopped = refl;
        few = omega (arith, waits-stop p.control h.tracked);
      } in
      let q = on_events exec late p' in
      let near =
        Same-trans (record { task = refl; data_ctx = refl; log = refl; server = λ i. i })
          (events-Same exec late p') in
      down (lines late) late later p q h near (
        join-Joined exec (lines late) q
          (events-IsTracked exec late p' (stop-IsTracked p.control h.tracked))
          (subst (λ n. AtMost n q.control) (let e : 0 + lines late ≡ lines late = omega arith in e)
            (events-AtMost exec 0 late p' zero_left))
          (events-Joinable exec late p' h.joinable))

  events-IsStoppable :
      (es : List Event) (p : Process) → IsStoppable p → IsStoppable (on_events exec es p)
  events-IsStoppable es p h =
      let same = events-Same exec es p in
      record {
        task = ap (λ w. (stop_worker w).created) same.task ∙ h.task;
        data_ctx = ap (λ w. (stop_worker w).created) same.data_ctx ∙ h.data_ctx;
        log = ap (λ w. (stop_worker w).created) same.log ∙ h.log;
        server = same.server h.server;
        tracked = events-IsTracked exec es p h.tracked;
        joinable = events-Joinable exec es p h.joinable;
      }

  run_started-IsDown :
      (events late later : List Event) (r : Bool × Process)
      → IsStoppable r.1
      → (on_events exec events r.1).stop ≡ true
      → (q : Process) × (run_started exec events late later r ≡ some (assembled r.0, q))
        × IsDown (lines late + lines later) q
  unfolding run_started
  run_started-IsDown events late later (ok, p) h asked =
      let q = on_events exec events p in
      (
        shut_down exec events late later q,
        by_result ok,
        shut_down-IsDown events late later q (events-IsStoppable events p h),
      )
    where
      by_result :
          (ok : Bool)
          → run_started exec events late later (ok, p)
            ≡ some (assembled ok, shut_down exec events late later (on_events exec events p))
      by_result false = refl
      by_result true = rw asked

  -- A run with a configuration path, from a new process, whatever the middleware, the scheduler, the
  -- sockets and the subscriptions return, and whatever sessions, control channel, workers and control
  -- thread do before the stop, after `control_stop` and after the end of the control thread, returns
  -- where a stop is requested among the events before it: the three workers and the console thread
  -- that were made are destroyed, the control thread has left its loop, no listening socket is open,
  -- no subscription is kept, middleware and log are down, and at most as many jobs wait for an answer
  -- as lines came in after `control_stop`. It returns 2 where the middleware is not good, else 3
  -- where the domain or a worker fails, else 0.
  pub run-IsDown :
      (events late later : List Event) (env : Env) (cfg_path : Text) (p : Process)
      → IsNew p
      → asks events ≡ true
      → (q : Process) × (run exec events late later env (some cfg_path) p ≡ some (exit_code env, q))
        × IsDown (lines late + lines later) q
  unfolding run
  run-IsDown events late later env cfg_path p new asked =
      let sock = make_console_sock_path cfg_path in
      let p' : Process = record p { log_up = true; comm = true } in
      let new' : IsNew p' = record {
        task = new.task;
        data_ctx = new.data_ctx;
        log = new.log;
        server = new.server;
        jobs = new.jobs;
        exited = new.exited;
      } in
      let ready : Process = record p' {
        control = record p.control { mw_up = true };
        world = init_data env.pool p.world;
      } in
      let r = start env sock ready in
      let (q, e, low) =
        run_started-IsDown events late later r
          (start-IsStoppable env sock ready (record {
            task = new.task;
            data_ctx = new.data_ctx;
            log = new.log;
            server = new.server;
            jobs = new.jobs;
            exited = new.exited;
          }))
          (asked_stop exec events r.1 asked) in
      elim (Bool-cases env.mw_good) [
        | inl good ↦
            rw good (q, e ∙ ap (λ b. some (assembled b, q)) (start-all_ok env sock ready), low)
        | inr bad ↦ rw bad (
          _,
          refl,
          fewer 0 (lines late + lines later) _ (omega arith)
              (shut_down-IsDown events [] [] p' (unstarted-IsStoppable p' new')),
        )
      ]
