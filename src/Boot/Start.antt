-- ===== src/Boot/Start.antt =====
-- A process of bootstrap/src/run.cpp before and after its start.
use dts_framework.Common.{
  ℕ, arith, length, ◌≡◌, refl, sym, ap, subst, Bool, true, false, not, ◌&&◌, some, [], Text,
  Bool-cases, inl, inr, if◌then◌else◌,
}
use dts_framework.Infra.Console.{Control, control_start}
use dts_framework.Infra.Console.Jobs.{IsTracked}
use dts_framework.Infra.Console.Server.{IsIdle, no_server, console_start, console_stop, stop-IsIdle}
use dts_framework.Boot.{
  Env, Process, Worker, task_worker, data_worker, log_worker, start_worker, stop_worker,
  start_workers, start_control, start,
}
use dts_framework.Boot.Events.{Joinable}

-- Before the first run.
pub record IsNew (p : Process) : Type 0 where
  pub task : p.task ≡ record { h = false; stop = false; created = 0 }
  pub data_ctx : p.data_ctx ≡ record { h = false; stop = false; created = 0 }
  pub log : p.log ≡ record { h = false; stop = false; created = 0 }
  pub server : p.server ≡ no_server
  pub jobs : p.control.jobs ≡ []
  pub exited : p.control.exited ≡ true

abbrev pub new_worker : Worker
new_worker = record { h = false; stop = false; created = 0 }

worker_back :
    (b : Bool) (w : Worker) → w ≡ new_worker → (stop_worker (start_worker b w).1).created ≡ 0
unfolding start_worker stop_worker
worker_back true w e = ap (λ v. (stop_worker (start_worker true v).1).created) e
worker_back false w e = ap (λ v. (stop_worker (start_worker false v).1).created) e

-- What is left to show of a process that is stopped.
pub record IsStoppable (p : Process) : Type 0 where
  pub task : (stop_worker p.task).created ≡ 0
  pub data_ctx : (stop_worker p.data_ctx).created ≡ 0
  pub log : (stop_worker p.log).created ≡ 0
  pub server : IsIdle (console_stop p.server).1
  pub tracked : IsTracked p.control
  pub joinable : Joinable p

-- What the start of all workers returns.
abbrev pub all_ok : Env → Bool
all_ok env =
    env.domain_ok
    && (env.thread_ok task_worker && (env.thread_ok data_worker && env.thread_ok log_worker))

started : (b : Bool) (w : Worker) → (start_worker b w).0 ≡ b
unfolding start_worker
started true w = refl
started false w = refl

and_turned : (a b c d : Bool) → (d && (c && (b && a))) ≡ (a && (b && (c && d)))
and_turned a b c d = ground arith

pub start-all_ok : (env : Env) (sock : Text) (p : Process) → (start env sock p).0 ≡ all_ok env
unfolding start start_workers
start-all_ok env sock p =
    rw
      (
        started (env.thread_ok task_worker) p.task,
        started (env.thread_ok data_worker) p.data_ctx,
        started (env.thread_ok log_worker) p.log,
      )
      (and_turned env.domain_ok (env.thread_ok task_worker) (env.thread_ok data_worker)
        (env.thread_ok log_worker))

no_jobs : (m : Control) → m.jobs ≡ [] → IsTracked m
no_jobs m e i low open_job = absurd (omega (arith, ap length e))

pub start-IsStoppable :
    (env : Env) (sock : Text) (p : Process) → IsNew p → IsStoppable (start env sock p).1
unfolding start start_control start_workers control_start
start-IsStoppable env sock p new = record {
  task = worker_back (env.thread_ok task_worker) p.task new.task;
  data_ctx = worker_back (env.thread_ok data_worker) p.data_ctx new.data_ctx;
  log = worker_back (env.thread_ok log_worker) p.log new.log;
  server =
      subst (λ v. IsIdle (console_stop (console_start env.console_calls (some sock) v).1).1)
        (sym new.server) (stop-IsIdle env.console_calls sock);
  tracked = no_jobs p.control new.jobs;
  joinable = elim (Bool-cases env.control_ok) [
    | inl made ↦ inl made
    | inr none_made ↦ inr (ap not none_made)
  ];
}

pub unstarted-IsStoppable : (p : Process) → IsNew p → IsStoppable p
unfolding stop_worker console_stop
unstarted-IsStoppable p new = record {
  task = ap (λ v. (stop_worker v).created) new.task;
  data_ctx = ap (λ v. (stop_worker v).created) new.data_ctx;
  log = ap (λ v. (stop_worker v).created) new.log;
  server = subst (λ v. IsIdle (console_stop v).1) (sym new.server) (refl, refl, refl, refl);
  tracked = no_jobs p.control new.jobs;
  joinable = inr new.exited;
}

-- What `Run` returns by the result of `Start`, and with a middleware.
abbrev pub assembled : Bool → ℕ
assembled ok = if ok then 0 else 3

abbrev pub exit_code : Env → ℕ
exit_code env = if env.mw_good then assembled (all_ok env) else 2
