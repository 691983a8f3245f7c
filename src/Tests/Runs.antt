-- ===== src/Tests/Runs.antt =====
-- A run of bootstrap/src/run.cpp in which the data thread is not made, and a command.
use dts_framework.Common.{
  ◌+◌, Text, List, to_text, arith, starts_with, ◌≡◌, refl, Bool, true, false, some, [], ◌∷◌, codes,
}
use dts_framework.Infra.Console.Server.{no_server}
use dts_framework.Boot.{Env, Process, Target, task_worker, data_worker, log_worker}
use dts_framework.Boot.Run.{Event, line_event, control_event, stop_event, enter_event, run}
use dts_framework.Boot.Events.{lines}
use dts_framework.Data.Factory.{World}
use dts_framework.Boot.Paths.{make_console_sock_path}
use dts_framework.Boot.Life.{IsDown, run-IsDown}
use dts_framework.Boot.Start.{IsNew, exit_code, new_worker}
use dts_framework.Boot.Commands.{cmd_set_data_budget}
use dts_framework.Boot.Budget.{cmd_set_data_budget-to_text}
use dts_framework.Tests.Frames.{world, running}

abbrev only_task : Target → Bool
only_task task_worker = true
only_task data_worker = false
only_task log_worker = true

abbrev env : Env
env = record {
  mw_good = true;
  pool = λ k i. (record { type = 0; last_tick = 0; period_ticks = 0 }, []);
  domain_ok = true;
  thread_ok = only_task;
  subscribe_ok = λ ep. true;
  console_calls = record { socket_ok = true; bind_ok = true; thread_ok = true };
  control_ok = true;
  task_routes = (codes "task", 1) ∷ [];
  data_routes = (codes "data", 3) ∷ [];
  log_routes = [];
  control_routes = (codes "oam", 12) ∷ [];
}

abbrev process : Process
process = record {
  stop = false;
  comm = false;
  task = new_worker;
  data_ctx = new_worker;
  log = new_worker;
  subs = [];
  control = record {
    jobs = [];
    queue = [];
    stop = false;
    exited = true;
    mw_up = false;
    published = [];
  };
  control_h = false;
  server = no_server;
  log_up = false;
  world = world;
  builtins = false;
  registry = [];
}

process-IsNew : IsNew process
process-IsNew = record {
  task = refl;
  data_ctx = refl;
  log = refl;
  server = refl;
  jobs = refl;
  exited = refl;
}

-- The commands answer with their line.
abbrev echo : Text → Text → World → Text × World
echo line resp w = (line, w)

-- A session delivers a line, which is executed, and asks for a stop.
abbrev busy_run : List Event
busy_run = enter_event 7 ∷ line_event (codes "help") ∷ control_event ∷ stop_event ∷ []

-- One more line after `control_stop`.
abbrev late_line : List Event
late_line = line_event (codes "help") ∷ []

run-IsDown_example :
    (q : Process) × (run echo busy_run late_line [] env (some (codes "etc/cpf-dts.json")) process
      ≡ some (exit_code env, q))
    × IsDown (lines late_line + lines []) q
run-IsDown_example =
    run-IsDown echo busy_run late_line [] env (codes "etc/cpf-dts.json") process process-IsNew refl

sock_path : make_console_sock_path (codes "etc/cpf-dts.json") ≡ codes "/tmp/dts-cpf-dts.sock"
unfolding make_console_sock_path starts_with
sock_path = refl

cmd_set_data_budget-to_text_example :
    let r = cmd_set_data_budget running (to_text 3500 ∷ to_text 6000 ∷ []) in
    (r.0.0 ≡ 0) × (r.1 ≡ record running { budget_warn_us = 3500; budget_alarm_us = 6000 })
cmd_set_data_budget-to_text_example =
    cmd_set_data_budget-to_text running 3500 6000 [] (omega arith) (omega arith) (omega arith)
