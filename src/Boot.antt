-- ===== src/Boot.antt =====
-- bootstrap/src/run.cpp: the parts, the start and the callbacks of the process. What the libraries and
-- the system return is an `Env`; the entries of the threads are not started here, only the threads are
-- counted.
pub mod Paths
pub mod Commands
pub mod Budget
pub mod Run
pub mod Events
pub mod Start
pub mod Life
pub mod Signal
use dts_framework.Common.{
  ℕ, suc, ◌-◌, Bool, true, false, ◌&&◌, not, Option, none, some, List, [], ◌∷◌, ◌++◌, if◌then◌else◌,
  Text, codes, c_str,
}
use dts_framework.Infra.Session.{Endpoint, dts_endpoint}
use dts_framework.Infra.Ctl.{Registry, register_command}
use dts_framework.Infra.Ctl.Builtins.{register_builtins}
use dts_framework.Data.Region.{CacheHead}
use dts_framework.Data.Mem.{init_pools}
use dts_framework.Data.Registry.{init_extractors}
use dts_framework.Data.Factory.{World, set_report_sink}
use dts_framework.Infra.Thread.{MailMsg, send}
use dts_framework.Infra.Console.{Control, submit_dds, control_start}
use dts_framework.Infra.Console.Server.{Server, StartCalls, console_start}

-- The three workers; a subscription of the control channel has none.
pub data Target : Type 0 where
  task_worker data_worker log_worker : Target

pub record Subscription : Type 0 where
  pub ep : Endpoint
  pub thread : Option Target

-- The functions of the commands, of this file and of infrastructure/src/ctl.cpp.
pub data CommandFn : Type 0 where
  help get_threads set_log_level get_handlers get_data_stats set_data_budget : CommandFn

-- A route of a generated table: `sessionInst` and `msgId`.
abbrev pub Routes : Type 0
Routes = List (Text × ℕ)

pub record Env : Type 0 where
  pub mw_good : Bool
  pub pool : ℕ → ℕ → CacheHead × List ℕ
  pub domain_ok : Bool
  pub thread_ok : Target → Bool
  pub subscribe_ok : Endpoint → Bool
  pub console_calls : StartCalls
  pub control_ok : Bool
  pub task_routes : Routes
  pub data_routes : Routes
  pub log_routes : Routes
  pub control_routes : Routes

-- `stop` is `m_stop` of the context, `created` the threads that were made and not destroyed. Whether
-- `DtsMwSet` was last given a middleware is `mw_up` of the control part.
pub record Worker : Type 0 where
  pub h : Bool
  pub stop : Bool
  pub created : ℕ

pub record Process : Type 0 where
  pub stop : Bool
  pub comm : Bool
  pub task : Worker
  pub data_ctx : Worker
  pub log : Worker
  pub subs : List Subscription
  pub control : Control
  pub control_h : Bool
  pub server : Server
  pub log_up : Bool
  pub world : World
  pub builtins : Bool
  pub registry : Registry CommandFn

-- `OnRouteMsg`: the target and its message, `none` where the context is not valid.
unfoldable pub on_route_msg :
    Option Subscription → Option (List ℕ) → (Target → List MailMsg) → Option (Target × List MailMsg)
unfolding send
on_route_msg none payload boxes = none
on_route_msg (some sub) payload boxes = elim sub.thread [
  | none ↦ none
  | some w ↦ some (w, send (boxes w) sub.ep.msg_id payload (some (c_str sub.ep.session_inst)))
]

-- `OnRouteCtl`
unfoldable pub on_route_ctl : Option (List ℕ) → Control → Control
unfolding submit_dds
on_route_ctl payload m = (submit_dds m payload).1

unfoldable pub start_worker : Bool → Worker → Bool × Worker
start_worker true w = (true, record w { h = true; created = suc w.created })
start_worker false w = (false, record w { h = false })

unfoldable pub stop_worker : Worker → Worker
stop_worker w = if not w.h then w else record w { stop = true; created = w.created - 1 }

-- `RegisterSubRoutes` and, without a target, `RegisterCtlRoutes`
unfoldable pub register_routes :
    (Endpoint → Bool) → Option Target → Routes → List Subscription → List Subscription
register_routes subscribe thread [] subs = subs
register_routes subscribe thread ((inst, msg_id) ∷ routes) subs =
    let ep = dts_endpoint inst msg_id in
    register_routes subscribe thread routes
      (if subscribe ep then subs ++ record { ep = ep; thread = thread } ∷ [] else subs)

-- `Process::Start`
unfoldable pub start_workers : Env → Process → Bool × Process
unfolding start_worker
start_workers env p =
    let t = start_worker (env.thread_ok task_worker) p.task in
    let d = start_worker (env.thread_ok data_worker) p.data_ctx in
    let l = start_worker (env.thread_ok log_worker) p.log in
    (l.0 && (d.0 && (t.0 && env.domain_ok)), record p { task = t.1; data_ctx = d.1; log = l.1 })

-- `control_start` with the commands that it registers.
unfoldable pub start_control : Env → Process → Process
unfolding control_start register_routes register_builtins
start_control env p =
    let r = control_start p.control env.control_ok in
    let b = register_builtins help get_threads set_log_level p.builtins p.registry in
    let subs = register_routes env.subscribe_ok none env.control_routes p.subs in
    record p {
      control = r.1;
      control_h = r.0;
      subs = if r.0 then subs else p.subs;
      builtins = b.0;
      registry = b.1;
    }

-- The commands of this file; a taken name leaves the registry as it is.
unfoldable pub register_own : Registry CommandFn → Registry CommandFn
unfolding register_command
register_own r =
    let one =
      (register_command r (record {
        name = some (codes "get_handlers");
        usage = codes "get_handlers [task|data|log] 查看线程消息表（msgId→处理函数）";
        fn = some get_handlers;
      })).1 in
    let two =
      (register_command one (record {
        name = some (codes "get_data_stats");
        usage = codes "get_data_stats 查看 data 线程处理统计（帧耗时预算/丢弃计数）";
        fn = some get_data_stats;
      })).1 in
    (register_command two (record {
      name = some (codes "set_data_budget");
      usage = codes "set_data_budget <warn_us> <alarm_us> 调整 data 帧耗时预算阈值";
      fn = some set_data_budget;
    })).1

unfoldable pub start : Env → Text → Process → Bool × Process
unfolding start_workers register_routes start_control console_start register_own
start env console_sock p =
    let w = start_workers env p in
    let subs = register_routes env.subscribe_ok (some log_worker) env.log_routes (
      register_routes env.subscribe_ok (some data_worker) env.data_routes
        (register_routes env.subscribe_ok (some task_worker) env.task_routes p.subs)) in
    let server = (console_start env.console_calls (some console_sock) p.server).1 in
    let c = start_control env (record w.1 { subs = subs; server = server }) in
    (w.0, record c { registry = register_own c.registry })

-- Step 2.5 of `Run`: the memory, the extractors and the sink of the data thread.
unfoldable pub init_data : (ℕ → ℕ → CacheHead × List ℕ) → World → World
unfolding init_pools init_extractors set_report_sink
init_data pool w = record {
  factory = set_report_sink w.factory true;
  mem = init_pools pool w.mem;
  table = init_extractors w.table;
}
