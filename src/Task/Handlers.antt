-- ===== src/Task/Handlers.antt =====
-- contexts/task/application/src/task_msg_handler.cpp: the messages of the task thread. A payload is
-- the bytes that the pointer shows, `none` for a null pointer. The strategy that follows a created
-- task, of contexts/task/domain/src/task_strategy.cpp, only logs.
pub mod Forward
use dts_framework.Common.{
  ℕ, zero, suc, ◌+◌, Bool, true, false, ◌&&◌, Option, none, some, List, [], ◌∷◌, ltb, ◌==◌,
  if◌then◌else◌, length, read_le, Text, codes, is_nil, starts_with,
}
use dts_framework.Infra.Thread.{msg_id_timer}
use dts_framework.Infra.Session.{
  session_type_dts, session_inst_data, session_inst_task, msg_id_task_active,
  msg_id_data_task_active, msg_id_task_config, msg_id_task_response, dts_endpoint, Mw,
  publish_internal, publish_external,
}
use dts_framework.Infra.MsgTable.{MsgHandler, SessionMsgTable, find_session_table}
use dts_framework.Data.Handlers.{dispatch_in}
use dts_framework.Task.Manager.{TaskConfig, TaskManager, add_task}

pub record TaskThread : Type 0 where
  pub manager : TaskManager
  pub mw : Mw

-- A `TaskActiveMsg` is eleven 16-bit fields: id, type, number of data ids, and eight data ids.
unfoldable pub read_ids : List ℕ → ℕ → ℕ → List ℕ
read_ids payload zero off = []
read_ids payload (suc n) off = read_le payload off 2 ∷ read_ids payload n (off + 2)

unfoldable pub config_of : List ℕ → TaskConfig
config_of payload = record {
  task_id = read_le payload 0 2;
  type = read_le payload 2 2;
  data_ids = read_ids payload (read_le payload 4 2) 6;
}

-- What follows the call of `TaskFactory::Create`.
unfoldable pub created : Bool × TaskManager → List ℕ → TaskThread → TaskThread
unfolding publish_internal
created (false, manager) payload t = t
created (true, manager) payload t = record {
  manager = manager;
  mw = publish_internal t.mw (dts_endpoint session_inst_data msg_id_data_task_active) payload;
}

unfoldable pub on_task_active : Option (List ℕ) → TaskThread → TaskThread
unfolding created add_task
on_task_active none t = t
on_task_active (some payload) t =
    if ltb (length payload) 22
    then t
    else if ltb 8 (read_le payload 4 2)
    then t
    else created (add_task t.manager (config_of payload)) payload t

-- The position of the key that is logged, 0 where it was not found.
unfoldable pub key_from : ℕ → Text → ℕ
key_from i [] = 0
key_from i (c ∷ cs) =
    let rest = key_from (suc i) cs in
    if ltb 8 (length (c ∷ cs))
    then if (c == 34) && starts_with (codes "taskId") cs then i else rest
    else 0

unfoldable pub on_task_config : Option (List ℕ) → TaskThread → TaskThread
unfolding publish_external
on_task_config none t = t
on_task_config (some payload) t = if is_nil payload then t else record t {
  mw = publish_external t.mw (dts_endpoint session_inst_task msg_id_task_response) payload;
}

-- `kTaskHandlers` and `kTaskGroups`
abbrev pub task_handlers : List (MsgHandler TaskThread)
task_handlers =
    record { msg_id = msg_id_task_active; fn = some on_task_active; name = codes "task_active" }
    ∷ record { msg_id = msg_id_task_config; fn = some on_task_config; name = codes "task_config" }
    ∷ []

abbrev pub task_groups : List (SessionMsgTable TaskThread)
task_groups =
    record {
      session_type = some session_type_dts;
      session_inst = some session_inst_task;
      entries = some task_handlers;
    }
    ∷ []

-- `TaskMsgHandlerDispatch`
unfoldable pub task_dispatch : ℕ → Option Text → ℕ → Option (List ℕ) → ℕ → TaskThread → TaskThread
unfolding find_session_table dispatch_in
task_dispatch status session_inst msg_id payload len t =
    if msg_id == msg_id_timer
    then t
    else dispatch_in (find_session_table task_groups session_inst) msg_id payload t
