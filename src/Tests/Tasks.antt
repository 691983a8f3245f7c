-- ===== src/Tests/Tasks.antt =====
-- The messages of the task and data threads, and the tasks of contexts/data/domain/src/tdmap_v2.cpp.
use dts_framework.Common.{
  ℕ, ◌+◌, ◌*◌, ◌≡◌, refl, true, ◌&&◌, none, some, List, [], ◌∷◌, arith, ◌==◌, if◌then◌else◌,
  read_le, codes, lookup, contains,
}
use dts_framework.Infra.Session.{Mw, dts_endpoint}
use dts_framework.Infra.MsgTable.{
  id_absent, inst_absent, chars_eq, c_str_eq, groups_valid_from, session_groups_valid,
  msg_ids_unique,
}
use dts_framework.Data.Ids.{spec_of}
use dts_framework.Data.Factory.{bypass_full}
use dts_framework.Data.Handlers.{
  DataThread, data_dispatch, data_groups, data_handlers, tick_factory,
}
use dts_framework.Data.Handlers.Routing.{by_session, data_dispatch-by_session}
use dts_framework.Data.TdMap.{upsert_task, empty_map, has_type, tasks_of_data_id, active_data_ids}
use dts_framework.Data.TdMap.Index.{
  run_call, TdCall, upsert_call, run_calls, tracks, tasks_of_data_id-tracks,
}
use dts_framework.Data.TdMap.Active.{any_task, active_data_ids-any_task}
use dts_framework.Task.Manager.{add_task}
use dts_framework.Task.Handlers.{TaskThread, on_task_active, task_groups, task_handlers}
use dts_framework.Task.Handlers.Forward.{forwarded_task}
use dts_framework.Tests.Frames.{world, same}

abbrev mw : Mw
mw = record { up = true; internal = []; external = [] }

abbrev data_thread : DataThread
data_thread = record { world = world; mw = mw }

abbrev task_thread : TaskThread
task_thread = record { manager = []; mw = mw }

-- Task 7 of type 1 with the two data ids 3 and 4.
abbrev activation : List ℕ
activation =
    7 ∷ 0 ∷ 1 ∷ 0 ∷ 2 ∷ 0 ∷ 3 ∷ 0 ∷ 4 ∷ 0 ∷ 0 ∷ 0 ∷ 0 ∷ 0 ∷ 0 ∷ 0 ∷ 0 ∷ 0 ∷ 0 ∷ 0 ∷ 0 ∷ 0 ∷ []

forwarded_task_example :
    ((on_task_active (some activation) task_thread).mw.internal
      ≡ (dts_endpoint (codes "data") 2, activation) ∷ [])
    × ((data_dispatch bypass_full same 10 0
          (some (codes "data"))
          2
          (some activation)
          22
          data_thread).world.factory.current_task
        ≡ (if (read_le activation 4 2 == 1) && (read_le activation 6 2 == 0)
            then read_le activation 0 2 + 65536 * read_le activation 2 2
            else 1))
unfolding read_le add_task lookup
forwarded_task_example =
    forwarded_task bypass_full same 10 activation task_thread data_thread 0 refl (omega arith)
      (omega arith) refl

data_dispatch-by_session_example :
    data_dispatch bypass_full same 10 0 (some (codes "oam")) 10 none 0 data_thread ≡ (
      if 10 == 9
      then tick_factory data_thread
      else by_session bypass_full same 10 (some (codes "oam")) 10 none data_thread)
data_dispatch-by_session_example =
    data_dispatch-by_session bypass_full same 10 0 (some (codes "oam")) 10 none 0 data_thread

-- The compile-time checks of the tables.
data_groups_valid : session_groups_valid (data_groups bypass_full same 10) ≡ true
unfolding session_groups_valid groups_valid_from c_str_eq chars_eq inst_absent
data_groups_valid = refl

data_ids_unique : msg_ids_unique (data_handlers bypass_full same 10) ≡ true
unfolding msg_ids_unique id_absent
data_ids_unique = refl

task_groups_valid : session_groups_valid task_groups ≡ true
unfolding session_groups_valid groups_valid_from c_str_eq chars_eq inst_absent
task_groups_valid = refl

task_ids_unique : msg_ids_unique task_handlers ≡ true
unfolding msg_ids_unique id_absent
task_ids_unique = refl

abbrev calls : List TdCall
calls =
    upsert_call (record { task_id = 5; data_ids = 3 ∷ 4 ∷ []; period_ms = 1000 })
    ∷ upsert_call (record { task_id = 6; data_ids = 4 ∷ 900 ∷ []; period_ms = 1000 })
    ∷ upsert_call (record { task_id = 5; data_ids = 4 ∷ []; period_ms = 1000 })
    ∷ []

tasks_of_data_id-tracks_example :
    let m = run_calls empty_map calls in
    contains 5 (tasks_of_data_id m 4) ≡ tracks (lookup 5 m.tasks) 4
tasks_of_data_id-tracks_example = tasks_of_data_id-tracks calls 5 4

active_data_ids-any_task_example :
    let m = run_calls empty_map calls in
    contains 900 (active_data_ids m 1) ≡ (has_type 1 (spec_of 900) && any_task 900 m.tasks)
active_data_ids-any_task_example = active_data_ids-any_task calls 1 900

both_tasks :
    let m = run_calls empty_map calls in
    (tasks_of_data_id m 4 ≡ 6 ∷ 5 ∷ [])
    × (tasks_of_data_id m 3 ≡ [])
    × (active_data_ids m 0 ≡ 4 ∷ [])
unfolding run_calls tasks_of_data_id lookup run_call upsert_task active_data_ids spec_of
both_tasks = (refl, refl, refl)
