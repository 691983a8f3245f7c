-- ===== src/Tests/Threads.antt =====
-- The dispatch of infrastructure/include/msg_table.h and the tasks of
-- contexts/task/domain/src/task_manager.cpp, at two entries.
use dts_framework.Common.{ℕ, ◌+◌, ◌≡◌, refl, true, none, some, List, [], ◌∷◌}
use dts_framework.Infra.MsgTable.{
  MsgHandler, id_absent, msg_ids_unique, SessionMsgTable, chars_eq, c_str_eq, inst_absent,
  groups_valid_from, session_groups_valid,
}

abbrev on_task : MsgHandler ℕ
on_task = record { msg_id = 3; fn = some (λ payload n. n + 1); name = 116 ∷ [] }

abbrev on_tick : MsgHandler ℕ
on_tick = record { msg_id = 9; fn = none; name = 117 ∷ [] }

unique : msg_ids_unique (on_task ∷ on_tick ∷ []) ≡ true
unfolding msg_ids_unique id_absent
unique = refl

abbrev group : List ℕ → SessionMsgTable ℕ
group inst = record {
  session_type = some (68 ∷ 84 ∷ []);
  session_inst = some inst;
  entries = some (on_task ∷ on_tick ∷ []);
}

valid : session_groups_valid (group (49 ∷ []) ∷ group (49 ∷ 50 ∷ []) ∷ []) ≡ true
unfolding session_groups_valid groups_valid_from inst_absent c_str_eq chars_eq
valid = refl
