-- ===== src/Data/Handlers/Routing.antt =====
-- What the dispatch of contexts/data/application/src/data_msg_handler.cpp comes to.
use dts_framework.Common.{
  ℕ, ◌≡◌, refl, ap, Bool, true, false, Option, none, some, List, ◌==◌, if◌then◌else◌, Text, codes,
  Bool-cases, inl, inr,
}
use dts_framework.Infra.MsgTable.{
  find_session_table, find_session_loop, dispatch, run_found, find_handler, c_str_eq, chars_eq,
}
use dts_framework.Data.Registry.{Table}
use dts_framework.Data.Factory.{Bypass}
use dts_framework.Data.Handlers.{
  DataThread, on_task_active, on_agent_data, tick_factory, on_oam_stats_req, dispatch_in,
  data_dispatch, data_groups, active_entry, frame_entry, stats_entry,
}

module _ (bypass : Bypass) (order : Table → Table) (us : ℕ) where
  -- The messages by session and id.
  abbrev pub by_session : Option Text → ℕ → Option (List ℕ) → DataThread → DataThread
  by_session none msg_id payload d = d
  by_session (some inst) msg_id payload d =
      if chars_eq (codes "data") inst
      then if 2 == msg_id
        then on_task_active payload d
        else if 3 == msg_id
        then on_agent_data bypass order us payload d
        else d
      else if chars_eq (codes "oam") inst
      then if 10 == msg_id then on_oam_stats_req payload d else d
      else d

  data_found :
      (two three : Bool) (payload : Option (List ℕ)) (d : DataThread)
      → (run_found
          (if two
            then some active_entry
            else if three
            then some (frame_entry bypass order us)
            else none)
          payload
          d).1
        ≡ (if two
            then on_task_active payload d
            else if three
            then on_agent_data bypass order us payload d
            else d)
  unfolding run_found
  data_found true three payload d = refl
  data_found false true payload d = refl
  data_found false false payload d = refl

  oam_found :
      (ten : Bool) (payload : Option (List ℕ)) (d : DataThread)
      → (run_found (if ten then some stats_entry else none) payload d).1
        ≡ (if ten then on_oam_stats_req payload d else d)
  unfolding run_found
  oam_found true payload d = refl
  oam_found false payload d = refl

  dispatch_in-by_session :
      (inst : Option Text) (msg_id : ℕ) (payload : Option (List ℕ)) (d : DataThread)
      → dispatch_in (find_session_table (data_groups bypass order us) inst) msg_id payload d
        ≡ by_session inst msg_id payload d
  unfolding dispatch_in dispatch find_handler find_session_table find_session_loop c_str_eq
  dispatch_in-by_session none msg_id payload d = refl
  dispatch_in-by_session (some inst) msg_id payload d =
      elim (Bool-cases (chars_eq (codes "data") inst)) [
        | inl e ↦ rw e (data_found (2 == msg_id) (3 == msg_id) payload d)
        | inr e ↦ elim (Bool-cases (chars_eq (codes "oam") inst)) [
          | inl f ↦ rw (e, f) (oam_found (10 == msg_id) payload d)
          | inr f ↦ rw (e, f)
        ]
      ]

  -- The dispatch of the data thread through its tables of groups and messages comes to this: a timer
  -- message ticks, whatever its session; in session data the ids 2 and 3 go to the task and the frame
  -- handler, in session oam the id 10 to the statistics; every other message changes nothing.
  pub data_dispatch-by_session :
      (status : ℕ) (inst : Option Text) (msg_id : ℕ) (payload : Option (List ℕ)) (len : ℕ)
      (d : DataThread)
      → data_dispatch bypass order us status inst msg_id payload len d
        ≡ (if msg_id == 9 then tick_factory d else by_session inst msg_id payload d)
  unfolding data_dispatch
  data_dispatch-by_session status inst msg_id payload len d =
      ap (λ rest. if msg_id == 9 then tick_factory d else rest)
        (dispatch_in-by_session inst msg_id payload d)
