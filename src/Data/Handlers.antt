-- ===== src/Data/Handlers.antt =====
-- contexts/data/application/src/data_msg_handler.cpp: the messages of the data thread, and
-- bootstrap/include/data_mw_report_sink.h, where its reports go. A payload is the bytes that the
-- pointer shows, `none` for a null pointer, and its length is the one that comes with it.
pub mod Routing
pub mod Messages
use dts_framework.Common.{
  ℕ, not, Option, none, some, List, [], ◌∷◌, ◌++◌, ltb, ◌==◌, if◌then◌else◌, length, take, read_le,
  Text, codes, to_text, is_nil,
}
use dts_framework.Infra.Thread.{msg_id_timer}
use dts_framework.Infra.Session.{
  session_type_dts, session_inst_data, session_inst_oam, msg_id_data_task_active, msg_id_agent_data,
  msg_id_report, msg_id_oam_stats_req, msg_id_oam_stats_resp, dts_endpoint, Mw, publish_external,
}
use dts_framework.Infra.MsgTable.{MsgHandler, SessionMsgTable, dispatch, find_session_table}
use dts_framework.Data.Registry.{Table}
use dts_framework.Data.Factory.{Bypass, DataFactory, World, process, on_tick, stats}
use dts_framework.Data.Factory

pub record DataThread : Type 0 where
  pub world : World
  pub mw : Mw

-- `DataMwReportSink::Publish`; `none` is for no call of it.
unfoldable pub publish_report : Mw → Option (List ℕ) → Mw
unfolding publish_external
publish_report mw none = mw
publish_report mw (some report) =
    if is_nil report
    then mw
    else publish_external mw (dts_endpoint session_inst_data msg_id_report) report

-- A `TaskRequest` is a 32-bit task id and a 32-bit status.
unfoldable pub on_task_active : Option (List ℕ) → DataThread → DataThread
unfolding read_le
on_task_active none d = d
on_task_active (some payload) d =
    if ltb (length payload) 8 then d else if not (read_le payload 4 4 == 1) then d else record d {
      world = record d.world { factory = Factory.on_task d.world.factory (read_le payload 0 4) };
    }

module _ (bypass : Bypass) (order : Table → Table) (us : ℕ) where
  unfoldable pub on_agent_data : Option (List ℕ) → DataThread → DataThread
  unfolding read_le publish_report
  on_agent_data none d = d
  on_agent_data (some payload) d =
      let r =
        process bypass order d.world (some payload) (length payload) (read_le payload 0 2) us in
      if ltb (length payload) 2 then d else record { world = r.1; mw = publish_report d.mw r.0 }

-- `OnTick`
unfoldable pub tick_factory : DataThread → DataThread
tick_factory d = record d { world = on_tick d.world }

-- One `key=value` line.
abbrev pub stat_line : Text → ℕ → Text
stat_line key value = key ++ (61 ∷ (to_text value ++ 10 ∷ []))

unfoldable pub stats_text : DataFactory → Text
unfolding stats
stats_text f =
    let s = stats f in
    stat_line (codes "frames") s.frames
    ++ (stat_line (codes "max_us") s.frame_max_us
        ++ (stat_line (codes "warn") s.frame_budget_warn
            ++ (stat_line (codes "alarm") s.frame_budget_alarm
                ++ (stat_line (codes "ticks") s.ticks
                    ++ (stat_line (codes "drop_pool_full") s.drop_pool_full
                        ++ (stat_line (codes "drop_slice_overcap") s.drop_slice_over_cap
                            ++ (stat_line (codes "key_fail") s.key_fail
                                ++ (stat_line (codes "budget_warn_us") f.budget_warn_us
                                    ++ stat_line (codes "budget_alarm_us") f.budget_alarm_us))))))))

-- The buffer of `snprintf` has 512 bytes, the last one for the terminator.
unfoldable pub on_oam_stats_req : Option (List ℕ) → DataThread → DataThread
unfolding stats_text publish_external
on_oam_stats_req payload d = record d {
  mw =
      publish_external d.mw (dts_endpoint session_inst_oam msg_id_oam_stats_resp)
        (take 511 (stats_text d.world.factory));
}

abbrev pub active_entry : MsgHandler DataThread
active_entry = record {
  msg_id = msg_id_data_task_active;
  fn = some on_task_active;
  name = codes "data_task_active";
}

abbrev pub stats_entry : MsgHandler DataThread
stats_entry = record {
  msg_id = msg_id_oam_stats_req;
  fn = some on_oam_stats_req;
  name = codes "oam_stats_req";
}

module _ (bypass : Bypass) (order : Table → Table) (us : ℕ) where
  abbrev pub frame_entry : MsgHandler DataThread
  frame_entry = record {
    msg_id = msg_id_agent_data;
    fn = some (on_agent_data bypass order us);
    name = codes "agent_data";
  }

  -- `kDataHandlers` and `kOamHandlers`
  abbrev pub data_handlers : List (MsgHandler DataThread)
  data_handlers = active_entry ∷ frame_entry ∷ []

  abbrev pub oam_handlers : List (MsgHandler DataThread)
  oam_handlers = stats_entry ∷ []

  -- `kDataGroups`
  abbrev pub data_groups : List (SessionMsgTable DataThread)
  data_groups =
      record {
        session_type = some session_type_dts;
        session_inst = some session_inst_data;
        entries = some data_handlers;
      }
      ∷ record {
        session_type = some session_type_dts;
        session_inst = some session_inst_oam;
        entries = some oam_handlers;
      }
      ∷ []

-- The end of a thread's dispatch, by the group that was found.
unfoldable pub dispatch_in : {S : Type 0} → Option (SessionMsgTable S) → ℕ → Option (List ℕ) → S → S
unfolding dispatch
dispatch_in none msg_id payload s = s
dispatch_in (some g) msg_id payload s = elim g.entries [
  | none ↦ s
  | some hs ↦ (dispatch hs msg_id payload s).1
]

module _ (bypass : Bypass) (order : Table → Table) (us : ℕ) where
  -- `DataMsgHandlerDispatch`
  unfoldable pub data_dispatch : ℕ → Option Text → ℕ → Option (List ℕ) → ℕ → DataThread → DataThread
  unfolding tick_factory find_session_table dispatch_in
  data_dispatch status session_inst msg_id payload len d =
      if msg_id == msg_id_timer
      then tick_factory d
      else dispatch_in (find_session_table (data_groups bypass order us) session_inst) msg_id
          payload d
