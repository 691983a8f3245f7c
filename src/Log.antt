-- ===== src/Log.antt =====
-- contexts/log/application/src/log_msg_handler.cpp: the messages of the log thread, whose state is
-- the middleware alone.
use dts_framework.Common.{ℕ, Option, none, some, List, [], ◌∷◌, ◌==◌, if◌then◌else◌, Text, codes}
use dts_framework.Infra.Thread.{msg_id_timer}
use dts_framework.Infra.Session.{
  session_type_dts, session_inst_log, msg_id_log_collect, msg_id_log_report, dts_endpoint, Mw,
  publish_external,
}
use dts_framework.Infra.MsgTable.{MsgHandler, SessionMsgTable, find_session_table}
use dts_framework.Data.Handlers.{dispatch_in}

-- `OnCollect`
unfoldable pub on_collect : Option (List ℕ) → Mw → Mw
unfolding publish_external
on_collect none mw = mw
on_collect (some payload) mw =
    publish_external mw (dts_endpoint session_inst_log msg_id_log_report) payload

abbrev pub log_handlers : List (MsgHandler Mw)
log_handlers =
    record { msg_id = msg_id_log_collect; fn = some on_collect; name = codes "log_collect" } ∷ []

abbrev pub log_groups : List (SessionMsgTable Mw)
log_groups =
    record {
      session_type = some session_type_dts;
      session_inst = some session_inst_log;
      entries = some log_handlers;
    }
    ∷ []

-- `LogMsgHandlerDispatch`
unfoldable pub log_dispatch : ℕ → Option Text → ℕ → Option (List ℕ) → ℕ → Mw → Mw
unfolding find_session_table dispatch_in
log_dispatch status session_inst msg_id payload len mw =
    if msg_id == msg_id_timer
    then mw
    else dispatch_in (find_session_table log_groups session_inst) msg_id payload mw
