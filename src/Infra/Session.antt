-- ===== src/Infra/Session.antt =====
-- infrastructure/include/dts_def.h and dts_mw.h: the names of the sessions and messages, and the
-- middleware as the threads see it. The middleware itself is a library; here it keeps what it was
-- asked to publish, inside the process and outside of it, and `up` is whether `DtsMw` is not null.
use dts_framework.Common.{ℕ, Bool, List, [], ◌∷◌, ◌++◌, if◌then◌else◌, Text, codes}

abbrev pub session_type_dts : Text
session_type_dts = codes "DTS"

abbrev pub session_inst_task : Text
session_inst_task = codes "task"

abbrev pub session_inst_data : Text
session_inst_data = codes "data"

abbrev pub session_inst_log : Text
session_inst_log = codes "log"

abbrev pub session_inst_oam : Text
session_inst_oam = codes "oam"

abbrev pub msg_id_task_active : ℕ
msg_id_task_active = 1

abbrev pub msg_id_data_task_active : ℕ
msg_id_data_task_active = 2

abbrev pub msg_id_agent_data : ℕ
msg_id_agent_data = 3

abbrev pub msg_id_report : ℕ
msg_id_report = 4

abbrev pub msg_id_log_collect : ℕ
msg_id_log_collect = 5

abbrev pub msg_id_log_report : ℕ
msg_id_log_report = 6

abbrev pub msg_id_task_config : ℕ
msg_id_task_config = 7

abbrev pub msg_id_task_response : ℕ
msg_id_task_response = 8

abbrev pub msg_id_oam_stats_req : ℕ
msg_id_oam_stats_req = 10

abbrev pub msg_id_oam_stats_resp : ℕ
msg_id_oam_stats_resp = 11

pub record Endpoint : Type 0 where
  pub session_type : Text
  pub session_inst : Text
  pub msg_id : ℕ

abbrev pub dts_endpoint : Text → ℕ → Endpoint
dts_endpoint inst msg_id = record {
  session_type = session_type_dts;
  session_inst = inst;
  msg_id = msg_id;
}

pub record Mw : Type 0 where
  pub up : Bool
  pub internal : List (Endpoint × List ℕ)
  pub external : List (Endpoint × List ℕ)

-- A publication where `DtsMw` is tested for null first.
unfoldable pub publish_internal : Mw → Endpoint → List ℕ → Mw
publish_internal mw ep bytes =
    if mw.up then record mw { internal = mw.internal ++ (ep, bytes) ∷ [] } else mw

unfoldable pub publish_external : Mw → Endpoint → List ℕ → Mw
publish_external mw ep bytes =
    if mw.up then record mw { external = mw.external ++ (ep, bytes) ∷ [] } else mw

-- `DtsMw` as the test for null that its callers make, and `DtsMwSet`.
unfoldable pub dts_mw : Mw → Bool
dts_mw mw = mw.up

unfoldable pub dts_mw_set : Bool → Mw → Mw
dts_mw_set up mw = record mw { up = up }
