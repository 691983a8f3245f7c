-- ===== src/Tests/Views.antt =====
-- The statistics of webserver/src/stats.h, at two reports.
use dts_framework.Common.{
  ℕ, ◌+◌, ◌%◌, ◌^◌, ◌≡◌, refl, true, List, [], ◌∷◌, length, replicate, arith,
}
use dts_framework.Web.ReportFrame.{ReportView}
use dts_framework.Web.Stats.{Stats, on_reports}
use dts_framework.Web.Stats.Runs.{on_reports-Consecutive}

abbrev view : ℕ → ReportView
view seq = record {
  task_id = 1;
  timestamp_ms = 500;
  seq = seq;
  payload_len = 11;
  slice_count = 2;
  data_id_min = 3;
  data_id_max = 258;
  frame_len = 35;
}

-- The next sequence number after 2 ^ 32 - 1 is 0.
abbrev two_reports : List (ReportView × ℕ)
two_reports = (view 4294967295, 1000) ∷ (view 0, 1001) ∷ []

abbrev before : Stats
before = record {
  total_frames = 5;
  total_bytes = 175;
  gaps = 1;
  last_seq = 4294967294;
  last_task_id = 1;
  has_last_seq = true;
  buckets = replicate 60 (record { sec = 0; frames = 0; bytes = 0 });
}

on_reports-Consecutive_example :
    ((on_reports before two_reports).gaps ≡ 1)
    × ((on_reports before two_reports).total_frames % 2 ^ 64 ≡ (5 + length two_reports) % 2 ^ 64)
on_reports-Consecutive_example =
    on_reports-Consecutive before two_reports refl (omega arith, (omega arith, tt))
