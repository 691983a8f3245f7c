-- ===== src/Web/ReportFrame.antt =====
-- webserver/src/report_frame.h: the view of a report frame that the web server keeps.
-- A null `data` is `none`. `sliceCount` and `pos` stay far below their widths: the loop ends at
-- 1000 slices, and `pos` at the length of the body.
pub mod Scanning
pub mod RoundTrip
use dts_framework.Common.{
  ℕ, zero, suc, ◌+◌, ◌-◌, Bool, true, false, Option, none, some, List, ltb, leb, if◌then◌else◌,
  read_le,
}
use dts_framework.Data.Aggregator.{header_size, sub_header_size}

pub record ReportView : Type 0 where
  pub task_id : ℕ
  pub timestamp_ms : ℕ
  pub seq : ℕ
  pub payload_len : ℕ
  pub slice_count : ℕ
  pub data_id_min : ℕ
  pub data_id_max : ℕ
  pub frame_len : ℕ

abbrev pub zero_view : ReportView
zero_view = record {
  task_id = 0;
  timestamp_ms = 0;
  seq = 0;
  payload_len = 0;
  slice_count = 0;
  data_id_min = 0;
  data_id_max = 0;
  frame_len = 0;
}

-- `sliceCount`, `minId` and `maxId` of the loop.
pub record Scan : Type 0 where
  pub count : ℕ
  pub min_id : ℕ
  pub max_id : ℕ

abbrev pub slice_limit : ℕ
slice_limit = 1000

scan_step : Scan → ℕ → Scan
scan_step s data_id = record {
  count = s.count + 1;
  min_id = if ltb data_id s.min_id then data_id else s.min_id;
  max_id = if ltb s.max_id data_id then data_id else s.max_id;
}

-- The `while` loop, with the number of slices that `sliceCount < 1000` still lets in.
unfoldable pub scan : ℕ → List ℕ → ℕ → ℕ → Scan → Scan
unfolding scan_step read_le
scan zero frame body pos s = s
scan (suc left) frame body pos s =
    let data_id = read_le frame (header_size + pos) 2 in
    let len = read_le frame (header_size + pos + 2) 2 in
    let rest = scan left frame body (pos + sub_header_size + len) (scan_step s data_id) in
    let inside = if ltb body (pos + sub_header_size + len) then s else rest in
    if leb (pos + sub_header_size) body then inside else s

view_of : List ℕ → ℕ → Scan → ReportView
unfolding read_le
view_of frame len s = record {
  task_id = read_le frame 0 4;
  timestamp_ms = read_le frame 8 8;
  seq = read_le frame 16 4;
  payload_len = read_le frame 20 4;
  slice_count = s.count;
  data_id_min = if ltb 0 s.count then s.min_id else 0;
  data_id_max = s.max_id;
  frame_len = len;
}

-- The loop from the start of the body. Callers keep it shut: it would unroll.
unfoldable pub scan_body : List ℕ → ℕ → Scan
scan_body frame body =
    scan slice_limit frame body 0 (record { count = 0; min_id = 0xffff; max_id = 0 })

unfoldable pub parse_report : Option (List ℕ) → ℕ → Bool × ReportView
unfolding view_of
parse_report none len = (false, zero_view)
parse_report (some frame) len =
    if ltb len header_size
    then (false, zero_view)
    else (true, view_of frame len (scan_body frame (len - header_size)))
