-- ===== src/Data/Aggregator.antt =====
-- contexts/data/domain/include/report_aggregator.h and src/report_aggregator.cpp.
-- `m_buf` is the whole array of `k_cap` bytes; `m_sink` is whether a sink is set, and what it is
-- handed is the result of `flush`. `ReportHeader` takes 24 bytes: the `uint64_t` behind `taskId`
-- is aligned to 8, so bytes 4 to 7 are padding that nothing writes.
pub mod Frame
pub mod Accepted
pub mod Layout
pub mod Publish
use dts_framework.Common.{
  ℕ, ◌+◌, ◌-◌, ◌*◌, ◌%◌, ◌^◌, Bool, false, ◌||◌, not, Option, none, some, List, ◌++◌, ltb, leb,
  if◌then◌else◌, take, replicate, splice, to_le,
}

abbrev pub k_cap : ℕ
k_cap = 48 * 1024

-- `sizeof(ReportHeader)` and `sizeof(SubHeader)`
abbrev pub header_size : ℕ
header_size = 24

abbrev pub sub_header_size : ℕ
sub_header_size = 4

pub record ReportAggregator : Type 0 where
  pub sink : Bool
  pub task_id : ℕ
  pub used : ℕ
  pub drops : ℕ
  pub buf : List ℕ

unfoldable pub new_aggregator : ReportAggregator
new_aggregator = record { sink = false; task_id = 0; used = 0; drops = 0; buf = replicate k_cap 0 }

unfoldable pub set_sink : ReportAggregator → Bool → ReportAggregator
set_sink a s = record a { sink = s }

unfoldable pub begin : ReportAggregator → ℕ → ReportAggregator
begin a task_id = record a { task_id = task_id; used = header_size }

-- The second `memcpy` of `Add`, which a null cache or a length of 0 skips.
copy_cache : ReportAggregator → Option (List ℕ) → ℕ → ReportAggregator
copy_cache a none len = a
copy_cache a (some cache) len =
    if ltb 0 len
    then record a { buf = splice a.buf a.used (take len cache); used = a.used + len }
    else a

unfoldable pub add : ReportAggregator → ℕ → Option (List ℕ) → ℕ → ReportAggregator
unfolding copy_cache
add a data_id cache len =
    if ltb k_cap (a.used + sub_header_size + len)
    then record a { drops = (a.drops + 1) % 2 ^ 64 }
    else copy_cache
        (record a {
          buf = splice a.buf a.used (to_le 2 data_id ++ to_le 2 (len % 2 ^ 16));
          used = a.used + sub_header_size;
        })
        cache len

-- The four header fields, at their offsets.
pub write_header : List ℕ → ℕ → ℕ → ℕ → ℕ → List ℕ
write_header buf task_id timestamp_ms seq payload_len =
    splice
      (splice (splice (splice buf 0 (to_le 4 task_id)) 8 (to_le 8 timestamp_ms)) 16 (to_le 4 seq))
      20 (to_le 4 payload_len)

-- What `Publish` is handed, if it is called, and the new state.
unfoldable pub flush : ReportAggregator → ℕ → ℕ → Option (List ℕ) × ReportAggregator
unfolding write_header
flush a timestamp_ms seq = if not a.sink || leb a.used header_size then (none, a) else (
  some (take a.used (write_header a.buf a.task_id timestamp_ms seq (a.used - header_size))),
  record a { buf = write_header a.buf a.task_id timestamp_ms seq (a.used - header_size); used = 0 },
)
