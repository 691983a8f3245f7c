-- ===== src/Tests/Frames.antt =====
-- `Process` of contexts/data/domain/src/data_factory_v2.cpp and `Register` of
-- contexts/data/domain/src/extractor_registry.cpp, at one extractor and a region of three slots.
use dts_framework.Common.{
  ℕ, ◌≡◌, refl, true, false, none, some, Option, List, [], ◌∷◌, arith, replicate,
}
use dts_framework.Data.Ids.{cell, cell_hash_key, period_1s}
use dts_framework.Data.Aggregator.{new_aggregator, set_sink}
use dts_framework.Data.Region.{acquire, acquire_loop}
use dts_framework.Data.Registry.{ExtractorSpec, Table, table_key, of_domain}
use dts_framework.Data.Mem.{DataMemManager, acquire_block, find_region}
use dts_framework.Data.Factory.{
  bypass_full, DataFactory, World, inc64, inc32, process, extract_raw_key,
}
use dts_framework.Data.Factory.Counters.{accounted, process-accounted}
use dts_framework.Data.Factory.Gap.{all_short, is_short, process_gap}

abbrev head_slice : ExtractorSpec
head_slice = record {
  data_id = 1;
  data_type = cell;
  cache_size = 4;
  period_ticks = 10;
  need_cache = true;
  proc = some (record { offset = 10; size = 4 });
}

abbrev one_extractor : Table
one_extractor = (table_key cell 1, head_slice) ∷ []

abbrev small_mem : DataMemManager
small_mem = record {
  init = true;
  fixed_slots = [];
  regions =
      record {
        domain = cell;
        period_ticks = period_1s;
        slot_cap = 3;
        block_size = 28;
        slots = replicate 3 (record {
          used = false;
          key = 0;
          head = record { type = 0; last_tick = 0; period_ticks = 0 };
          body = 0 ∷ 0 ∷ 0 ∷ 0 ∷ [];
        });
        slot_offset = (1, 24) ∷ [];
      }
      ∷ [];
}

abbrev pub running : DataFactory
running = record {
  tick = 7;
  current_task = 1;
  seq = 41;
  proc_count = 6;
  sink = true;
  agg = set_sink new_aggregator true;
  stats = record {
    frames = 3;
    frame_max_us = 90;
    frame_budget_warn = 0;
    frame_budget_alarm = 0;
    drop_pool_full = 1;
    drop_slice_over_cap = 0;
    key_fail = 0;
    ticks = 7;
  };
  budget_warn_us = 3000;
  budget_alarm_us = 5000;
  for_each_total = 3;
  flush_total = 3;
  skip_sink = 0;
  skip_task = 2;
}

abbrev pub world : World
world = record { factory = running; mem = small_mem; table = one_extractor }

abbrev pub same : Table → Table
same t = t

-- A frame of 12 bytes, of which the slice would need 14.
abbrev short_frame : Option (List ℕ)
short_frame = some (0 ∷ 0 ∷ 5 ∷ 0 ∷ 0 ∷ 0 ∷ 6 ∷ 0 ∷ 0 ∷ 0 ∷ 1 ∷ 2 ∷ [])

sums : accounted running ≡ running.proc_count
unfolding accounted
sums = refl

process-accounted_example :
    let w = (process bypass_full same world short_frame 12 cell 80).1 in
    (accounted w.factory ≡ w.factory.proc_count) × (w.factory.proc_count ≡ inc64 6)
process-accounted_example = process-accounted same world short_frame 12 cell 80 sums

short : all_short 12 (of_domain cell one_extractor) ≡ true
unfolding all_short is_short of_domain
short = refl

got :
    (acquire_block small_mem cell period_1s (extract_raw_key cell short_frame 12) 7).0
    ≡ some (record { region = 0; slot = 2 })
unfolding acquire_block extract_raw_key find_region acquire acquire_loop cell_hash_key
got = refl

process_gap_example :
    let (out, w) = process bypass_full same world short_frame 12 cell 80 in
    (out ≡ none) × (w.factory.seq ≡ inc32 41)
process_gap_example =
    process_gap same world short_frame 12 cell 80 (record { region = 0; slot = 2 }) refl
      (omega arith) short got
