-- ===== src/Data/Factory.antt =====
-- contexts/data/domain/include/data_factory_v2.h and src/data_factory_v2.cpp.
-- `DataFactory`, the memory manager and the extractor table are singletons: one record `World`.
-- The clock (`us`, the time that a frame took), the environment's bypass mode and the iteration
-- order of the table are arguments; logging and the once-a-second rate line are left out. `sink`
-- is whether a sink is set, and what `Publish` is handed is part of the result.
pub mod Counters
pub mod Gap
pub mod Slices
pub mod Cells
pub mod New
pub mod Running
use dts_framework.Common.{
  ℕ, ◌+◌, ◌*◌, ◌%◌, ◌^◌, Bool, true, false, ◌||◌, Option, none, some, List, [], ◌∷◌, ltb, leb, ◌==◌,
  if◌then◌else◌, read_le, max, not,
}
use dts_framework.Data.Ids.{cell, cell_hash_key, ue_hash_key, tick_ms, period_1s}
use dts_framework.Data.Aggregator
use dts_framework.Data.Aggregator.{ReportAggregator}
use dts_framework.Data.Registry.{ExtractorSpec, Table, extra, hton, of_domain}
use dts_framework.Data.Mem
use dts_framework.Data.Mem.{Block, DataMemManager}

pub data Bypass : Type 0 where
  bypass_full bypass_recv bypass_process : Bypass

pub record DataStats : Type 0 where
  pub frames : ℕ
  pub frame_max_us : ℕ
  pub frame_budget_warn : ℕ
  pub frame_budget_alarm : ℕ
  pub drop_pool_full : ℕ
  pub drop_slice_over_cap : ℕ
  pub key_fail : ℕ
  pub ticks : ℕ

pub record DataFactory : Type 0 where
  pub tick : ℕ
  pub current_task : ℕ
  pub seq : ℕ
  pub proc_count : ℕ
  pub sink : Bool
  pub agg : ReportAggregator
  pub stats : DataStats
  pub budget_warn_us : ℕ
  pub budget_alarm_us : ℕ
  pub for_each_total : ℕ
  pub flush_total : ℕ
  pub skip_sink : ℕ
  pub skip_task : ℕ

pub record World : Type 0 where
  pub factory : DataFactory
  pub mem : DataMemManager
  pub table : Table

-- 64-bit and 32-bit counters
abbrev pub inc64 : ℕ → ℕ
inc64 n = (n + 1) % 2 ^ 64

abbrev pub inc32 : ℕ → ℕ
inc32 n = (n + 1) % 2 ^ 32

unfoldable pub extract_raw_key : ℕ → Option (List ℕ) → ℕ → ℕ
unfolding read_le
extract_raw_key data_type none len = 0
extract_raw_key data_type (some raw) len =
    if ltb len 10
    then 0
    else if data_type == cell
    then cell_hash_key (read_le raw 2 4) (read_le raw 6 4)
    else ue_hash_key (read_le raw 2 4) (read_le raw 6 4)

-- 0 for accepted, 1 for the source's -1
unfoldable pub set_budget : DataFactory → ℕ → ℕ → Bool × DataFactory
set_budget f warn alarm =
    if (warn == 0) || (alarm == 0) || ltb alarm warn
    then (false, f)
    else (true, record f { budget_warn_us = warn; budget_alarm_us = alarm })

unfoldable pub on_task : DataFactory → ℕ → DataFactory
on_task f task_id = record f { current_task = task_id }

unfoldable pub set_report_sink : DataFactory → Bool → DataFactory
set_report_sink f s = record f { sink = s; agg = Aggregator.set_sink f.agg s }

-- What the callback of `Process` does with one spec: the memory, the aggregator and the count of
-- slices.
pub record Pass : Type 0 where
  pub mem : DataMemManager
  pub agg : ReportAggregator
  pub count : ℕ

unfoldable pub add_slice : Pass → ExtractorSpec → DataMemManager → List ℕ → Pass
add_slice p s mem cache = record {
  mem = mem;
  agg = Aggregator.add p.agg s.data_id (some (hton cache)) s.cache_size;
  count = inc64 p.count;
}

-- The slice goes to its slot in the block, and what the report gets is read back from there.
unfoldable pub in_block : Block → Pass → ExtractorSpec → Option ℕ → Option (List ℕ) → Pass
unfolding add_slice
in_block block p s none bytes = p
in_block block p s (some offset) none = p
in_block block p s (some offset) (some bytes) =
    let mem = Mem.write_slot p.mem block offset bytes in
    add_slice p s mem (Mem.read_slot mem block offset s.cache_size)

unfoldable pub in_fixed : Pass → ExtractorSpec → Option (List ℕ) → Option (List ℕ) → Pass
unfolding add_slice
in_fixed p s none bytes = p
in_fixed p s (some slot) none = p
in_fixed p s (some slot) (some bytes) = add_slice p s (Mem.write_fixed p.mem s.data_id bytes) bytes

unfoldable pub visit : Block → Option (List ℕ) → ℕ → Pass → ExtractorSpec → Pass
unfolding in_block in_fixed
visit block raw len p s = elim s.proc [
  | none ↦ p
  | some proc ↦
      if s.need_cache
      then in_block block p s (Mem.slot_of p.mem block s.data_id) (extra proc raw len)
      else in_fixed p s (Mem.fixed_slot p.mem s.data_id) (extra proc raw len)
]

unfoldable pub visit_all : Block → Option (List ℕ) → ℕ → Pass → List ExtractorSpec → Pass
visit_all block raw len p [] = p
visit_all block raw len p (s ∷ ss) = visit_all block raw len (visit block raw len p s) ss

-- What the end of `Process` counts for a frame that took `us`.
unfoldable pub count_frame : DataFactory → ℕ → DataStats
count_frame f us =
    let s = record f.stats {
      frames = inc64 f.stats.frames;
      frame_max_us = max f.stats.frame_max_us us;
    } in
    if leb f.budget_alarm_us us
    then record s { frame_budget_alarm = inc64 s.frame_budget_alarm }
    else if leb f.budget_warn_us us
    then record s { frame_budget_warn = inc64 s.frame_budget_warn }
    else s

unfoldable pub count_key : DataFactory → ℕ → DataFactory
count_key f key =
    if key == 0
    then record f { stats = record f.stats { key_fail = inc64 f.stats.key_fail } }
    else f

-- What `Publish` was handed, if anything, and the new state.
unfoldable pub publish_pass : World → ℕ → DataFactory → Pass → Option (List ℕ) × World
unfolding count_frame
publish_pass w us f p =
    let seq = inc32 f.seq in
    let flushed = Aggregator.flush p.agg ((f.tick * tick_ms) % 2 ^ 64) seq in
    (
      flushed.0,
      record w {
        mem = p.mem;
        factory = record f {
          agg = flushed.1;
          seq = seq;
          for_each_total = p.count;
          flush_total = inc64 f.flush_total;
          stats = count_frame f us;
        };
      },
    )

-- `Process` from `Begin` on, with the block at hand.
unfoldable pub process_block :
    Bypass
    → (Table → Table)
    → Option (List ℕ)
    → ℕ
    → ℕ
    → ℕ
    → World
    → DataFactory
    → Option Block × DataMemManager
    → Option (List ℕ) × World
unfolding visit_all publish_pass
process_block bypass order raw len data_type us w f (none, mem) = (
  none,
  record w {
    mem = mem;
    factory = record f { stats = record f.stats { drop_pool_full = inc64 f.stats.drop_pool_full } };
  },
)
process_block bypass order raw len data_type us w f (some block, mem) =
    let p =
      visit_all block raw len
        (record {
          mem = mem;
          agg = Aggregator.begin f.agg f.current_task;
          count = f.for_each_total;
        })
        (of_domain data_type (order w.table)) in
    elim bypass [
      | bypass_full ↦ publish_pass w us f p
      | bypass_recv ↦ publish_pass w us f p
      | bypass_process ↦ (
        none,
        record w { mem = p.mem; factory = record f { agg = p.agg; for_each_total = p.count } },
      )
    ]

-- `Process` after the bypass for reception.
unfoldable pub process_frame :
    Bypass → (Table → Table) → World → Option (List ℕ) → ℕ → ℕ → ℕ → Option (List ℕ) × World
unfolding process_block count_key
process_frame bypass order w raw len data_type us =
    let f = w.factory in
    let key = extract_raw_key data_type raw len in
    if not f.sink
    then (none, record w { factory = record f { skip_sink = inc64 f.skip_sink } })
    else if f.current_task == 0
    then (none, record w { factory = record f { skip_task = inc64 f.skip_task } })
    else process_block bypass order raw len data_type us w (count_key f key)
        (Mem.acquire_block w.mem data_type period_1s key f.tick)

unfoldable pub process :
    Bypass → (Table → Table) → World → Option (List ℕ) → ℕ → ℕ → ℕ → Option (List ℕ) × World
unfolding process_frame
process bypass order w raw len data_type us =
    let w' = record w { factory = record w.factory { proc_count = inc64 w.factory.proc_count } } in
    elim bypass [
      | bypass_recv ↦ (none, w')
      | bypass_full ↦ process_frame bypass_full order w' raw len data_type us
      | bypass_process ↦ process_frame bypass_process order w' raw len data_type us
    ]

unfoldable pub on_tick : World → World
on_tick w =
    let tick = inc32 w.factory.tick in
    record w {
      mem = Mem.evict_expired w.mem tick;
      factory = record w.factory {
        tick = tick;
        stats = record w.factory.stats { ticks = inc32 w.factory.stats.ticks };
      };
    }

-- `Stats`, without the two budgets that it copies.
unfoldable pub stats : DataFactory → DataStats
stats f = record f.stats {
  drop_slice_over_cap = (f.stats.drop_slice_over_cap + f.agg.drops) % 2 ^ 64;
}
