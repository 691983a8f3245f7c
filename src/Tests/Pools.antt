-- ===== src/Tests/Pools.antt =====
-- The layout of contexts/data/domain/include/data_ids.h and the manager of
-- contexts/data/domain/src/data_mem_manager.cpp, just after `Init`.
use dts_framework.Common.{
  ℕ, ◌+◌, ◌≡◌, ◌≤◌, true, false, some, List, [], arith, Option-cases, inl, inr, ap, ◌∙◌,
}
use dts_framework.Data.Ids.{cell, cell_raw_offset, spec_of, raw_len}
use dts_framework.Data.Ids.Layout.{slices_apart}
use dts_framework.Data.Region
use dts_framework.Data.Region.{CacheHead, slot_at}
use dts_framework.Data.Region.Laws.{acquire_full, IsFullFor}
use dts_framework.Data.Mem.{Block, DataMemManager, new_manager, init_pools, acquire_block, handed}
use dts_framework.Data.Mem.Layout.{IsReady, ready, init-IsReady}
use dts_framework.Data.Mem.Blocks.{Handed, acquire_block-Handed, acquire_block-ready}

slices_apart_example :
    (10 ≤ cell_raw_offset 3)
    × (cell_raw_offset 3 + (spec_of 3).cache_size ≤ cell_raw_offset 500)
    × (cell_raw_offset 500 + (spec_of 500).cache_size ≤ raw_len)
slices_apart_example = slices_apart 3 500 (omega arith) (omega arith) (omega arith)

abbrev zero_pool : ℕ → ℕ → CacheHead × List ℕ
zero_pool k i = (record { type = 0; last_tick = 0; period_ticks = 0 }, [])

abbrev started : DataMemManager
started = init_pools zero_pool new_manager

init-IsReady_example :
    (ready : IsReady started) × ((idx : ℕ) → (slot_at ready.region idx).used ≡ false)
    × (init_pools zero_pool started ≡ started)
init-IsReady_example = init-IsReady zero_pool

abbrev started_ready : IsReady started
started_ready = (init-IsReady zero_pool).0

-- The region is not full, for its slots are free.
first_block : (b : Block) × (m : DataMemManager) × (acquire_block started cell 10 7 1 ≡ (some b, m))
first_block =
    let v = started_ready in
    let step : acquire_block started cell 10 7 1
        ≡ handed (ready v.region) 0 (Region.acquire v.region 0 10 7 1) =
      ap (λ k. acquire_block k cell 10 7 1) v.only ∙ acquire_block-ready v.region 7 1 v.packed in
    elim (Option-cases (Region.acquire v.region 0 10 7 1)) [
      | inl missed ↦
          let full : IsFullFor v.region 7 = (acquire_full v.region 0 10 7 1).0 missed in
          let cap : v.region.slot_cap ≡ 384 = v.packed.slot_cap in
          let taken : (slot_at v.region 0).used ≡ true = (full 0 (omega (arith, cap))).0 in
          let free : (slot_at v.region 0).used ≡ false = (init-IsReady zero_pool).1 0 in absurd (cc)
      | inr ((idx, r), got) ↦
          (record { region = 0; slot = idx }, ready r, step ∙ ap (handed (ready v.region) 0) got)
    ]

acquire_block-Handed_example : Handed 7 1 first_block.0 first_block.1
acquire_block-Handed_example =
    acquire_block-Handed started 7 1 first_block.0 first_block.1 started_ready first_block.2
