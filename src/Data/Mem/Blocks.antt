-- ===== src/Data/Mem/Blocks.antt =====
-- Blocks of a ready manager, and the bytes of their slots.
use dts_framework.Common.{
  ℕ, ◌+◌, ◌<◌, ◌≡◌, ◌≢◌, refl, sym, ap, ◌∙◌, true, false, inl, inr, Option, none, some, [], ◌∷◌,
  arith, ◌==◌, take, Option-cases, lt→ltb,
}
use dts_framework.Data.Ids.{cell_cache_sizes, data_id_count, cell_slot_cap, sum, cell}
use dts_framework.Data.Region
use dts_framework.Data.Region.{RegionDesc, slot_at}
use dts_framework.Data.Region.Acquire.{IsSized, acquire-Acquired}
use dts_framework.Data.Region.Laws.{acquire-Claims}
use dts_framework.Data.Mem.{
  Block, DataMemManager, body_start, region_at, find_region, acquire_block, find_block, slot_of,
  handed, block_in,
}
use dts_framework.Data.Mem.Layout.{Packed, IsReady, ready}

pub find_region_ready :
    (r : RegionDesc) → Packed data_id_count r → find_region (r ∷ []) 0 10 ≡ some 0
unfolding find_region
find_region_ready r v =
    let d : (r.domain == 0) ≡ true = ground (arith, v.domain) in
    let p : (r.period_ticks == 10) ≡ true = ground (arith, v.period_ticks) in rw (d, p)

find_region_other :
    (r : RegionDesc) (domain period_ticks : ℕ)
    → (r.domain == domain) ≡ false
    → find_region (r ∷ []) domain period_ticks ≡ none
unfolding find_region
find_region_other r domain period_ticks d = rw d

-- A ready manager serves no domain but the cells: `AcquireBlock` for another one fails and changes
-- nothing.
pub acquire_block_other :
    (m : DataMemManager) (domain period_ticks key now : ℕ)
    → IsReady m
    → domain ≢ cell
    → acquire_block m domain period_ticks key now ≡ (none, m)
unfolding acquire_block
acquire_block_other m domain period_ticks key now v other =
    let d : (v.region.domain == domain) ≡ false = ground (arith, v.packed.domain) in
    rw v.only (rw (find_region_other v.region domain period_ticks d, acquire_block))

-- The calls on a ready manager come down to those on its region.
pub acquire_block-ready :
    (r : RegionDesc) (key now : ℕ)
    → Packed data_id_count r
    → acquire_block (ready r) cell 10 key now ≡ handed (ready r) 0 (Region.acquire r 0 10 key now)
unfolding acquire_block
acquire_block-ready r key now v = rw (find_region_ready r v, acquire_block)

pub find_block-ready :
    (r : RegionDesc) (key : ℕ)
    → Packed data_id_count r
    → find_block (ready r) cell 10 key ≡ block_in 0 (Region.find r key)
unfolding find_block
find_block-ready r key v = rw (find_region_ready r v, find_block)

acquire-Packed :
    (r : RegionDesc) (domain period_ticks key now idx : ℕ) (r' : RegionDesc)
    → Region.acquire r domain period_ticks key now ≡ some (idx, r')
    → Packed data_id_count r
    → Packed data_id_count r'
acquire-Packed r domain period_ticks key now idx r' done v =
    let a = acquire-Acquired r domain period_ticks key now idx r' done in
    rw a.state (record {
      domain = v.domain;
      period_ticks = v.period_ticks;
      slot_cap = v.slot_cap;
      block_size = v.block_size;
      offsets = v.offsets;
    })

-- A block that `AcquireBlock` handed out, in the manager that it left.
pub record Handed (key now : ℕ) (b : Block) (m : DataMemManager) : Type 0 where
  pub still : IsReady m
  pub inside : b.slot < cell_slot_cap
  pub home : b.region ≡ 0
  pub touched : (slot_at (region_at m.regions b.region) b.slot).head.last_tick ≡ now
  pub findable : find_block m cell 10 key ≡ some b
  pub slots :
      (d : ℕ)
      → d < data_id_count
      → slot_of m b (d + 1) ≡ some (body_start + sum (take d cell_cache_sizes))

missed_block :
    (m : DataMemManager) (o : Option (ℕ × RegionDesc)) (b : Block) (m' : DataMemManager)
    → o ≡ none
    → handed m 0 o ≡ (some b, m')
    → ⊥
missed_block m o b m' e h = ground (arith, e)

Handed-ready :
    (r₀ r : RegionDesc) (key now idx : ℕ)
    → IsSized r₀
    → Packed data_id_count r₀
    → Region.acquire r₀ 0 10 key now ≡ some (idx, r)
    → Handed key now (record { region = 0; slot = idx }) (ready r)
unfolding slot_of
Handed-ready r₀ r key now idx sized packed got =
    let c = acquire-Claims r₀ 0 10 key now idx r sized got in
    let p = acquire-Packed r₀ 0 10 key now idx r got packed in
    let low : idx < r.slot_cap = omega (arith, c.inside, c.cap) in
    record {
      still = record { region = r; only = refl; packed = p; sized = c.sized };
      inside = omega (arith, low, p.slot_cap);
      home = refl;
      touched = c.touched;
      findable = find_block-ready r key p ∙ ap (block_in 0) c.findable;
      slots = λ d h. rw (lt→ltb idx r.slot_cap low) (p.offsets d h);
    }

-- A ready manager stays ready under `AcquireBlock`; the block handed out is stamped with the tick
-- and found again under its key, and every data id has its slot in it, as far behind the head as
-- its slice stands behind the head of the raw frame.
pub acquire_block-Handed :
    (m : DataMemManager) (key now : ℕ) (b : Block) (m' : DataMemManager)
    → IsReady m
    → acquire_block m cell 10 key now ≡ (some b, m')
    → Handed key now b m'
acquire_block-Handed m key now b m' v done =
    let step : handed (ready v.region) 0 (Region.acquire v.region 0 10 key now) ≡ (some b, m') =
      sym (acquire_block-ready v.region key now v.packed)
      ∙ sym (ap (λ k. acquire_block k cell 10 key now) v.only)
      ∙ done in
    elim (Option-cases (Region.acquire v.region 0 10 key now)) [
      | inl missed ↦ absurd (missed_block (ready v.region) _ b m' missed step)
      | inr ((idx, r), got) ↦
          let out : handed (ready v.region) 0 (some (idx, r)) ≡ (some b, m') = rw got at step in
          let same_block : record { region = 0; slot = idx } ≡ b = cc in
          let same_manager : ready r ≡ m' = cc in
          rw (← same_block, ← same_manager)
            (Handed-ready v.region r key now idx v.sized v.packed got)
    ]
