-- ===== src/Data/Mem.antt =====
-- contexts/data/domain/include/data_mem_manager.h and src/data_mem_manager.cpp: the manager over
-- the regions. A block pointer is the number of its region and of its slot, and the address of a
-- data id's slot is a block with an offset in it. `AcquireBlock` and the others are called after
-- `Init` only (before, the source reads a null pointer).
pub mod Layout
pub mod Blocks
pub mod Slots
pub mod Room
use Prim.Native.Nat.{bit_and}
use dts_framework.Common.{
  ℕ, zero, suc, ◌+◌, ◌-◌, ◌%◌, ◌^◌, Bool, true, false, ◌&&◌, Option, none, some, List, [], ◌∷◌,
  ◌++◌, map, ◌==◌, if◌then◌else◌, length, get_or, set, take, drop, splice, lookup, insert, ltb,
}
use dts_framework.Data.Ids.{DataIdSpec, spec_of, data_id_base, data_id_count, cell_slot_cap}
use dts_framework.Data.Region
use dts_framework.Data.Region.{CacheHead, Slot, RegionDesc, slot_at, set_slot}

-- `sizeof(CacheHead)`: type 2, padding 2, union 8, two ticks 4 each
abbrev pub cache_head_size : ℕ
cache_head_size = 20

-- `(v + align - 1) & ~(align - 1)` in 32 bits
abbrev pub align_up : ℕ → ℕ → ℕ
align_up v align = bit_and ((v + align - 1) % 2 ^ 32) (2 ^ 32 - align)

-- Where the bytes of a block behind its head start.
abbrev pub body_start : ℕ
body_start = align_up cache_head_size 8

pub record Block : Type 0 where
  pub region : ℕ
  pub slot : ℕ

pub record DataMemManager : Type 0 where
  pub init : Bool
  pub regions : List RegionDesc
  pub fixed_slots : List (ℕ × List ℕ)

unfoldable pub new_manager : DataMemManager
new_manager = record { init = false; regions = []; fixed_slots = [] }

abbrev pub no_region : RegionDesc
no_region = record {
  domain = 0;
  period_ticks = 0;
  slot_cap = 0;
  block_size = 0;
  slots = [];
  slot_offset = [];
}

abbrev pub region_at : List RegionDesc → ℕ → RegionDesc
region_at rs k = get_or rs k no_region

-- `FindRegion`: the number of the first region that fits.
unfoldable pub find_region : List RegionDesc → ℕ → ℕ → Option ℕ
find_region [] domain period_ticks = none
find_region (r ∷ rs) domain period_ticks =
    let rest : Option ℕ = elim (find_region rs domain period_ticks) [
      | none ↦ none
      | some k ↦ some (suc k)
    ] in
    if (r.domain == domain) && (r.period_ticks == period_ticks) then some 0 else rest

-- A region as `Init` pushes it, before it has slots.
abbrev pub new_region : DataIdSpec → RegionDesc
new_region s = record {
  domain = s.data_type;
  period_ticks = s.period_ticks;
  slot_cap = cell_slot_cap;
  block_size = body_start;
  slots = [];
  slot_offset = [];
}

abbrev pub add_slot : RegionDesc → DataIdSpec → RegionDesc
add_slot r s = record r {
  slot_offset = insert s.data_id r.block_size r.slot_offset;
  block_size = (r.block_size + s.cache_size) % 2 ^ 32;
}

-- One round of the loop of `Init` over the specs.
unfoldable pub add_spec : List RegionDesc → DataIdSpec → List RegionDesc
unfolding find_region
add_spec rs s =
    if s.need_cache
    then elim (find_region rs s.data_type s.period_ticks) [
      | some k ↦ set rs k (add_slot (region_at rs k) s)
      | none ↦ rs ++ add_slot (new_region s) s ∷ []
    ]
    else rs

unfoldable pub add_specs : ℕ → ℕ → List RegionDesc → List RegionDesc
add_specs zero i rs = rs
add_specs (suc left) i rs = add_specs left (i + 1) (add_spec rs (spec_of (data_id_base + i)))

-- The slots of a fresh pool: free, under key 0, on memory whose contents are not known.
unfoldable pub fresh_slots : ℕ → (ℕ → CacheHead × List ℕ) → List Slot
fresh_slots zero pool = []
fresh_slots (suc n) pool =
    record { used = false; key = 0; head = (pool 0).0; body = (pool 0).1 }
    ∷ fresh_slots n (λ i. pool (suc i))

unfoldable pub allocate : (ℕ → ℕ → CacheHead × List ℕ) → List RegionDesc → List RegionDesc
allocate pool [] = []
allocate pool (r ∷ rs) =
    record r { slots = fresh_slots r.slot_cap (pool 0) } ∷ allocate (λ k. pool (suc k)) rs

unfoldable pub init_pools : (ℕ → ℕ → CacheHead × List ℕ) → DataMemManager → DataMemManager
init_pools pool m =
    if m.init
    then m
    else record m { init = true; regions = allocate pool (add_specs data_id_count 0 m.regions) }

-- What a call on region `k` hands out.
abbrev pub handed : DataMemManager → ℕ → Option (ℕ × RegionDesc) → Option Block × DataMemManager
handed m k none = (none, m)
handed m k (some (idx, r)) =
    (some (record { region = k; slot = idx }), record m { regions = set m.regions k r })

unfoldable pub acquire_block : DataMemManager → ℕ → ℕ → ℕ → ℕ → Option Block × DataMemManager
acquire_block m domain period_ticks key now = elim (find_region m.regions domain period_ticks) [
  | none ↦ (none, m)
  | some k ↦ handed m k (Region.acquire (region_at m.regions k) domain period_ticks key now)
]

abbrev pub block_in : ℕ → Option ℕ → Option Block
block_in k none = none
block_in k (some idx) = some (record { region = k; slot = idx })

unfoldable pub find_block : DataMemManager → ℕ → ℕ → ℕ → Option Block
find_block m domain period_ticks key = elim (find_region m.regions domain period_ticks) [
  | none ↦ none
  | some k ↦ block_in k (Region.find (region_at m.regions k) key)
]

-- `RegionOf` finds the region whose pool the block lies in, and `SlotOf` the offset in the block.
unfoldable pub slot_of : DataMemManager → Block → ℕ → Option ℕ
slot_of m block data_id =
    if ltb block.region (length m.regions)
    then (if ltb block.slot (region_at m.regions block.region).slot_cap
        then lookup data_id (region_at m.regions block.region).slot_offset
        else none)
    else none

-- The bytes of the fixed slot of a data id. Nothing in the source ever makes one.
unfoldable pub fixed_slot : DataMemManager → ℕ → Option (List ℕ)
fixed_slot m data_id = lookup data_id m.fixed_slots

unfoldable pub evict_expired : DataMemManager → ℕ → DataMemManager
evict_expired m now = record m { regions = map (λ r. Region.evict r now) m.regions }

-- What callers do through the address of a slot: `memcpy` to it and from it.
unfoldable pub write_slot : DataMemManager → Block → ℕ → List ℕ → DataMemManager
write_slot m block offset bytes =
    let r = region_at m.regions block.region in
    let s = slot_at r block.slot in
    record m {
      regions =
          set m.regions block.region
            (set_slot r block.slot (record s { body = splice s.body (offset - body_start) bytes }));
    }

unfoldable pub read_slot : DataMemManager → Block → ℕ → ℕ → List ℕ
read_slot m block offset len =
    take len
      (drop (offset - body_start) (slot_at (region_at m.regions block.region) block.slot).body)

unfoldable pub write_fixed : DataMemManager → ℕ → List ℕ → DataMemManager
write_fixed m data_id bytes = record m { fixed_slots = insert data_id bytes m.fixed_slots }
