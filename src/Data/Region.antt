-- ===== src/Data/Region.antt =====
-- The hash regions of contexts/data/domain/src/data_mem_manager.cpp: `RegionDesc` and the bodies
-- of `AcquireBlock`, `FindBlock` and `EvictExpired` for one region. Slot `idx` joins `used[idx]`,
-- `keys[idx]` and the block `BlockAt(idx)`: the fields of its `CacheHead` that this code touches
-- (nothing writes the `cell`/`ue` union), and the bytes behind the head.
pub mod Probe
pub mod Acquire
pub mod Laws
pub mod Evict
use dts_framework.Common.{
  ℕ, zero, suc, ◌+◌, ◌-◌, ◌*◌, ◌%◌, ◌^◌, Bool, true, false, Option, none, some, List, [], map, ltb,
  ◌==◌, if◌then◌else◌, get_or, set,
}
use dts_framework.Data.Ids.{ttl_periods}

pub record CacheHead : Type 0 where
  pub type : ℕ
  pub last_tick : ℕ
  pub period_ticks : ℕ

pub record Slot : Type 0 where
  pub used : Bool
  pub key : ℕ
  pub head : CacheHead
  pub body : List ℕ

pub record RegionDesc : Type 0 where
  pub domain : ℕ
  pub period_ticks : ℕ
  pub slot_cap : ℕ
  pub block_size : ℕ
  pub slots : List Slot
  pub slot_offset : List (ℕ × ℕ)

-- What a read past the slots gives; the loops below make none.
abbrev pub no_slot : Slot
no_slot = record {
  used = false;
  key = 0;
  head = record { type = 0; last_tick = 0; period_ticks = 0 };
  body = [];
}

abbrev pub slot_at : RegionDesc → ℕ → Slot
slot_at r idx = get_or r.slots idx no_slot

abbrev pub set_slot : RegionDesc → ℕ → Slot → RegionDesc
set_slot r idx s = record r { slots = set r.slots idx s }

-- The index that round `i` probes: `(start + i) % slotCap`.
abbrev pub probe_index : RegionDesc → ℕ → ℕ → ℕ
probe_index r key i = (key % r.slot_cap + i) % r.slot_cap

-- The writes of a claim of a free slot and of a hit.
abbrev pub claim : Slot → ℕ → ℕ → ℕ → ℕ → Slot
claim s domain period_ticks key now = record s {
  used = true;
  key = key;
  head = record { type = domain; last_tick = now; period_ticks = period_ticks };
}

abbrev pub refresh : Slot → ℕ → Slot
refresh s now = record s { head = record (s.head) { last_tick = now } }

-- The loop of `AcquireBlock`, with the rounds left.
unfoldable pub acquire_loop : ℕ → RegionDesc → ℕ → ℕ → ℕ → ℕ → ℕ → Option (ℕ × RegionDesc)
acquire_loop zero r domain period_ticks key now i = none
acquire_loop (suc left) r domain period_ticks key now i =
    let idx = probe_index r key i in
    let s = slot_at r idx in
    let rest = acquire_loop left r domain period_ticks key now (i + 1) in
    if s.used
    then (if s.key == key then some (idx, set_slot r idx (refresh s now)) else rest)
    else some (idx, set_slot r idx (claim s domain period_ticks key now))

unfoldable pub acquire : RegionDesc → ℕ → ℕ → ℕ → ℕ → Option (ℕ × RegionDesc)
acquire r domain period_ticks key now = acquire_loop r.slot_cap r domain period_ticks key now 0

-- The loop of `FindBlock`.
unfoldable pub find_loop : ℕ → RegionDesc → ℕ → ℕ → Option ℕ
find_loop zero r key i = none
find_loop (suc left) r key i =
    let idx = probe_index r key i in
    let s = slot_at r idx in
    let rest = find_loop left r key (i + 1) in
    if s.used then (if s.key == key then some idx else rest) else none

unfoldable pub find : RegionDesc → ℕ → Option ℕ
find r key = find_loop r.slot_cap r key 0

-- `nowTick - h->lastTick > ttl` in 32 bits
unfoldable pub is_expired : RegionDesc → ℕ → Slot → Bool
is_expired r now s =
    ltb ((ttl_periods * r.period_ticks) % 2 ^ 32) ((now + 2 ^ 32 - s.head.last_tick) % 2 ^ 32)

unfoldable pub evict_slot : RegionDesc → ℕ → Slot → Slot
unfolding is_expired
evict_slot r now s =
    if s.used then (if is_expired r now s then record s { used = false } else s) else s

unfoldable pub evict : RegionDesc → ℕ → RegionDesc
evict r now = record r { slots = map (evict_slot r now) r.slots }
