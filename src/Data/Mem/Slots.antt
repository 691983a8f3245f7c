-- ===== src/Data/Mem/Slots.antt =====
-- What `memcpy` to a slot of contexts/data/domain/src/data_mem_manager.cpp changes.
use dts_framework.Common.{
  sym, ℕ, ◌+◌, ◌-◌, ◌≤◌, ◌<◌, ◌≡◌, ◌≢◌, ap, ◌∙◌, List, ◌++◌, arith, length, set, take, drop, splice,
  take-append, drop_at, length-take, get_or-set_self, get_or-set_ne,
}
use dts_framework.Data.Region.{Slot, no_slot, slot_at, set_slot}
use dts_framework.Data.Mem.{
  Block, DataMemManager, body_start, region_at, no_region, write_slot, read_slot,
}

take-drop-splice :
    (buf : List ℕ) (off : ℕ) (bytes : List ℕ)
    → off ≤ length buf
    → take (length bytes) (drop off (splice buf off bytes)) ≡ bytes
take-drop-splice buf off bytes h =
    rw
      (drop_at off (take off buf) (bytes ++ drop (off + length bytes) buf)
        (omega (arith, length-take off buf)))
      (take-append bytes (drop (off + length bytes) buf))

-- A slice written to a slot of a block reads back as it is, and every other block of the region
-- reads as before, where region and block exist and the offset lies within the block.
pub read_slot-write_slot :
    (m : DataMemManager) (block : Block) (offset : ℕ) (bytes : List ℕ)
    → block.region < length m.regions
    → block.slot < length (region_at m.regions block.region).slots
    → offset - body_start ≤ length (slot_at (region_at m.regions block.region) block.slot).body
    → let m' = write_slot m block offset bytes in
      (read_slot m' block offset (length bytes) ≡ bytes)
      × ((other : ℕ) (at len : ℕ)
          → other ≢ block.slot
          → read_slot m' (record block { slot = other }) at len
            ≡ read_slot m (record block { slot = other }) at len)
unfolding write_slot read_slot
read_slot-write_slot m block offset bytes hr hs hb =
    let r = region_at m.regions block.region in
    let s = slot_at r block.slot in
    let s' : Slot = record s { body = splice s.body (offset - body_start) bytes } in
    let er : region_at (set m.regions block.region (set_slot r block.slot s')) block.region
        ≡ set_slot r block.slot s' =
      get_or-set_self m.regions block.region (set_slot r block.slot s') no_region hr in
    let es : slot_at (set_slot r block.slot s') block.slot ≡ s' =
      get_or-set_self r.slots block.slot s' no_slot hs in
    (
      ap (λ k. take (length bytes) (drop (offset - body_start) (slot_at k block.slot).body)) er
          ∙ ap (λ k. take (length bytes) (drop (offset - body_start) k.body)) es
          ∙ take-drop-splice s.body (offset - body_start) bytes hb,
      λ other at len ne.
          ap (λ k. take len (drop (at - body_start) (slot_at k other).body)) er
          ∙ ap (λ k. take len (drop (at - body_start) k.body))
              (get_or-set_ne r.slots block.slot other s' no_slot (λ e. ne (sym e))),
    )
