-- ===== src/Data/Mem/Room.antt =====
-- Blocks that are long enough for every slice, under the calls of contexts/data/domain/src/data_mem_manager.cpp
-- that `Process` makes.
use dts_framework.Common.{
  subst, ◌⊎◌, ℕ, zero, suc, true, false, get_or, ◌+◌, ◌-◌, ◌≤◌, ◌<◌, ◌≡◌, refl, sym, ap, ◌∙◌, some,
  none, List, arith, length, splice, set, length-set, length-splice, get_or-set_self, get_or-set_ne,
  Option-cases, Bool-cases, inl, inr,
}
use native.Mathlib.Decide.{ℕ_discrete}
use dts_framework.Data.Ids.{data_id_count, cell_slot_cap, cell}
use dts_framework.Data.Region
use dts_framework.Data.Region.Laws.{IsFullFor, acquire_full}
use dts_framework.Data.Region.{CacheHead, RegionDesc, Slot, no_slot, slot_at, set_slot, probe_index}
use dts_framework.Data.Region.Acquire.{IsSized, acquire-Acquired, index-lt}
use dts_framework.Data.Region.Probe.{put}
use dts_framework.Data.Mem.{
  Block, DataMemManager, body_start, acquire_block, handed, write_slot, init_pools, new_manager,
  fresh_slots,
}
use dts_framework.Data.Mem.Layout.{
  Packed, ready, with_slots-Packed, init-Packed, length-fresh_slots, fresh_slots_free,
}
use dts_framework.Data.Mem.Blocks.{acquire_block-ready, acquire_block_other}

-- The bytes of a block behind its head.
abbrev pub body_size : ℕ
body_size = 32758

-- A region as `Init` packs it, each of its blocks of full size.
pub record Room (r : RegionDesc) : Type 0 where
  pub packed : Packed data_id_count r
  pub sized : IsSized r
  pub bodies : (idx : ℕ) → idx < cell_slot_cap → length (slot_at r idx).body ≡ body_size

pub set_slot-Room :
    (r : RegionDesc) (idx : ℕ) (s : Slot)
    → Room r
    → length s.body ≡ body_size
    → Room (set_slot r idx s)
set_slot-Room r idx s v full = record {
  packed = with_slots-Packed data_id_count r (set r.slots idx s) v.packed;
  sized = length-set r.slots idx s ∙ v.sized;
  bodies = λ i h. elim (ℕ_discrete idx i) [
    | yes same ↦
        ap (λ k. length k.body)
          (ap (λ k. slot_at (set_slot r idx s) k) (sym same)
            ∙ get_or-set_self r.slots idx s no_slot (omega (arith, v.sized, v.packed.slot_cap)))
        ∙ full
    | no other ↦
        ap (λ k. length k.body) (get_or-set_ne r.slots idx i s no_slot other) ∙ v.bodies i h
  ];
}

-- The block `idx` of the region of `ready r`.
abbrev pub block_at : ℕ → Block
block_at idx = record { region = 0; slot = idx }

-- A region after one write to the slot of a data id.
abbrev pub filled : RegionDesc → ℕ → ℕ → List ℕ → RegionDesc
filled r idx offset bytes =
    let s = slot_at r idx in
    set_slot r idx (record s { body = splice s.body (offset - body_start) bytes })

pub write_slot-ready :
    (r : RegionDesc) (idx offset : ℕ) (bytes : List ℕ)
    → write_slot (ready r) (block_at idx) offset bytes ≡ ready (filled r idx offset bytes)
unfolding write_slot
write_slot-ready r idx offset bytes = refl

pub filled-Room :
    (r : RegionDesc) (idx offset : ℕ) (bytes : List ℕ)
    → Room r
    → idx < cell_slot_cap
    → offset - body_start + length bytes ≤ body_size
    → Room (filled r idx offset bytes)
filled-Room r idx offset bytes v low fits =
    let s = slot_at r idx in
    set_slot-Room r idx (record s { body = splice s.body (offset - body_start) bytes }) v
      (length-splice s.body (offset - body_start) bytes (omega (arith, v.bodies idx low))
        ∙ v.bodies idx low)

-- A block that `AcquireBlock` handed out of such a region, and the region that it left.
pub record Taken (b : Block) (m : DataMemManager) : Type 0 where
  pub region : RegionDesc
  pub idx : ℕ
  pub manager : m ≡ ready region
  pub block : b ≡ block_at idx
  pub room : Room region
  pub inside : idx < cell_slot_cap

put-body :
    (s : Slot) (domain period_ticks key now : ℕ) → (put s domain period_ticks key now).body ≡ s.body
put-body s domain period_ticks key now = elim (Bool-cases s.used) [ inl e ↦ rw e | inr e ↦ rw e ]

acquire-Taken :
    (r : RegionDesc) (key now idx : ℕ) (r' : RegionDesc)
    → Room r
    → Region.acquire r 0 10 key now ≡ some (idx, r')
    → Taken (block_at idx) (ready r')
acquire-Taken r key now idx r' v got =
    let a = acquire-Acquired r 0 10 key now idx r' got in
    let at = probe_index r key a.round in
    let low : at < cell_slot_cap =
      omega (arith, index-lt r key a.round a.below, v.packed.slot_cap) in
    record {
      region = r';
      idx = idx;
      manager = refl;
      block = refl;
      room = rw a.state (
          set_slot-Room r at (put (slot_at r at) 0 10 key now) v
            (ap length (put-body (slot_at r at) 0 10 key now) ∙ v.bodies at low));
      inside = omega (arith, a.index, low);
    }

pub acquire_block-Taken :
    (r : RegionDesc) (key now : ℕ) (b : Block) (m : DataMemManager)
    → Room r
    → acquire_block (ready r) cell 10 key now ≡ (some b, m)
    → Taken b m
acquire_block-Taken r key now b m v done =
    let step : handed (ready r) 0 (Region.acquire r 0 10 key now) ≡ (some b, m) =
      sym (acquire_block-ready r key now v.packed) ∙ done in
    elim (Option-cases (Region.acquire r 0 10 key now)) [
      | inl missed ↦
          let bad : (none, ready r) ≡ (some b, m) = rw missed at step in
          let gone : none ≡ some b = ap (λ x. x.0) bad in absurd (cc)
      | inr ((idx, r'), got) ↦
          let out : (some (block_at idx), ready r') ≡ (some b, m) = rw got at step in
          let same_block : block_at idx ≡ b = cc in
          let same_manager : ready r' ≡ m = cc in
          rw (← same_block, ← same_manager) (acquire-Taken r key now idx r' v got)
    ]

fresh_slots_body :
    (n : ℕ) (pool : ℕ → CacheHead × List ℕ) (i : ℕ)
    → i < n
    → (get_or (fresh_slots n pool) i no_slot).body ≡ (pool i).1
unfolding fresh_slots
fresh_slots_body zero pool i h = absurd (omega arith)
fresh_slots_body (suc n) pool zero h = refl
fresh_slots_body (suc n) pool (suc i) h = fresh_slots_body n (λ j. pool (suc j)) i (omega arith)

-- `Init` of a new manager, on memory of the size that it asks for.
pub init-Room :
    (pool : ℕ → ℕ → CacheHead × List ℕ)
    → ((k i : ℕ) → length (pool k i).1 ≡ body_size)
    → (r : RegionDesc) × (init_pools pool new_manager ≡ ready r)
      × Room r
      × ((idx : ℕ) → (slot_at r idx).used ≡ false)
init-Room pool full =
    let (r, packed, only) = init-Packed pool in
    let slots = fresh_slots r.slot_cap (pool 0) in
    (
      record r { slots = slots },
      only,
      record {
        packed = with_slots-Packed data_id_count r slots packed;
        sized = length-fresh_slots r.slot_cap (pool 0);
        bodies = λ idx h.
            ap length (fresh_slots_body r.slot_cap (pool 0) idx (omega (arith, packed.slot_cap)))
            ∙ full 0 idx;
      },
      fresh_slots_free r.slot_cap (pool 0),
    )

-- A region with a free block serves any key.
pub acquire_block_free :
    (r : RegionDesc) (key now : ℕ)
    → Room r
    → (slot_at r 0).used ≡ false
    → (b : Block) × ((acquire_block (ready r) cell 10 key now).0 ≡ some b)
acquire_block_free r key now v free = elim (Option-cases (Region.acquire r 0 10 key now)) [
  | inl missed ↦
      let full : IsFullFor r key = (acquire_full r 0 10 key now).0 missed in
      let taken = (full 0 (omega (arith, v.packed.slot_cap))).0 in
      let bad : true ≡ false = sym taken ∙ free in absurd (cc)
  | inr ((idx, r'), got) ↦ (
    block_at idx,
    ap (λ h. h.0) (acquire_block-ready r key now v.packed ∙ ap (handed (ready r) 0) got),
  )
]

-- `AcquireBlock` of another domain, or of a key for which there is no block, changes nothing.
pub acquire_block_cases :
    (r : RegionDesc) (data_type key now : ℕ)
    → Room r
    → let o = acquire_block (ready r) data_type 10 key now in
      (o ≡ (none, ready r)) ⊎ ((data_type ≡ cell) × (b : Block) × (o.0 ≡ some b) × Taken b o.1)
acquire_block_cases r data_type key now v = elim (ℕ_discrete data_type cell) [
  | no other ↦ inl (
      acquire_block_other (ready r) data_type 10 key now
        (record { region = r; only = refl; packed = v.packed; sized = v.sized }) other)
  | yes same ↦ elim (Option-cases (Region.acquire r 0 10 key now)) [
    | inl missed ↦ inl (
        ap (λ d. acquire_block (ready r) d 10 key now) same
        ∙ acquire_block-ready r key now v.packed
        ∙ ap (handed (ready r) 0) missed)
    | inr ((idx, r'), got) ↦
        let out =
          ap (λ d. acquire_block (ready r) d 10 key now) same
          ∙ acquire_block-ready r key now v.packed
          ∙ ap (handed (ready r) 0) got in
        inr (
          same,
          block_at idx,
          ap (λ o. o.0) out,
          subst (λ m. Taken (block_at idx) m) (sym (ap (λ o. o.1) out))
              (acquire-Taken r key now idx r' v got),
        )
  ]
]
