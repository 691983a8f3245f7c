-- ===== src/Data/Mem/Layout.antt =====
-- What `Init` builds: one region of 384 blocks whose slots mirror the raw frame.
use dts_framework.Common.{
  ℕ, zero, suc, ◌+◌, ◌≤◌, ◌<◌, ◌≡◌, refl, ap, true, false, some, List, [], ◌∷◌, arith, ◌==◌, length,
  get_or, take, take_all, lookup, lookup-insert, ==_refl, ==_ne,
}
use native.Mathlib.Decide.{ℕ_discrete}
use dts_framework.Data.Ids.{
  DataIdSpec, spec_of, cell_cache_sizes, data_id_base, data_id_count, cell_slot_cap, sum,
}
use dts_framework.Data.Ids.Layout.{
  spec_of_index, sum-take-suc, sum-take_mono, length-sizes, sum-sizes,
}
use dts_framework.Data.Region.{Slot, CacheHead, RegionDesc, no_slot, slot_at}
use dts_framework.Data.Region.Acquire.{IsSized}
use dts_framework.Data.Mem.{
  DataMemManager, new_manager, body_start, new_region, add_slot, add_spec, add_specs, fresh_slots,
  allocate, init_pools,
}

abbrev pub sizes_before : ℕ → ℕ
sizes_before i = sum (take i cell_cache_sizes)

-- A region that has taken the first `i` data ids.
pub record Packed (i : ℕ) (r : RegionDesc) : Type 0 where
  pub domain : r.domain ≡ 0
  pub period_ticks : r.period_ticks ≡ 10
  pub slot_cap : r.slot_cap ≡ cell_slot_cap
  pub block_size : r.block_size ≡ body_start + sizes_before i
  pub offsets : (d : ℕ) → d < i → lookup (d + 1) r.slot_offset ≡ some (body_start + sizes_before d)

pub sizes_before-suc :
    (i : ℕ)
    → i < data_id_count
    → sizes_before (i + 1) ≡ sizes_before i + get_or cell_cache_sizes i 0
sizes_before-suc i h = sum-take-suc i cell_cache_sizes (omega (arith, length-sizes))

pub sizes_before-le : (i : ℕ) → i ≤ data_id_count → sizes_before i ≤ 32758
sizes_before-le i h = omega (
  arith,
  sum-take_mono i data_id_count cell_cache_sizes h,
  ap sum (take_all data_id_count cell_cache_sizes (omega (arith, length-sizes))),
  sum-sizes,
)

abbrev cell_spec : ℕ → DataIdSpec
cell_spec i = record {
  data_id = i + 1;
  data_type = 0;
  cache_size = get_or cell_cache_sizes i 0;
  period_ticks = 10;
  need_cache = true;
}

add_slot-Packed :
    (i : ℕ) (r : RegionDesc)
    → i < data_id_count
    → Packed i r
    → Packed (i + 1) (add_slot r (cell_spec i))
add_slot-Packed i r h v = record {
  domain = v.domain;
  period_ticks = v.period_ticks;
  slot_cap = v.slot_cap;
  block_size =
      omega (arith, v.block_size, sizes_before-suc i h, sizes_before-le (i + 1) (omega arith));
  offsets = λ d lt.
      rw (lookup-insert (i + 1) (d + 1) r.block_size r.slot_offset) (elim (ℕ_discrete d i) [
        | yes same ↦ rw (same, ==_refl (i + 1), v.block_size)
        | no other ↦ rw (==_ne (i + 1) (d + 1) (omega arith)) (v.offsets d (omega arith))
      ]);
}

spec_of_suc : (i : ℕ) → i < data_id_count → spec_of (data_id_base + i) ≡ cell_spec i
spec_of_suc i h = let e : data_id_base + i ≡ i + 1 = omega arith in rw e (spec_of_index i h)

add_spec-Packed :
    (i : ℕ) (r : RegionDesc)
    → Packed i r
    → add_spec (r ∷ []) (cell_spec i) ≡ add_slot r (cell_spec i) ∷ []
unfolding add_spec
add_spec-Packed i r v =
    let d : (r.domain == 0) ≡ true = ground (arith, v.domain) in
    let p : (r.period_ticks == 10) ≡ true = ground (arith, v.period_ticks) in rw (d, p)

add_specs-Packed :
    (left i : ℕ) (r : RegionDesc)
    → i + left ≤ data_id_count
    → Packed i r
    → (r' : RegionDesc) × (add_specs left i (r ∷ []) ≡ r' ∷ []) × Packed (i + left) r'
unfolding add_specs
add_specs-Packed zero i r h v = (r, refl, (let e : i + 0 ≡ i = omega arith in rw e v))
add_specs-Packed (suc left) i r h v =
    let (r', run, w) =
      add_specs-Packed left (i + 1) (add_slot r (cell_spec i)) (omega arith)
        (add_slot-Packed i r (omega arith) v) in
    let e : i + suc left ≡ i + 1 + left = omega arith in
    (r', rw (spec_of_suc i (omega arith), add_spec-Packed i r v) run, rw e w)

new_region-Packed : Packed 0 (new_region (cell_spec 0))
unfolding sum
new_region-Packed = record {
  domain = refl;
  period_ticks = refl;
  slot_cap = refl;
  block_size = refl;
  offsets = λ d lt. absurd (omega arith);
}

add_spec_first : add_spec [] (cell_spec 0) ≡ add_slot (new_region (cell_spec 0)) (cell_spec 0) ∷ []
unfolding add_spec
add_spec_first = refl

add_specs_all :
    (n : ℕ)
    → n < data_id_count
    → (r : RegionDesc) × (add_specs (suc n) 0 [] ≡ r ∷ []) × Packed (suc n) r
unfolding add_specs
add_specs_all n h =
    let (r, run, w) =
      add_specs-Packed n 1 (add_slot (new_region (cell_spec 0)) (cell_spec 0)) (omega arith)
        (add_slot-Packed 0 (new_region (cell_spec 0)) (omega arith) new_region-Packed) in
    let e : suc n ≡ 1 + n = omega arith in
    (r, rw (spec_of_suc 0 (omega arith), add_spec_first) run, rw e w)

pub length-fresh_slots : (n : ℕ) (pool : ℕ → CacheHead × List ℕ) → length (fresh_slots n pool) ≡ n
unfolding fresh_slots
length-fresh_slots zero pool = refl
length-fresh_slots (suc n) pool = ap suc (length-fresh_slots n (λ i. pool (suc i)))

pub fresh_slots_free :
    (n : ℕ) (pool : ℕ → CacheHead × List ℕ) (i : ℕ)
    → (get_or (fresh_slots n pool) i no_slot).used ≡ false
unfolding fresh_slots
fresh_slots_free zero pool i = refl
fresh_slots_free (suc n) pool zero = refl
fresh_slots_free (suc n) pool (suc i) = fresh_slots_free n (λ j. pool (suc j)) i

-- The manager after `Init`: one region for cells at one second, every slot free, and the data id
-- `d + 1` behind the head of 24 bytes and the sizes before it.
abbrev pub ready : RegionDesc → DataMemManager
ready r = record { init = true; regions = r ∷ []; fixed_slots = [] }

pub record IsReady (m : DataMemManager) : Type 0 where
  pub region : RegionDesc
  pub only : m ≡ ready region
  pub packed : Packed data_id_count region
  pub sized : IsSized region

-- `Init` of a new manager, whatever the fresh memory holds.
pub init-Packed :
    (pool : ℕ → ℕ → CacheHead × List ℕ)
    → (r : RegionDesc) × Packed data_id_count r
      × (init_pools pool new_manager ≡ ready (record r { slots = fresh_slots r.slot_cap (pool 0) }))
unfolding init_pools new_manager allocate
init-Packed pool =
    let (r, run, packed) = add_specs_all 499 (omega arith) in
    (r, packed, ap (λ rs. record { init = true; regions = allocate pool rs; fixed_slots = [] }) run)

pub with_slots-Packed :
    (n : ℕ) (r : RegionDesc) (slots : List Slot)
    → Packed n r
    → Packed n (record r { slots = slots })
with_slots-Packed n r slots v = record {
  domain = v.domain;
  period_ticks = v.period_ticks;
  slot_cap = v.slot_cap;
  block_size = v.block_size;
  offsets = v.offsets;
}

-- Whatever the fresh memory holds, `Init` of a new manager builds one region whose blocks are free
-- and have a slot for every data id, and a second `Init` changes nothing.
pub init-IsReady :
    (pool : ℕ → ℕ → CacheHead × List ℕ)
    → let m = init_pools pool new_manager in
      (ready : IsReady m) × ((idx : ℕ) → (slot_at ready.region idx).used ≡ false)
      × (init_pools pool m ≡ m)
unfolding init_pools new_manager
init-IsReady pool =
    let (r, packed, only) = init-Packed pool in
    let slots = fresh_slots r.slot_cap (pool 0) in
    (
      record {
        region = record r { slots = slots };
        only = only;
        packed = with_slots-Packed data_id_count r slots packed;
        sized = length-fresh_slots r.slot_cap (pool 0);
      },
      fresh_slots_free r.slot_cap (pool 0),
      refl,
    )
