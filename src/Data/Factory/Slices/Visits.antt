-- ===== src/Data/Factory/Slices/Visits.antt =====
-- What each extractor of a cell frame does in contexts/data/domain/src/data_factory_v2.cpp: to the
-- block, and to the report.
use dts_framework.Common.{
  ltb-false→le, Bool-cases, inl, inr, false, ℕ, subst, ◌%◌, ◌^◌, suc, ◌+◌, ◌≤◌, ◌<◌, ◌≡◌, refl, sym,
  ap, ◌∙◌, some, List, [], ◌∷◌, arith, length, ltb-false, lt→ltb,
}
use dts_framework.Data.Ids.{data_id_count, cell_slot_cap, spec_of, cell_raw_offset}
use dts_framework.Data.Aggregator
use dts_framework.Data.Aggregator.{ReportAggregator}
use dts_framework.Data.Aggregator.Frame.{add_all}
use dts_framework.Data.Registry.{ExtractorSpec, extra}
use dts_framework.Data.Registry.Cells.{cell_extractor, AllCell}
use dts_framework.Data.Region.{RegionDesc}
use dts_framework.Data.Mem.{slot_of, body_start, write_slot, read_slot}
use dts_framework.Data.Mem.Layout.{ready, sizes_before}
use dts_framework.Data.Mem.Slots.{read_slot-write_slot}
use dts_framework.Data.Mem.Room.{Room, block_at, filled, filled-Room}
use dts_framework.Data.Factory.Gap.{is_short, visit_short}
use dts_framework.Data.Factory.{Pass, inc64, visit, visit_all, in_block, add_slice}
use dts_framework.Data.Factory.Slices.{
  place, place_inside, slice_bytes, slices, length-slice_bytes, fitting,
}

extra_cell :
    (raw : List ℕ) (d : ℕ)
    → cell_raw_offset (suc d) + (spec_of (suc d)).cache_size ≤ length raw
    → d < data_id_count
    → extra
        (record { offset = cell_raw_offset (suc d); size = (spec_of (suc d)).cache_size })
        (some raw)
        (length raw)
      ≡ some (slice_bytes raw (cell_extractor (suc d)))
unfolding extra
extra_cell raw d long h = rw (
    ltb-false (length raw) ((cell_raw_offset (suc d) + (spec_of (suc d)).cache_size) % 2 ^ 32)
      (omega (arith, place_inside d h)))

slot_of_cell :
    (r : RegionDesc) (idx d : ℕ)
    → Room r
    → idx < cell_slot_cap
    → d < data_id_count
    → slot_of (ready r) (block_at idx) (suc d) ≡ some (body_start + sizes_before d)
unfolding slot_of
slot_of_cell r idx d v low h =
    let e : suc d ≡ d + 1 = omega arith in
    rw (lt→ltb idx r.slot_cap (omega (arith, v.packed.slot_cap)), e) (v.packed.offsets d h)

-- Where the slice of a data id goes in a block.
abbrev pub home : ℕ → ℕ
home d = body_start + sizes_before d

visit_cell :
    (raw : List ℕ) (r : RegionDesc) (idx d count : ℕ) (agg : ReportAggregator)
    → cell_raw_offset (suc d) + (spec_of (suc d)).cache_size ≤ length raw
    → Room r
    → idx < cell_slot_cap
    → d < data_id_count
    → let s = cell_extractor (suc d) in
      let bytes = slice_bytes raw s in
      visit
        (block_at idx)
        (some raw)
        (length raw)
        (record { mem = ready r; agg = agg; count = count })
        s
      ≡ record {
        mem = ready (filled r idx (home d) bytes);
        agg = Aggregator.add agg s.data_id (some bytes) (length bytes);
        count = inc64 count;
      }
unfolding visit in_block add_slice write_slot
visit_cell raw r idx d count agg long v low h =
    rw (slot_of_cell r idx d v low h, extra_cell raw d long h)
      (λ i. record {
        mem = ready (filled r idx (home d) bytes);
        agg = Aggregator.add agg (suc d) (some (read i)) (sym size i);
        count = inc64 count;
      })
  where
    bytes : List ℕ
    bytes = slice_bytes raw (cell_extractor (suc d))

    size : length bytes ≡ (spec_of (suc d)).cache_size
    size = length-slice_bytes raw d long

    read :
        read_slot
          (write_slot (ready r) (block_at idx) (home d) bytes)
          (block_at idx)
          (home d)
          (spec_of (suc d)).cache_size
        ≡ bytes
    read =
        subst
          (λ n.
            read_slot (write_slot (ready r) (block_at idx) (home d) bytes) (block_at idx) (home d) n
            ≡ bytes)
          size
          (read_slot-write_slot (ready r) (block_at idx) (home d) bytes (omega arith)
            (omega (arith, v.sized, v.packed.slot_cap))
            (omega (arith, v.bodies idx low, (place d h).inside))).0

fits_inside :
    (len d : ℕ)
    → d < data_id_count
    → is_short len (cell_extractor (suc d)).proc ≡ false
    → cell_raw_offset (suc d) + (spec_of (suc d)).cache_size ≤ len
unfolding is_short
fits_inside len d h e =
    let there =
      ltb-false→le len ((cell_raw_offset (suc d) + (spec_of (suc d)).cache_size) % 2 ^ 32) e in
    omega (arith, there, place_inside d h)

filled_cell-Room :
    (raw : List ℕ) (r : RegionDesc) (idx d : ℕ)
    → cell_raw_offset (suc d) + (spec_of (suc d)).cache_size ≤ length raw
    → Room r
    → idx < cell_slot_cap
    → d < data_id_count
    → Room (filled r idx (home d) (slice_bytes raw (cell_extractor (suc d))))
filled_cell-Room raw r idx d long v low h =
    let p = place d h in
    filled-Room r idx (home d) (slice_bytes raw (cell_extractor (suc d))) v low
      (omega (arith, p.inside, p.cache_size, length-slice_bytes raw d long))

-- The extractors of a cell frame, in any order: the report gets the slice of each that fits in the
-- frame, and every block keeps its size.
pub record Visited (raw : List ℕ) (ss : List ExtractorSpec) (agg : ReportAggregator) (p : Pass)
    : Type 0 where
  pub region : RegionDesc
  pub mem : p.mem ≡ ready region
  pub room : Room region
  pub report : p.agg ≡ add_all agg (slices raw ss)

pub visit_all-Visited :
    (raw : List ℕ) (r : RegionDesc) (idx count : ℕ) (agg : ReportAggregator)
    (ss : List ExtractorSpec)
    → Room r
    → idx < cell_slot_cap
    → AllCell ss
    → Visited raw (fitting (length raw) ss) agg (
        visit_all
          (block_at idx)
          (some raw)
          (length raw)
          (record { mem = ready r; agg = agg; count = count })
          ss)
unfolding visit_all add_all
visit_all-Visited raw r idx count agg [] v low all = record {
  region = r;
  mem = refl;
  room = v;
  report = refl;
}
visit_all-Visited raw r idx count agg (s ∷ ss) v low ((d, h, e), all) =
    elim (Bool-cases (is_short (length raw) s.proc)) [
      | inl short ↦
          rw
            (
              short,
              visit_short (block_at idx) (some raw) (length raw)
                  (record { mem = ready r; agg = agg; count = count }) s short,
            )
            (visit_all-Visited raw r idx count agg ss v low all)
      | inr fits ↦
          let long =
            fits_inside (length raw) d h (sym (ap (λ k. is_short (length raw) k.proc) e) ∙ fits) in
          let bytes = slice_bytes raw (cell_extractor (suc d)) in
          let w =
            visit_all-Visited raw (filled r idx (home d) bytes) idx (inc64 count)
              (Aggregator.add agg (suc d) (some bytes) (length bytes)) ss
              (filled_cell-Room raw r idx d long v low h) low all in
          rw (fits, e, visit_cell raw r idx d count agg long v low h)
            (record { region = w.region; mem = w.mem; room = w.room; report = w.report })
    ]
