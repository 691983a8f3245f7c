-- ===== src/Data/Factory/Slices.antt =====
-- The slices of a cell frame in contexts/data/domain/src/data_factory_v2.cpp: where they stand, and
-- whose slice lies within a frame.
pub mod Visits
pub mod Whole
use dts_framework.Common.{
  if◌then◌else◌, Bool-cases, inl, inr, false, ℕ, ◌%◌, ◌^◌, suc, ◌+◌, ◌≤◌, ◌<◌, ◌≡◌, refl, sym, ap,
  ◌∙◌, List, [], ◌∷◌, arith, length, length-take, length-drop, take, drop, get_or, ltb-false,
}
use dts_framework.Data.Ids.{data_id_count, spec_of, cell_raw_offset, cell_cache_sizes}
use dts_framework.Data.Ids.Layout.{spec_of_index, cell_raw_offset_index}
use dts_framework.Data.Aggregator
use dts_framework.Data.Aggregator.Frame.{Slice}
use dts_framework.Data.Registry.{ExtractorSpec}
use dts_framework.Data.Registry.Cells.{cell_extractor, AllCell}
use dts_framework.Data.Mem.Layout.{sizes_before, sizes_before-suc, sizes_before-le}
use dts_framework.Data.Factory.Gap.{is_short}

-- The size and the place of the slice of the data id `d + 1`.
pub record Place (d : ℕ) : Type 0 where
  pub size : ℕ
  pub cache_size : (spec_of (suc d)).cache_size ≡ size
  pub offset : cell_raw_offset (suc d) ≡ 10 + sizes_before d
  pub inside : sizes_before d + size ≤ 32758

pub place : (d : ℕ) → d < data_id_count → Place d
place d h =
    let e : d + 1 ≡ suc d = omega arith in
    record {
      size = get_or cell_cache_sizes d 0;
      cache_size =
          ap (λ k. (spec_of k).cache_size) (sym e) ∙ ap (λ s. s.cache_size) (spec_of_index d h);
      offset = ap cell_raw_offset (sym e) ∙ cell_raw_offset_index d h;
      inside = omega (arith, sizes_before-suc d h, sizes_before-le (d + 1) (omega arith));
    }

-- The slices of a whole frame lie within it.
pub place_inside :
    (d : ℕ) → d < data_id_count → cell_raw_offset (suc d) + (spec_of (suc d)).cache_size ≤ 32768
place_inside d h = let p = place d h in omega (arith, p.cache_size, p.offset, p.inside)

-- The bytes of a raw frame that belong to a data id.
abbrev pub slice_bytes : List ℕ → ExtractorSpec → List ℕ
slice_bytes raw s = take s.cache_size (drop (cell_raw_offset s.data_id) raw)

abbrev pub slices : List ℕ → List ExtractorSpec → List Slice
slices raw [] = []
slices raw (s ∷ ss) = record { data_id = s.data_id; bytes = slice_bytes raw s } ∷ slices raw ss

pub length-slice_bytes :
    (raw : List ℕ) (d : ℕ)
    → cell_raw_offset (suc d) + (spec_of (suc d)).cache_size ≤ length raw
    → length (slice_bytes raw (cell_extractor (suc d))) ≡ (spec_of (suc d)).cache_size
length-slice_bytes raw d long = omega (
  arith,
  length-take (spec_of (suc d)).cache_size (drop (cell_raw_offset (suc d)) raw),
  length-drop (cell_raw_offset (suc d)) raw,
)

-- The extractors whose slice lies within a frame of `len` bytes.
abbrev pub fitting : ℕ → List ExtractorSpec → List ExtractorSpec
fitting len [] = []
fitting len (s ∷ ss) = let rest = fitting len ss in if is_short len s.proc then rest else s ∷ rest

pub fitting-AllCell : (len : ℕ) (ss : List ExtractorSpec) → AllCell ss → AllCell (fitting len ss)
fitting-AllCell len [] all = tt
fitting-AllCell len (s ∷ ss) (here, all) = elim (Bool-cases (is_short len s.proc)) [
  | inl e ↦ rw e (fitting-AllCell len ss all)
  | inr e ↦ rw e (here, fitting-AllCell len ss all)
]

pub fitting_all :
    (len : ℕ) (ss : List ExtractorSpec) → 32768 ≤ len → AllCell ss → fitting len ss ≡ ss
unfolding is_short
fitting_all len [] long all = refl
fitting_all len (s ∷ ss) long ((d, h, e), all) =
    let inside : is_short len s.proc ≡ false =
      ap (λ k. is_short len k.proc) e
      ∙ ltb-false len ((cell_raw_offset (suc d) + (spec_of (suc d)).cache_size) % 2 ^ 32)
          (omega (arith, place_inside d h)) in
    rw inside (ap (◌∷◌ s) (fitting_all len ss long all))
