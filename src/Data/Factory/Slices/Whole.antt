-- ===== src/Data/Factory/Slices/Whole.antt =====
-- The slices of a whole cell frame, as the view of webserver/src/report_frame.h sees them.
use mathlib.Core.List.{Permᴰ}
use dts_framework.Common.{
  ℕ, suc, ◌+◌, ◌≤◌, ◌≡◌, refl, ap, ◌∙◌, List, [], ◌∷◌, arith, length, take_all, min, max,
}
use dts_framework.Data.Ids.{spec_of, cell_cache_sizes}
use dts_framework.Data.Aggregator.Frame.{Slice, size}
use dts_framework.Data.Registry.{ExtractorSpec}
use dts_framework.Data.Registry.Cells.{cell_extractors-AllCell, cell_extractors, AllCell}
use dts_framework.Web.ReportFrame.{ReportView, slice_limit}
use dts_framework.Web.ReportFrame.Scanning.{Ids, lowest, highest}
use dts_framework.Web.ReportFrame.RoundTrip.{expected_view}
use dts_framework.Data.Factory.Slices.{slices, slice_bytes, length-slice_bytes, place_inside}

-- What the web server should see of a report of all the slices.
abbrev pub cell_view : ℕ → ℕ → ℕ → ReportView
cell_view task_id ts seq = record {
  task_id = task_id;
  timestamp_ms = ts;
  seq = seq;
  payload_len = 34758;
  slice_count = 500;
  data_id_min = 1;
  data_id_max = 500;
  frame_len = 34782;
}

pub slices-Permᴰ :
    (raw : List ℕ) {ss rs : List ExtractorSpec}
    → Permᴰ ss rs
    → Permᴰ (slices raw ss) (slices raw rs)
slices-Permᴰ raw Permᴰ.nil = Permᴰ.nil
slices-Permᴰ raw (Permᴰ.cons e p) =
    Permᴰ.cons (ap (λ s. record { data_id = s.data_id; bytes = slice_bytes raw s }) e)
      (slices-Permᴰ raw p)
slices-Permᴰ raw (Permᴰ.swap e f) =
    Permᴰ.swap (ap (λ s. record { data_id = s.data_id; bytes = slice_bytes raw s }) e)
      (ap (λ s. record { data_id = s.data_id; bytes = slice_bytes raw s }) f)
slices-Permᴰ raw (Permᴰ.trans p q) = Permᴰ.trans (slices-Permᴰ raw p) (slices-Permᴰ raw q)

length-Permᴰ : {ss rs : List Slice} → Permᴰ ss rs → length ss ≡ length rs
length-Permᴰ Permᴰ.nil = refl
length-Permᴰ (Permᴰ.cons e p) = ap suc (length-Permᴰ p)
length-Permᴰ (Permᴰ.swap e f) = refl
length-Permᴰ (Permᴰ.trans p q) = length-Permᴰ p ∙ length-Permᴰ q

size-Permᴰ : {ss rs : List Slice} → Permᴰ ss rs → size ss ≡ size rs
size-Permᴰ Permᴰ.nil = refl
size-Permᴰ (Permᴰ.cons e p) = omega (arith, ap (λ s. length s.bytes) e, size-Permᴰ p)
size-Permᴰ (Permᴰ.swap e f) = omega (arith, ap (λ s. length s.bytes) e, ap (λ s. length s.bytes) f)
size-Permᴰ (Permᴰ.trans p q) = size-Permᴰ p ∙ size-Permᴰ q

lowest-Permᴰ : (m : ℕ) {ss rs : List Slice} → Permᴰ ss rs → lowest m ss ≡ lowest m rs
lowest-Permᴰ m Permᴰ.nil = refl
lowest-Permᴰ m (Permᴰ.cons {a = a} {b = b} {l₁ = l} e p) =
    ap (λ s. lowest (min m s.data_id) l) e ∙ lowest-Permᴰ (min m b.data_id) p
lowest-Permᴰ m (Permᴰ.swap {a = a} {b = b} {a' = c} {b' = d} {l = l} e f) =
    let same : min (min m a.data_id) b.data_id ≡ min (min m c.data_id) d.data_id =
      omega (arith, ap (λ s. s.data_id) e, ap (λ s. s.data_id) f) in
    ap (λ n. lowest n l) same
lowest-Permᴰ m (Permᴰ.trans p q) = lowest-Permᴰ m p ∙ lowest-Permᴰ m q

highest-Permᴰ : (m : ℕ) {ss rs : List Slice} → Permᴰ ss rs → highest m ss ≡ highest m rs
highest-Permᴰ m Permᴰ.nil = refl
highest-Permᴰ m (Permᴰ.cons {a = a} {b = b} {l₁ = l} e p) =
    ap (λ s. highest (max m s.data_id) l) e ∙ highest-Permᴰ (max m b.data_id) p
highest-Permᴰ m (Permᴰ.swap {a = a} {b = b} {a' = c} {b' = d} {l = l} e f) =
    let same : max (max m a.data_id) b.data_id ≡ max (max m c.data_id) d.data_id =
      omega (arith, ap (λ s. s.data_id) e, ap (λ s. s.data_id) f) in
    ap (λ n. highest n l) same
highest-Permᴰ m (Permᴰ.trans p q) = highest-Permᴰ m p ∙ highest-Permᴰ m q

pub slices-Ids : (raw : List ℕ) (ss : List ExtractorSpec) → AllCell ss → Ids (slices raw ss)
slices-Ids raw [] all = tt
slices-Ids raw (s ∷ ss) ((d, h, e), all) =
    (omega (arith, ap (λ k. k.data_id) e), slices-Ids raw ss all)

-- The bytes that the reports of some extractors take.
abbrev weight : List ExtractorSpec → ℕ
weight [] = 0
weight (s ∷ ss) = 4 + s.cache_size + weight ss

size-slices :
    (raw : List ℕ) (ss : List ExtractorSpec)
    → 32768 ≤ length raw
    → AllCell ss
    → size (slices raw ss) ≡ weight ss
size-slices raw [] long all = refl
size-slices raw (s ∷ ss) long ((d, h, e), all) = omega (
  arith,
  ap (λ k. length (slice_bytes raw k)) e,
  length-slice_bytes raw d (omega (arith, place_inside d h, long)),
  ap (λ k. k.cache_size) e,
  size-slices raw ss long all,
)

weight-cells : weight (cell_extractors 500 1) ≡ 34758
unfolding spec_of cell_cache_sizes
weight-cells = refl

-- All the slices of a frame, in some order.
module _ (raw : List ℕ) (long : 32768 ≤ length raw) (ss : List ExtractorSpec)
    (all : Permᴰ ss (cell_extractors 500 1)) where
  pub size-cells : size (slices raw ss) ≡ 34758
  size-cells =
      size-Permᴰ (slices-Permᴰ raw all)
      ∙ size-slices raw (cell_extractors 500 1) long (cell_extractors-AllCell 500 0 (omega arith))
      ∙ weight-cells

  length-cells : length (slices raw ss) ≡ 500
  length-cells = length-Permᴰ (slices-Permᴰ raw all)

  pub expected-cell_view :
      (task_id ts seq : ℕ) → expected_view task_id ts seq (slices raw ss) ≡ cell_view task_id ts seq
  expected-cell_view task_id ts seq =
      let whole = take_all slice_limit (slices raw ss) (omega (arith, length-cells)) in
      rw (
        whole,
        size-cells,
        length-cells,
        lowest-Permᴰ 0xffff (slices-Permᴰ raw all),
        highest-Permᴰ 0 (slices-Permᴰ raw all),
      )
