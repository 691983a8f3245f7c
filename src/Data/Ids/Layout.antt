-- ===== src/Data/Ids/Layout.antt =====
-- The slices of the raw frame stand one behind the other, and fill it.
use dts_framework.Common.{
  ℕ, zero, suc, ◌+◌, ◌≤◌, ◌<◌, ◌≡◌, refl, ap, ◌∙◌, true, false, List, [], ◌∷◌, arith, leb, length,
  get_or, take, take_all,
}
use dts_framework.Data.Ids.{
  index_of, data_id_count, cell_cache_sizes, spec_of, sum, cell_raw_offset, raw_len,
}

pub length-sizes : length cell_cache_sizes ≡ data_id_count
unfolding cell_cache_sizes
length-sizes = refl

pub sum-sizes : sum cell_cache_sizes ≡ 32758
unfolding cell_cache_sizes sum
sum-sizes = refl

pub sum-take-suc :
    (i : ℕ) (xs : List ℕ) → i < length xs → sum (take (i + 1) xs) ≡ sum (take i xs) + get_or xs i 0
unfolding sum
sum-take-suc i [] h = absurd (omega arith)
sum-take-suc zero (x ∷ xs) h = omega arith
sum-take-suc (suc i) (x ∷ xs) h =
    let e : suc i + 1 ≡ suc (i + 1) = omega arith in
    rw e (omega (arith, sum-take-suc i xs (omega arith)))

pub sum-take_mono : (i j : ℕ) (xs : List ℕ) → i ≤ j → sum (take i xs) ≤ sum (take j xs)
unfolding sum
sum-take_mono zero j xs h = omega arith
sum-take_mono (suc i) zero xs h = absurd (omega arith)
sum-take_mono (suc i) (suc j) [] h = omega arith
sum-take_mono (suc i) (suc j) (x ∷ xs) h = omega (arith, sum-take_mono i j xs (omega arith))

pub spec_of_index :
    (i : ℕ)
    → i < data_id_count
    → spec_of (i + 1) ≡ record {
      data_id = i + 1;
      data_type = 0;
      cache_size = get_or cell_cache_sizes i 0;
      period_ticks = 10;
      need_cache = true;
    }
unfolding spec_of
spec_of_index i h =
    let e : index_of (i + 1) ≡ i = omega arith in
    let f : leb data_id_count i ≡ false = ground arith in rw (e, f)

pub cell_raw_offset_index :
    (i : ℕ) → i < data_id_count → cell_raw_offset (i + 1) ≡ 10 + sum (take i cell_cache_sizes)
unfolding cell_raw_offset
cell_raw_offset_index i h = let e : index_of (i + 1) ≡ i = omega arith in rw e

-- The slices of two data ids from 1 to 500 stand apart and in order, behind the 10 bytes of head
-- and inside the raw frame.
pub slices_apart :
    (d e : ℕ)
    → 1 ≤ d
    → d < e
    → e ≤ data_id_count
    → (10 ≤ cell_raw_offset d)
      × (cell_raw_offset d + (spec_of d).cache_size ≤ cell_raw_offset e)
      × (cell_raw_offset e + (spec_of e).cache_size ≤ raw_len)
slices_apart zero e h lt le = absurd (omega arith)
slices_apart (suc d) zero h lt le = absurd (omega arith)
slices_apart (suc d) (suc e) h lt le =
    let od = at_index d (omega arith) in
    let oe = at_index e (omega arith) in
    (
      omega (arith, od.0),
      omega (
        arith,
        od.0,
        od.1,
        oe.0,
        next d (omega arith),
        sum-take_mono (d + 1) e sizes (omega arith),
      ),
      omega (
        arith,
        oe.0,
        oe.1,
        next e (omega arith),
        sum-take_mono (e + 1) data_id_count sizes (omega arith),
        whole,
      ),
    )
  where
    sizes : List ℕ
    sizes = cell_cache_sizes

    at_index :
        (i : ℕ)
        → i < data_id_count
        → (cell_raw_offset (suc i) ≡ 10 + sum (take i sizes))
          × ((spec_of (suc i)).cache_size ≡ get_or sizes i 0)
    at_index i lt =
        let e : suc i ≡ i + 1 = omega arith in
        rw e (cell_raw_offset_index i lt, ap (λ s. s.cache_size) (spec_of_index i lt))

    next :
        (i : ℕ)
        → i < data_id_count
        → sum (take (i + 1) sizes) ≡ sum (take i sizes) + get_or sizes i 0
    next i lt = sum-take-suc i sizes (omega (arith, length-sizes))

    whole : sum (take data_id_count sizes) ≡ 32758
    whole = ap sum (take_all data_id_count sizes (omega (arith, length-sizes))) ∙ sum-sizes
