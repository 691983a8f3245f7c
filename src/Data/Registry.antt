-- ===== src/Data/Registry.antt =====
-- contexts/data/domain/include/extractor.h, extractor_registry.h, src/extractor_registry.cpp and
-- src/extractors.cpp. An extractor is a `CCellSlice`, the only subclass; `Hton` is the inherited
-- one, which changes nothing. The table is an association list; in which order `ForEachByDomain`
-- meets its entries is a parameter of its callers.
pub mod Laws
pub mod Cells
use Prim.Native.Nat.{bit_or}
use dts_framework.Common.{
  ℕ, zero, suc, ◌+◌, ◌*◌, ◌%◌, ◌^◌, Bool, true, false, Option, none, some, List, [], ◌∷◌, ltb, ◌==◌,
  if◌then◌else◌, take, drop, lookup, insert,
}
use dts_framework.Data.Ids.{spec_of, cell_raw_offset, data_id_base, data_id_count}

pub record CellSlice : Type 0 where
  pub offset : ℕ
  pub size : ℕ

-- `CCellSlice::Extra`: the bytes that it copies to the cache, or `none` where it returns -1.
unfoldable pub extra : CellSlice → Option (List ℕ) → ℕ → Option (List ℕ)
extra c none len = none
extra c (some raw) len =
    if ltb len ((c.offset + c.size) % 2 ^ 32) then none else some (take c.size (drop c.offset raw))

-- `Extractor::Hton`
abbrev pub hton : List ℕ → List ℕ
hton cache = cache

pub record ExtractorSpec : Type 0 where
  pub data_id : ℕ
  pub data_type : ℕ
  pub cache_size : ℕ
  pub period_ticks : ℕ
  pub need_cache : Bool
  pub proc : Option CellSlice

abbrev pub Table : Type 0
Table = List (ℕ × ExtractorSpec)

-- `(uint32_t(dataType) << 16) | dataId`
abbrev pub table_key : ℕ → ℕ → ℕ
table_key data_type data_id = bit_or ((data_type * 2 ^ 16) % 2 ^ 32) data_id

unfoldable pub find : Table → ℕ → ℕ → Option ExtractorSpec
find t data_type data_id = lookup (table_key data_type data_id) t

unfoldable pub register : Table → ExtractorSpec → Bool × Table
register t s = elim (lookup (table_key s.data_type s.data_id) t) [
  | some _ ↦ (false, t)
  | none ↦ (true, insert (table_key s.data_type s.data_id) s t)
]

-- The entries that `ForEachByDomain` hands to its callback, from the table in iteration order.
unfoldable pub of_domain : ℕ → Table → List ExtractorSpec
of_domain data_type [] = []
of_domain data_type ((_, s) ∷ t) =
    let rest = of_domain data_type t in if s.data_type == data_type then s ∷ rest else rest

-- The loop of `InitExtractors`, with the rounds left.
unfoldable pub init_extractors_from : ℕ → ℕ → Table → Table
init_extractors_from zero i t = t
init_extractors_from (suc left) i t =
    let id = data_id_base + i in
    let s = spec_of id in
    let spec : ExtractorSpec = record {
      data_id = id;
      data_type = s.data_type;
      cache_size = s.cache_size;
      period_ticks = s.period_ticks;
      need_cache = s.need_cache;
      proc = some (record { offset = cell_raw_offset id; size = s.cache_size });
    } in
    init_extractors_from left (i + 1) (if s.data_id == 0 then t else (register t spec).1)

unfoldable pub init_extractors : Table → Table
init_extractors = init_extractors_from data_id_count 0
