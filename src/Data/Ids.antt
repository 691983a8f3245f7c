-- ===== src/Data/Ids.antt =====
-- contexts/data/domain/include/data_ids.h, with the hash keys and constants of data_config.h and
-- the types of data_model.h that it uses. Data types are their numbers: `DataType::CELL` is 0.
pub mod Layout
use dts_framework.Common.{
  ℕ, ◌+◌, ◌-◌, ◌*◌, ◌%◌, ◌^◌, Bool, true, false, List, [], ◌∷◌, leb, if◌then◌else◌, get_or, take,
}
use Prim.Native.Nat.{bit_or}

abbrev pub cell : ℕ
cell = 0

abbrev pub ue : ℕ
ue = 1

abbrev pub cell_slot_cap : ℕ
cell_slot_cap = 384

abbrev pub tick_ms : ℕ
tick_ms = 100

abbrev pub period_1s : ℕ
period_1s = 10

abbrev pub ttl_periods : ℕ
ttl_periods = 3

-- `(uint64_t(cellId) << 32) | cpId`, for ids of 32 bits
unfoldable pub cell_hash_key : ℕ → ℕ → ℕ
cell_hash_key cell_id cp_id = bit_or ((cell_id * 2 ^ 32) % 2 ^ 64) cp_id

unfoldable pub ue_hash_key : ℕ → ℕ → ℕ
ue_hash_key cell_id ue_id = bit_or ((cell_id * 2 ^ 32) % 2 ^ 64) ue_id

abbrev pub data_id_base : ℕ
data_id_base = 1

abbrev pub data_id_count : ℕ
data_id_count = 500

abbrev pub raw_len : ℕ
raw_len = 32768

-- Kept shut where it is not evaluated: it has 500 entries.
unfoldable pub cell_cache_sizes : List ℕ
cell_cache_sizes =
    167 ∷ 32 ∷ 10 ∷ 193 ∷ 74 ∷ 66 ∷ 61 ∷ 39 ∷ 192 ∷ 30 ∷ 177 ∷ 193 ∷ 143 ∷ 26 ∷ 155 ∷ 112 ∷ 12 ∷ 11
    ∷ 27 ∷ 59 ∷ 63 ∷ 133 ∷ 158 ∷ 10 ∷ 147 ∷ 54 ∷ 187 ∷ 170 ∷ 183 ∷ 143 ∷ 111 ∷ 60 ∷ 118 ∷ 154 ∷ 75
    ∷ 5 ∷ 198 ∷ 44 ∷ 182 ∷ 112 ∷ 91 ∷ 75 ∷ 43 ∷ 59 ∷ 199 ∷ 90 ∷ 30 ∷ 27 ∷ 101 ∷ 28 ∷ 95 ∷ 92 ∷ 158
    ∷ 71 ∷ 15 ∷ 190 ∷ 121 ∷ 141 ∷ 35 ∷ 100 ∷ 24 ∷ 145 ∷ 79 ∷ 164 ∷ 162 ∷ 96 ∷ 151 ∷ 53 ∷ 184 ∷ 21
    ∷ 15 ∷ 173 ∷ 62 ∷ 78 ∷ 24 ∷ 63 ∷ 29 ∷ 101 ∷ 75 ∷ 120 ∷ 166 ∷ 97 ∷ 45 ∷ 98 ∷ 94 ∷ 57 ∷ 175 ∷ 72
    ∷ 183 ∷ 178 ∷ 169 ∷ 22 ∷ 159 ∷ 166 ∷ 47 ∷ 140 ∷ 190 ∷ 66 ∷ 45 ∷ 122 ∷ 101 ∷ 73 ∷ 167 ∷ 180 ∷ 146
    ∷ 60 ∷ 179 ∷ 87 ∷ 200 ∷ 18 ∷ 62 ∷ 12 ∷ 84 ∷ 106 ∷ 72 ∷ 20 ∷ 58 ∷ 149 ∷ 187 ∷ 84 ∷ 58 ∷ 171 ∷ 131
    ∷ 105 ∷ 168 ∷ 121 ∷ 40 ∷ 71 ∷ 39 ∷ 67 ∷ 194 ∷ 147 ∷ 141 ∷ 71 ∷ 195 ∷ 153 ∷ 113 ∷ 153 ∷ 106 ∷ 96
    ∷ 60 ∷ 39 ∷ 134 ∷ 130 ∷ 27 ∷ 197 ∷ 16 ∷ 32 ∷ 43 ∷ 164 ∷ 44 ∷ 178 ∷ 112 ∷ 156 ∷ 20 ∷ 102 ∷ 101
    ∷ 156 ∷ 123 ∷ 139 ∷ 68 ∷ 145 ∷ 6 ∷ 178 ∷ 188 ∷ 33 ∷ 178 ∷ 141 ∷ 196 ∷ 72 ∷ 200 ∷ 168 ∷ 91 ∷ 32
    ∷ 79 ∷ 115 ∷ 44 ∷ 120 ∷ 4 ∷ 188 ∷ 188 ∷ 71 ∷ 132 ∷ 199 ∷ 49 ∷ 133 ∷ 31 ∷ 164 ∷ 80 ∷ 167 ∷ 133
    ∷ 159 ∷ 54 ∷ 43 ∷ 99 ∷ 199 ∷ 45 ∷ 142 ∷ 139 ∷ 4 ∷ 157 ∷ 86 ∷ 129 ∷ 8 ∷ 32 ∷ 96 ∷ 82 ∷ 65 ∷ 18
    ∷ 65 ∷ 149 ∷ 24 ∷ 25 ∷ 191 ∷ 128 ∷ 21 ∷ 198 ∷ 140 ∷ 200 ∷ 36 ∷ 36 ∷ 172 ∷ 125 ∷ 144 ∷ 46 ∷ 71
    ∷ 139 ∷ 159 ∷ 112 ∷ 58 ∷ 142 ∷ 197 ∷ 190 ∷ 180 ∷ 55 ∷ 186 ∷ 83 ∷ 106 ∷ 175 ∷ 170 ∷ 99 ∷ 116
    ∷ 136 ∷ 119 ∷ 34 ∷ 67 ∷ 61 ∷ 20 ∷ 90 ∷ 9 ∷ 154 ∷ 145 ∷ 62 ∷ 154 ∷ 60 ∷ 5 ∷ 22 ∷ 185 ∷ 165 ∷ 19
    ∷ 62 ∷ 21 ∷ 12 ∷ 88 ∷ 22 ∷ 135 ∷ 64 ∷ 75 ∷ 175 ∷ 128 ∷ 58 ∷ 142 ∷ 37 ∷ 189 ∷ 150 ∷ 151 ∷ 125
    ∷ 66 ∷ 125 ∷ 108 ∷ 52 ∷ 28 ∷ 28 ∷ 172 ∷ 114 ∷ 94 ∷ 112 ∷ 109 ∷ 123 ∷ 190 ∷ 17 ∷ 176 ∷ 171 ∷ 169
    ∷ 29 ∷ 19 ∷ 107 ∷ 190 ∷ 90 ∷ 31 ∷ 67 ∷ 53 ∷ 52 ∷ 141 ∷ 118 ∷ 39 ∷ 112 ∷ 50 ∷ 75 ∷ 122 ∷ 67 ∷ 23
    ∷ 117 ∷ 107 ∷ 5 ∷ 4 ∷ 9 ∷ 4 ∷ 4 ∷ 4 ∷ 4 ∷ 5 ∷ 4 ∷ 4 ∷ 4 ∷ 4 ∷ 4 ∷ 4 ∷ 4 ∷ 4 ∷ 4 ∷ 4 ∷ 4 ∷ 4 ∷ 4
    ∷ 4 ∷ 4 ∷ 4 ∷ 4 ∷ 4 ∷ 4 ∷ 4 ∷ 4 ∷ 4 ∷ 4 ∷ 4 ∷ 4 ∷ 4 ∷ 4 ∷ 4 ∷ 4 ∷ 4 ∷ 4 ∷ 4 ∷ 4 ∷ 4 ∷ 4 ∷ 4 ∷ 4
    ∷ 4 ∷ 4 ∷ 4 ∷ 4 ∷ 4 ∷ 4 ∷ 4 ∷ 4 ∷ 4 ∷ 4 ∷ 4 ∷ 4 ∷ 4 ∷ 4 ∷ 4 ∷ 4 ∷ 4 ∷ 4 ∷ 4 ∷ 4 ∷ 4 ∷ 4 ∷ 4 ∷ 4
    ∷ 4 ∷ 4 ∷ 4 ∷ 4 ∷ 4 ∷ 4 ∷ 4 ∷ 4 ∷ 4 ∷ 4 ∷ 4 ∷ 4 ∷ 4 ∷ 4 ∷ 4 ∷ 4 ∷ 4 ∷ 4 ∷ 4 ∷ 4 ∷ 4 ∷ 4 ∷ 4 ∷ 4
    ∷ 4 ∷ 4 ∷ 4 ∷ 4 ∷ 4 ∷ 4 ∷ 4 ∷ 4 ∷ 4 ∷ 4 ∷ 4 ∷ 4 ∷ 4 ∷ 4 ∷ 4 ∷ 4 ∷ 4 ∷ 4 ∷ 4 ∷ 4 ∷ 4 ∷ 4 ∷ 4 ∷ 4
    ∷ 4 ∷ 4 ∷ 4 ∷ 4 ∷ 4 ∷ 4 ∷ 4 ∷ 4 ∷ 4 ∷ 4 ∷ 4 ∷ 4 ∷ 4 ∷ 4 ∷ 4 ∷ 4 ∷ 4 ∷ 4 ∷ 4 ∷ 4 ∷ 4 ∷ 4 ∷ 4 ∷ 4
    ∷ 4 ∷ 4 ∷ 4 ∷ 4 ∷ 4 ∷ 4 ∷ 4 ∷ 4 ∷ 4 ∷ 4 ∷ 4 ∷ 4 ∷ 4 ∷ 4 ∷ 4 ∷ 4 ∷ 4 ∷ 4 ∷ 4 ∷ 4 ∷ 4 ∷ 4 ∷ 4 ∷ 4
    ∷ 4 ∷ 4 ∷ 4 ∷ 4 ∷ 4 ∷ 4 ∷ 4 ∷ 4 ∷ 4 ∷ 4 ∷ 4 ∷ 4 ∷ 4 ∷ 4 ∷ 4 ∷ 4 ∷ 4 ∷ 4 ∷ 4 ∷ 4 ∷ 4 ∷ []

pub record DataIdSpec : Type 0 where
  pub data_id : ℕ
  pub data_type : ℕ
  pub cache_size : ℕ
  pub period_ticks : ℕ
  pub need_cache : Bool

-- `const uint16_t i = dataId - kCellDataIdBase`, which wraps at 0
abbrev pub index_of : ℕ → ℕ
index_of data_id = (data_id + 2 ^ 16 - data_id_base) % 2 ^ 16

unfoldable pub spec_of : ℕ → DataIdSpec
spec_of data_id =
    if leb data_id_count (index_of data_id)
    then record { data_id = 0; data_type = 0; cache_size = 0; period_ticks = 0; need_cache = false }
    else record {
      data_id = data_id;
      data_type = cell;
      cache_size = get_or cell_cache_sizes (index_of data_id) 0;
      period_ticks = 10;
      need_cache = true;
    }

unfoldable pub sum : List ℕ → ℕ
sum [] = 0
sum (x ∷ xs) = x + sum xs

-- The header of 10 bytes and the slices before. The source reads past the table at an index over
-- 500, where this stops adding.
unfoldable pub cell_raw_offset : ℕ → ℕ
unfolding sum
cell_raw_offset data_id = 10 + sum (take (index_of data_id) cell_cache_sizes)
