-- ===== src/Tests/Regions.antt =====
-- The hash regions of contexts/data/domain/src/data_mem_manager.cpp, at a region of three slots:
-- key 3 was claimed behind key 0, which the two share their home slot with.
use dts_framework.Common.{ℕ, ◌≡◌, refl, true, false, some, none, [], ◌∷◌, arith}
use dts_framework.Data.Region.{
  RegionDesc, Slot, slot_at, acquire, acquire_loop, find, find_loop, evict, is_expired,
}
use dts_framework.Data.Region.Laws.{Claims, acquire-Claims, find-acquire_keeps}
use dts_framework.Data.Region.Evict.{Kept, evict_exact, evict_hides}

abbrev taken_slot : ℕ → ℕ → Slot
taken_slot key tick = record {
  used = true;
  key = key;
  head = record { type = 0; last_tick = tick; period_ticks = 10 };
  body = [];
}

abbrev free_slot : Slot
free_slot = record {
  used = false;
  key = 0;
  head = record { type = 0; last_tick = 0; period_ticks = 0 };
  body = [];
}

abbrev two_keys : RegionDesc
two_keys = record {
  domain = 0;
  period_ticks = 10;
  slot_cap = 3;
  block_size = 24;
  slots = taken_slot 0 0 ∷ taken_slot 3 90 ∷ free_slot ∷ [];
  slot_offset = [];
}

abbrev three_keys : RegionDesc
three_keys = record two_keys { slots = taken_slot 0 0 ∷ taken_slot 3 90 ∷ taken_slot 6 95 ∷ [] }

claimed : acquire two_keys 0 10 6 95 ≡ some (2, three_keys)
unfolding acquire acquire_loop
claimed = refl

seen : find two_keys 3 ≡ some 1
unfolding find find_loop
seen = refl

acquire-Claims_example : Claims two_keys 6 95 2 three_keys
acquire-Claims_example = acquire-Claims two_keys 0 10 6 95 2 three_keys refl claimed

find-acquire_keeps_example : find three_keys 3 ≡ some 1
find-acquire_keeps_example =
    find-acquire_keeps two_keys 0 10 6 95 2 three_keys 3 1 refl claimed seen

evict_exact_example : Kept two_keys 100 (slot_at two_keys 0) (slot_at (evict two_keys 100) 0)
evict_exact_example = evict_exact two_keys 100 0 (omega arith) (omega arith) (omega arith)

old : is_expired two_keys 100 (slot_at two_keys 0) ≡ true
unfolding is_expired
old = refl

young : is_expired two_keys 100 (slot_at two_keys 1) ≡ false
unfolding is_expired
young = refl

evict_hides_example :
    let e = evict two_keys 100 in
    (find e 3 ≡ none)
    × ((slot_at e 1).used ≡ true)
    × ((slot_at e 1).key ≡ 3)
    × ((r' : RegionDesc) × (acquire e 0 10 3 101 ≡ some (0, r')) × (slot_at r' 1 ≡ slot_at e 1))
evict_hides_example = evict_hides two_keys 3 1 100 0 10 101 seen (omega arith) old young
