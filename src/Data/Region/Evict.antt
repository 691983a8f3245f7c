-- ===== src/Data/Region/Evict.antt =====
-- `EvictExpired`: which slots it frees, and what that does to the keys that probe past them.
use dts_framework.Common.{
  ℕ, zero, suc, ◌+◌, ◌-◌, ◌*◌, ◌%◌, ◌^◌, ◌≤◌, ◌<◌, ◌≡◌, ◌≢◌, refl, sym, ap, ◌∙◌, subst, true, false,
  none, some, List, [], ◌∷◌, map, arith, ltb, get_or, ltb→lt, Bool-cases, inl, inr, ◌↔◌, length,
  get_or-set_ne,
}
use dts_framework.Data.Ids.{ttl_periods}
use dts_framework.Data.Region.{
  Slot, RegionDesc, no_slot, slot_at, set_slot, probe_index, acquire, find, is_expired, evict_slot,
  evict,
}
use dts_framework.Data.Region.Probe.{
  put, acquired, found, acquire_loop-probe, find_loop-probe, First, First-probe,
}
use dts_framework.Data.Region.Acquire.{IsSized, find-Found}

get_or-map :
    (f : Slot → Slot) (xs : List Slot) (i : ℕ) (d : Slot)
    → get_or (map f xs) i (f d) ≡ f (get_or xs i d)
get_or-map f [] i d = refl
get_or-map f (x ∷ xs) zero d = refl
get_or-map f (x ∷ xs) (suc i) d = get_or-map f xs i d

evict_no_slot : (r : RegionDesc) (now : ℕ) → evict_slot r now no_slot ≡ no_slot
unfolding evict_slot
evict_no_slot r now = refl

pub slot_at-evict :
    (r : RegionDesc) (now idx : ℕ) → slot_at (evict r now) idx ≡ evict_slot r now (slot_at r idx)
unfolding evict
slot_at-evict r now idx =
    sym (ap (get_or (map (evict_slot r now) r.slots) idx) (evict_no_slot r now))
    ∙ get_or-map (evict_slot r now) r.slots idx no_slot

length-map-slots : (f : Slot → Slot) (xs : List Slot) → length (map f xs) ≡ length xs
length-map-slots f [] = refl
length-map-slots f (x ∷ xs) = ap suc (length-map-slots f xs)

pub evict-IsSized : (r : RegionDesc) (now : ℕ) → IsSized r → IsSized (evict r now)
unfolding evict
evict-IsSized r now h = length-map-slots (evict_slot r now) r.slots ∙ h

expired_test :
    (r : RegionDesc) (now : ℕ) (s : Slot)
    → now < 2 ^ 32
    → ttl_periods * r.period_ticks < 2 ^ 32
    → s.head.last_tick ≤ now
    → is_expired r now s ≡ ltb (s.head.last_tick + ttl_periods * r.period_ticks) now
unfolding is_expired
expired_test r now s small short past =
    let e : (now + 2 ^ 32 - s.head.last_tick) % 2 ^ 32 ≡ now - s.head.last_tick = omega arith in
    let f : (ttl_periods * r.period_ticks) % 2 ^ 32 ≡ ttl_periods * r.period_ticks = omega arith in
    rw (e, f) (ground arith)

-- What `EvictExpired` makes of a slot `s`.
abbrev pub Kept : RegionDesc → ℕ → Slot → Slot → Type 0
Kept r now s t =
    ((t.used ≡ true) ↔ ((s.used ≡ true) × (now ≤ s.head.last_tick + ttl_periods * r.period_ticks)))
    × (t.key ≡ s.key)
    × (t.head ≡ s.head)
    × (t.body ≡ s.body)

evict_slot-Kept :
    (r : RegionDesc) (now : ℕ) (s : Slot)
    → is_expired r now s ≡ ltb (s.head.last_tick + ttl_periods * r.period_ticks) now
    → Kept r now s (evict_slot r now s)
unfolding evict_slot
evict_slot-Kept r now s e = elim (Bool-cases s.used) [
  | inl on ↦ elim (Bool-cases (is_expired r now s)) [
    | inl old ↦
        let late : s.head.last_tick + ttl_periods * r.period_ticks < now =
          ltb→lt _ _ (sym e ∙ old) in
        rw (on, old) (((λ h. cc), (λ h. absurd (omega (arith, h.1)))), refl, refl, refl)
    | inr young ↦
        let near : ltb (s.head.last_tick + ttl_periods * r.period_ticks) now ≡ false =
          sym e ∙ young in
        rw (on, young) (((λ h. (refl, ground arith)), (λ h. refl)), refl, refl, refl)
  ]
  | inr off ↦ rw off (((λ h. cc), (λ h. h.0)), refl, refl, refl)
]

-- `EvictExpired`: a slot is in use afterwards exactly if it was and its last tick is not further
-- back than the time to live; its key, head and bytes stay in any case. The tick and the time to
-- live are within 32 bits, and the last tick is not after the tick.
pub evict_exact :
    (r : RegionDesc) (now idx : ℕ)
    → now < 2 ^ 32
    → ttl_periods * r.period_ticks < 2 ^ 32
    → (slot_at r idx).head.last_tick ≤ now
    → Kept r now (slot_at r idx) (slot_at (evict r now) idx)
evict_exact r now idx small short past =
    subst (Kept r now (slot_at r idx)) (sym (slot_at-evict r now idx))
      (evict_slot-Kept r now (slot_at r idx) (expired_test r now (slot_at r idx) small short past))

expired_frees :
    (r : RegionDesc) (now : ℕ) (s : Slot)
    → is_expired r now s ≡ true
    → (evict_slot r now s).used ≡ false
unfolding evict_slot
expired_frees r now s e = ground arith

live_stays :
    (r : RegionDesc) (now : ℕ) (s : Slot) → is_expired r now s ≡ false → evict_slot r now s ≡ s
unfolding evict_slot
live_stays r now s e = ground arith

-- A free home slot ends every probe in round 0.
free_home-First :
    (r : RegionDesc) (key : ℕ) → (slot_at r (probe_index r key 0)).used ≡ false → First r key 0 0
free_home-First r key free = record {
  from = omega arith;
  here = rw free;
  before = λ k lo hi. absurd (omega arith);
}

free_home_find :
    (r : RegionDesc) (key : ℕ)
    → 0 < r.slot_cap
    → (slot_at r (probe_index r key 0)).used ≡ false
    → find r key ≡ none
unfolding find
free_home_find r key pos free =
    find_loop-probe r.slot_cap r key 0
    ∙ ap (found r key) (First-probe r.slot_cap r key 0 0 (free_home-First r key free) (omega arith))
    ∙ rw free

free_home_acquire :
    (r : RegionDesc) (domain period_ticks key now : ℕ)
    → 0 < r.slot_cap
    → (slot_at r (probe_index r key 0)).used ≡ false
    → acquire r domain period_ticks key now ≡ acquired r domain period_ticks key now (some 0)
unfolding acquire
free_home_acquire r domain period_ticks key now pos free =
    acquire_loop-probe r.slot_cap r domain period_ticks key now 0
    ∙ ap (acquired r domain period_ticks key now)
        (First-probe r.slot_cap r key 0 0 (free_home-First r key free) (omega arith))

-- Eviction leaves no tombstone: if a key is found away from its home slot, the home slot has
-- expired and the block of the key has not, then after `EvictExpired` the block is in use but not
-- found, and the next `AcquireBlock` gives the key a second block at home.
pub evict_hides :
    (r : RegionDesc) (key x now domain period_ticks later : ℕ)
    → find r key ≡ some x
    → x ≢ probe_index r key 0
    → is_expired r now (slot_at r (probe_index r key 0)) ≡ true
    → is_expired r now (slot_at r x) ≡ false
    → let e = evict r now in
      (find e key ≡ none)
      × ((slot_at e x).used ≡ true)
      × ((slot_at e x).key ≡ key)
      × ((r' : RegionDesc) × (acquire e domain period_ticks key later
            ≡ some (probe_index r key 0, r'))
          × (slot_at r' x ≡ slot_at e x))
unfolding evict
evict_hides r key x now domain period_ticks later seen away old young =
    let f = find-Found r key x seen in
    let home = probe_index r key 0 in
    let e = evict r now in
    let pos : 0 < r.slot_cap = omega (arith, f.below) in
    let free : (slot_at e home).used ≡ false =
      rw (slot_at-evict r now home) (expired_frees r now (slot_at r home) old) in
    let same : slot_at e x ≡ slot_at r x =
      slot_at-evict r now x ∙ live_stays r now (slot_at r x) young in
    let s' = put (slot_at e home) domain period_ticks key later in
    (
      free_home_find e key pos free,
      rw (same, f.index) f.used,
      rw (same, f.index) f.key_here,
      (
        set_slot e home s',
        free_home_acquire e domain period_ticks key later pos free,
        get_or-set_ne e.slots home x s' no_slot (λ h. away (sym h)),
      ),
    )
