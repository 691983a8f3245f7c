-- ===== src/Data/Region/Laws.antt =====
-- The contract of `AcquireBlock` and `FindBlock`.
use dts_framework.Common.{
  ℕ, ◌+◌, ◌-◌, ◌%◌, ◌<◌, ◌≡◌, ◌≢◌, refl, sym, ap, ◌∙◌, subst, true, false, none, some, arith,
  ==_iff, length-set, get_or-set_ne, Option-cases, inl, inr, ◌↔◌,
}
use native.Mathlib.Decide.{dec_lt}
use native.Mathlib.Nat.{mod-eq_of_lt, mod-eq-sub-mod}
use dts_framework.Data.Region.{
  Slot, RegionDesc, no_slot, slot_at, set_slot, probe_index, acquire, find,
}
use dts_framework.Data.Region.Probe.{
  stops, probe, put, acquired, acquire_loop-probe, First, probe-First, probe-none,
}
use dts_framework.Data.Region.Acquire.{
  IsSized, acquire-Acquired, put_slot, index-lt, First-replaced, First-self, found-First, at_target,
  still_holds, find-Found,
}

-- The block that `AcquireBlock` hands out, and all else that it leaves.
pub record Claims (r : RegionDesc) (key now idx : ℕ) (r' : RegionDesc) : Type 0 where
  pub inside : idx < r.slot_cap
  pub used : (slot_at r' idx).used ≡ true
  pub keyed : (slot_at r' idx).key ≡ key
  pub touched : (slot_at r' idx).head.last_tick ≡ now
  pub body : (slot_at r' idx).body ≡ (slot_at r idx).body
  pub others : (j : ℕ) → j ≢ idx → slot_at r' j ≡ slot_at r j
  pub cap : r'.slot_cap ≡ r.slot_cap
  pub sized : IsSized r'
  pub findable : find r' key ≡ some idx

Claims-round :
    (r : RegionDesc) (domain period_ticks key now j : ℕ)
    → IsSized r
    → j < r.slot_cap
    → First r key 0 j
    → let i = probe_index r key j in
      Claims r key now i (set_slot r i (put (slot_at r i) domain period_ticks key now))
Claims-round r domain period_ticks key now j sized below f =
    let i = probe_index r key j in
    let s' = put (slot_at r i) domain period_ticks key now in
    let (u, k, t, b) = put_slot (slot_at r i) domain period_ticks key now f.here in
    let new = at_target r sized key j below f.here s' u k in
    let again = First-self r sized key j below f.here s' u k f in
    record {
      inside = index-lt r key j below;
      used = rw new u;
      keyed = rw new k;
      touched = rw new t;
      body = rw new b;
      others = λ m other. get_or-set_ne r.slots i m s' no_slot (λ e. other (sym e));
      cap = refl;
      sized = length-set r.slots i s' ∙ sized;
      findable = found-First (set_slot r i s') key j again below (rw new u);
    }

-- In a region with a slot for each index, a successful `AcquireBlock` hands out one block inside
-- the region, in use under the key and stamped with the tick, changes no byte and no other slot,
-- and `FindBlock` finds that block afterwards.
pub acquire-Claims :
    (r : RegionDesc) (domain period_ticks key now idx : ℕ) (r' : RegionDesc)
    → IsSized r
    → acquire r domain period_ticks key now ≡ some (idx, r')
    → Claims r key now idx r'
acquire-Claims r domain period_ticks key now idx r' sized done =
    let a = acquire-Acquired r domain period_ticks key now idx r' done in
    rw (a.index, a.state) (Claims-round r domain period_ticks key now a.round sized a.below a.first)

-- In a region with a slot for each index, a successful `AcquireBlock` under any key leaves a key
-- that `FindBlock` found with the same block.
pub find-acquire_keeps :
    (r : RegionDesc) (domain period_ticks key now idx : ℕ) (r' : RegionDesc) (q x : ℕ)
    → IsSized r
    → acquire r domain period_ticks key now ≡ some (idx, r')
    → find r q ≡ some x
    → find r' q ≡ some x
find-acquire_keeps r domain period_ticks key now idx r' q x sized done seen =
    let a = acquire-Acquired r domain period_ticks key now idx r' done in
    let f = find-Found r q x seen in
    let i = probe_index r key a.round in
    let s' = put (slot_at r i) domain period_ticks key now in
    let (u, k, _, _) = put_slot (slot_at r i) domain period_ticks key now a.first.here in
    let again =
      First-replaced r sized key a.round a.below a.first.here s' u k q f.round f.first f.used
        f.key_here in
    rw (a.state, f.index)
      (found-First (set_slot r i s') q f.round again f.below
        (still_holds r sized key a.round a.below a.first.here s' u k q (probe_index r q f.round)
          f.used f.key_here).0)

-- A block that `FindBlock` finds is inside the region, in use, and under the key.
pub find_sound :
    (r : RegionDesc) (key x : ℕ)
    → find r key ≡ some x
    → (x < r.slot_cap) × ((slot_at r x).used ≡ true) × ((slot_at r x).key ≡ key)
find_sound r key x seen =
    let f = find-Found r key x seen in
    rw f.index (index-lt r key f.round f.below, f.used, f.key_here)

-- Every index below the capacity is probed in some round.
mod_round : (s idx cap : ℕ) → s < cap → idx < cap → (j : ℕ) × (j < cap) × ((s + j) % cap ≡ idx)
mod_round s idx cap hs h = elim (dec_lt idx s) [
  | yes before ↦
      let e : s + (cap + idx - s) ≡ cap + idx = omega arith in
      (
        cap + idx - s,
        omega arith,
        rw e (
            mod-eq-sub-mod {n = cap + idx} {m = cap} (omega arith)
            ∙ (let f : cap + idx - cap ≡ idx = omega arith in rw f (mod-eq_of_lt h))),
      )
  | no behind ↦
      let e : s + (idx - s) ≡ idx = omega arith in (idx - s, omega arith, rw e (mod-eq_of_lt h))
]

round_of :
    (r : RegionDesc) (key idx : ℕ)
    → idx < r.slot_cap
    → (j : ℕ) × (j < r.slot_cap) × (probe_index r key j ≡ idx)
round_of r key idx h = mod_round (key % r.slot_cap) idx r.slot_cap (omega arith) h

passes : (s : Slot) (key : ℕ) → stops s key ≡ false → (s.used ≡ true) × (s.key ≢ key)
passes s key h = (ground arith, λ e. ground arith)

stops_not : (s : Slot) (key : ℕ) → stops s key ≡ true → s.used ≡ true → s.key ≢ key → ⊥
stops_not s key h u n = ground (arith, ==_iff s.key key)

abbrev pub IsFullFor : RegionDesc → ℕ → Type 0
IsFullFor r key =
    (idx : ℕ) → idx < r.slot_cap → ((slot_at r idx).used ≡ true) × ((slot_at r idx).key ≢ key)

probe_full : (r : RegionDesc) (key : ℕ) → probe r.slot_cap r key 0 ≡ none → IsFullFor r key
probe_full r key missed idx h =
    let (j, below, at) = round_of r key idx h in
    subst (λ k. ((slot_at r k).used ≡ true) × ((slot_at r k).key ≢ key)) at
      (passes (slot_at r (probe_index r key j)) key
        (probe-none r.slot_cap r key 0 j missed (omega arith) (omega arith)))

-- `AcquireBlock` on a region fails exactly if every slot is in use under another key.
pub acquire_full :
    (r : RegionDesc) (domain period_ticks key now : ℕ)
    → (acquire r domain period_ticks key now ≡ none) ↔ IsFullFor r key
unfolding acquire
acquire_full r domain period_ticks key now =
    let loop = acquire_loop-probe r.slot_cap r domain period_ticks key now 0 in
    let cases = Option-cases (probe r.slot_cap r key 0) in
    (
      λ failed. elim cases [
        | inl missed ↦ probe_full r key missed
        | inr (j, stop) ↦
            let bad : acquired r domain period_ticks key now (some j) ≡ none =
              rw stop at (sym loop ∙ failed) in
            absurd (cc)
      ],
      λ full. elim cases [
        | inl missed ↦ loop ∙ ap (acquired r domain period_ticks key now) missed
        | inr (j, stop) ↦
            let (f, below) = probe-First r.slot_cap r key 0 j stop in
            let i = probe_index r key j in
            let (u, n) = full i (index-lt r key j (omega arith)) in
            absurd (stops_not (slot_at r i) key f.here u n)
      ],
    )
