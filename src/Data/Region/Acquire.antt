-- ===== src/Data/Region/Acquire.antt =====
-- What `AcquireBlock` claims, and what `FindBlock` sees afterwards.
use dts_framework.Common.{
  ℕ, ◌<◌, ◌≡◌, ◌≢◌, sym, ap, ◌∙◌, subst, true, false, none, some, arith, ◌==◌, ==_refl, ==_iff,
  length, get_or-set_self, get_or-set_ne, Bool-cases, Option-cases, inl, inr,
}
use native.Mathlib.Decide.{ℕ_discrete}
use dts_framework.Data.Region.{
  Slot, RegionDesc, no_slot, slot_at, set_slot, probe_index, acquire, find,
}
use dts_framework.Data.Region.Probe.{
  stops, probe, put, found, acquire_loop-probe, find_loop-probe, stops_at, First, probe-First,
  First-probe,
}

-- The vectors of a region have `slotCap` entries.
abbrev pub IsSized : RegionDesc → Type 0
IsSized r = length r.slots ≡ r.slot_cap

-- A successful `AcquireBlock`, by the round that stopped.
pub record Acquired (r : RegionDesc) (domain period_ticks key now idx : ℕ) (r' : RegionDesc)
    : Type 0 where
  pub round : ℕ
  pub first : First r key 0 round
  pub below : round < r.slot_cap
  pub index : idx ≡ probe_index r key round
  pub state :
      r'
      ≡ set_slot r
          (probe_index r key round)
          (put (slot_at r (probe_index r key round)) domain period_ticks key now)

pub acquire-Acquired :
    (r : RegionDesc) (domain period_ticks key now idx : ℕ) (r' : RegionDesc)
    → acquire r domain period_ticks key now ≡ some (idx, r')
    → Acquired r domain period_ticks key now idx r'
unfolding acquire
acquire-Acquired r domain period_ticks key now idx r' e =
    let loop = acquire_loop-probe r.slot_cap r domain period_ticks key now 0 in
    elim (Option-cases (probe r.slot_cap r key 0)) [
      | inl missed ↦ let bad : none ≡ some (idx, r') = rw missed at (sym loop ∙ e) in absurd (cc)
      | inr (j, stop) ↦
          let (f, below) = probe-First r.slot_cap r key 0 j stop in
          let i = probe_index r key j in
          let done : some (i, set_slot r i (put (slot_at r i) domain period_ticks key now))
              ≡ some (idx, r') =
            rw stop at (sym loop ∙ e) in
          record { round = j; first = f; below = omega arith; index = cc; state = cc }
    ]

-- What a claim or a hit leaves in the slot: it is in use, under the key.
pub put_slot :
    (s : Slot) (domain period_ticks key now : ℕ)
    → stops s key ≡ true
    → ((put s domain period_ticks key now).used ≡ true)
      × ((put s domain period_ticks key now).key ≡ key)
      × ((put s domain period_ticks key now).head.last_tick ≡ now)
      × ((put s domain period_ticks key now).body ≡ s.body)
put_slot s domain period_ticks key now h = ground (arith, ==_iff s.key key)

same_slot_passes :
    (s : Slot) (key q : ℕ) → stops s key ≡ true → stops s q ≡ false → (key == q) ≡ false
same_slot_passes s key q h k = ground arith

same_slot_holds : (s : Slot) (key q : ℕ) → stops s key ≡ true → s.used ≡ true → s.key ≡ q → key ≡ q
same_slot_holds s key q h u e = ground arith

pub index-lt : (r : RegionDesc) (key j : ℕ) → j < r.slot_cap → probe_index r key j < r.slot_cap
index-lt r key j h = omega arith

-- One slot that stopped a probe is replaced; what other probes meet.
module _ (r : RegionDesc) (sized : IsSized r) (key i : ℕ) (below : i < r.slot_cap)
    (stop : stops_at r key i ≡ true) (s' : Slot) (used : s'.used ≡ true) (same : s'.key ≡ key) where
  abbrev pub target : ℕ
  target = probe_index r key i

  abbrev pub replaced : RegionDesc
  replaced = set_slot r target s'

  pub at_target : slot_at replaced target ≡ s'
  at_target =
      get_or-set_self r.slots (probe_index r key i) s' no_slot
        (omega (arith, index-lt r key i below, sized))

  pub off_target : (k : ℕ) → k ≢ target → slot_at replaced k ≡ slot_at r k
  off_target k h = get_or-set_ne r.slots target k s' no_slot (λ e. h (sym e))

  -- A slot that did not stop a probe for `q` does not stop it now.
  still_passes : (q k : ℕ) → stops (slot_at r k) q ≡ false → stops (slot_at replaced k) q ≡ false
  still_passes q k pass = elim (ℕ_discrete k target) [
    | no other ↦ rw (off_target k other) pass
    | yes here ↦
        rw (here, at_target, used, same)
          (same_slot_passes (slot_at r target) key q stop
            (subst (λ j. stops (slot_at r j) q ≡ false) here pass))
  ]

  -- A slot in use under `q` stays so.
  pub still_holds :
      (q k : ℕ)
      → (slot_at r k).used ≡ true
      → (slot_at r k).key ≡ q
      → ((slot_at replaced k).used ≡ true) × ((slot_at replaced k).key ≡ q)
  still_holds q k u e = elim (ℕ_discrete k target) [
    | no other ↦ rw (off_target k other) (u, e)
    | yes here ↦
        rw (here, at_target)
          (
            used,
            same
                ∙ same_slot_holds (slot_at r target) key q stop
                    (subst (λ j. (slot_at r j).used ≡ true) here u)
                    (subst (λ j. (slot_at r j).key ≡ q) here e),
          )
  ]

  -- So a probe that ends at a slot under its key ends there still.
  pub First-replaced :
      (q j : ℕ)
      → First r q 0 j
      → (slot_at r (probe_index r q j)).used ≡ true
      → (slot_at r (probe_index r q j)).key ≡ q
      → First replaced q 0 j
  First-replaced q j f u e = record {
    from = f.from;
    here = let (u', e') = still_holds q (probe_index r q j) u e in rw u' (rw e' (==_refl q));
    before = λ k lo hi. still_passes q (probe_index r q k) (f.before k lo hi);
  }

  -- The probe for the key itself ends at the new slot.
  pub First-self : First r key 0 i → First replaced key 0 i
  First-self f = record {
    from = f.from;
    here = rw at_target (rw used (rw same (==_refl key)));
    before = λ k lo hi. still_passes key (probe_index r key k) (f.before k lo hi);
  }

pub found-First :
    (r : RegionDesc) (key j : ℕ)
    → First r key 0 j
    → j < r.slot_cap
    → (slot_at r (probe_index r key j)).used ≡ true
    → find r key ≡ some (probe_index r key j)
unfolding find
found-First r key j f below used =
    find_loop-probe r.slot_cap r key 0
    ∙ ap (found r key) (First-probe r.slot_cap r key 0 j f (omega arith))
    ∙ rw used

-- A successful `FindBlock`, by the round that stopped.
pub record Found (r : RegionDesc) (key idx : ℕ) : Type 0 where
  pub round : ℕ
  pub first : First r key 0 round
  pub below : round < r.slot_cap
  pub index : idx ≡ probe_index r key round
  pub used : (slot_at r (probe_index r key round)).used ≡ true
  pub key_here : (slot_at r (probe_index r key round)).key ≡ key

pub find-Found : (r : RegionDesc) (key idx : ℕ) → find r key ≡ some idx → Found r key idx
unfolding find
find-Found r key idx e =
    let loop = find_loop-probe r.slot_cap r key 0 in
    elim (Option-cases (probe r.slot_cap r key 0)) [
      | inl missed ↦ let bad : none ≡ some idx = rw missed at (sym loop ∙ e) in absurd (cc)
      | inr (j, stop) ↦
          let (f, below) = probe-First r.slot_cap r key 0 j stop in
          let done : found r key (some j) ≡ some idx = rw stop at (sym loop ∙ e) in
          elim (Bool-cases (slot_at r (probe_index r key j)).used) [
            | inr free ↦ let bad : none ≡ some idx = rw free at done in absurd (cc)
            | inl taken ↦
                let there : some (probe_index r key j) ≡ some idx = rw taken at done in
                let hit : ((slot_at r (probe_index r key j)).key == key) ≡ true =
                  rw taken at f.here in
                record {
                  round = j;
                  first = f;
                  below = omega arith;
                  index = cc;
                  used = taken;
                  key_here = (==_iff _ key).0 hit;
                }
          ]
    ]
