-- ===== src/Data/Region/Probe.antt =====
-- Linear probing: what `AcquireBlock` claims, and what `FindBlock` sees afterwards.
use dts_framework.Common.{
  ℕ, zero, suc, ◌+◌, ◌≤◌, ◌<◌, ◌≡◌, refl, sym, ap, subst, Bool, true, false, Option, none, some,
  arith, ◌==◌, if◌then◌else◌, Bool-cases, inl, inr,
}
use native.Mathlib.Decide.{ℕ_discrete}
use dts_framework.Data.Region.{
  Slot, RegionDesc, slot_at, set_slot, probe_index, claim, refresh, acquire_loop, find_loop,
}

-- A probe ends at a free slot or at the key's own.
abbrev pub stops : Slot → ℕ → Bool
stops s key = if s.used then s.key == key else true

pub probe : ℕ → RegionDesc → ℕ → ℕ → Option ℕ
probe zero r key i = none
probe (suc left) r key i =
    let rest = probe left r key (i + 1) in
    if stops (slot_at r (probe_index r key i)) key then some i else rest

abbrev pub put : Slot → ℕ → ℕ → ℕ → ℕ → Slot
put s domain period_ticks key now =
    if s.used then refresh s now else claim s domain period_ticks key now

-- Both loops are the same probe, with another end.
abbrev pub acquired : RegionDesc → ℕ → ℕ → ℕ → ℕ → Option ℕ → Option (ℕ × RegionDesc)
acquired r domain period_ticks key now none = none
acquired r domain period_ticks key now (some j) =
    let idx = probe_index r key j in
    some (idx, set_slot r idx (put (slot_at r idx) domain period_ticks key now))

abbrev pub found : RegionDesc → ℕ → Option ℕ → Option ℕ
found r key none = none
found r key (some j) =
    let idx = probe_index r key j in if (slot_at r idx).used then some idx else none

pub acquire_loop-probe :
    (left : ℕ) (r : RegionDesc) (domain period_ticks key now i : ℕ)
    → acquire_loop left r domain period_ticks key now i
      ≡ acquired r domain period_ticks key now (probe left r key i)
unfolding acquire_loop probe
acquire_loop-probe zero r domain period_ticks key now i = refl
acquire_loop-probe (suc left) r domain period_ticks key now i =
    let ih = acquire_loop-probe left r domain period_ticks key now (i + 1) in
    let s = slot_at r (probe_index r key i) in
    elim (Bool-cases s.used) [
      | inr free ↦ rw free (rw free)
      | inl taken ↦ elim (Bool-cases (s.key == key)) [
        | inl hit ↦ rw (taken, hit) (rw taken)
        | inr other ↦ rw (taken, other) ih
      ]
    ]

pub find_loop-probe :
    (left : ℕ) (r : RegionDesc) (key i : ℕ)
    → find_loop left r key i ≡ found r key (probe left r key i)
unfolding find_loop probe
find_loop-probe zero r key i = refl
find_loop-probe (suc left) r key i =
    let ih = find_loop-probe left r key (i + 1) in
    let s = slot_at r (probe_index r key i) in
    elim (Bool-cases s.used) [
      | inr free ↦ rw free (rw free)
      | inl taken ↦ elim (Bool-cases (s.key == key)) [
        | inl hit ↦ rw (taken, hit) (rw taken)
        | inr other ↦ rw (taken, other) ih
      ]
    ]

abbrev pub stops_at : RegionDesc → ℕ → ℕ → Bool
stops_at r key i = stops (slot_at r (probe_index r key i)) key

-- Round `j` is the first that stops, from round `i` on.
pub record First (r : RegionDesc) (key i j : ℕ) : Type 0 where
  pub from : i ≤ j
  pub here : stops_at r key j ≡ true
  pub before : (k : ℕ) → i ≤ k → k < j → stops_at r key k ≡ false

pub probe-First :
    (left : ℕ) (r : RegionDesc) (key i j : ℕ)
    → probe left r key i ≡ some j
    → First r key i j × (j < i + left)
unfolding probe
probe-First zero r key i j e = cc
probe-First (suc left) r key i j e = elim (Bool-cases (stops_at r key i)) [
  | inl stop ↦
      let start : some i ≡ some j = rw stop at e in
      let same : i ≡ j = cc in
      (
        record {
          from = omega arith;
          here = subst (λ k. stops_at r key k ≡ true) same stop;
          before = λ k lo hi. absurd (omega arith);
        },
        omega arith,
      )
  | inr go ↦
      let (f, below) = probe-First left r key (i + 1) j (rw go at e) in
      (
        record {
          from = omega (arith, f.from);
          here = f.here;
          before = λ k lo hi. elim (ℕ_discrete i k) [
            | yes same ↦ subst (λ k. stops_at r key k ≡ false) same go
            | no other ↦ f.before k (omega arith) hi
          ];
        },
        omega arith,
      )
]

pub First-probe :
    (left : ℕ) (r : RegionDesc) (key i j : ℕ)
    → First r key i j
    → j < i + left
    → probe left r key i ≡ some j
unfolding probe
First-probe zero r key i j f h = absurd (omega (arith, f.from))
First-probe (suc left) r key i j f h = elim (ℕ_discrete i j) [
  | yes same ↦ rw (subst (λ k. stops_at r key k ≡ true) (sym same) f.here) (ap some same)
  | no other ↦ rw (f.before i (omega arith) (omega (arith, f.from))) (
      First-probe left r key (i + 1) j
        (record {
          from = omega (arith, f.from);
          here = f.here;
          before = λ k lo hi. f.before k (omega arith) hi;
        })
        (omega arith))
]

pub probe-none :
    (left : ℕ) (r : RegionDesc) (key i k : ℕ)
    → probe left r key i ≡ none
    → i ≤ k
    → k < i + left
    → stops_at r key k ≡ false
unfolding probe
probe-none zero r key i k e lo hi = absurd (omega arith)
probe-none (suc left) r key i k e lo hi = elim (Bool-cases (stops_at r key i)) [
  | inl stop ↦ absurd (cc (rw stop at e))
  | inr go ↦ elim (ℕ_discrete i k) [
    | yes same ↦ subst (λ k. stops_at r key k ≡ false) same go
    | no other ↦ probe-none left r key (i + 1) k (rw go at e) (omega arith) (omega arith)
  ]
]
