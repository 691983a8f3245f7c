-- ===== src/Infra/RotatingSink/Eviction.antt =====
-- The loop of `EvictOldestIfNeeded` of infrastructure/src/ts_rotating_sink.cpp.
use dts_framework.Common.{
  ℕ, zero, suc, ◌+◌, ◌≤◌, ◌<◌, ◌≡◌, ◌⊎◌, refl, Bool, true, false, ◌&&◌, List, [], ◌∷◌, arith, ltb,
  length, ltb-false→le, Text, Bool-cases, inl, inr,
}
use dts_framework.Infra.RotatingSink.{
  Entry, is_current, older, oldest_from, remove_at, Evicted, evict_loop, evict_oldest,
  TsRotatingSink, our_files, total_size,
}

unfoldable pub all_current : Text → List Entry → Bool
all_current current [] = true
all_current current (f ∷ fs) = is_current current f && all_current current fs

older-current :
    (current : Text) (f b : Entry)
    → older current f b ≡ true
    → is_current current f ≡ true
    → is_current current b ≡ true
unfolding older
older-current current f b h cf = elim (Bool-cases (is_current current b)) [
  | inl e ↦ e
  | inr e ↦ let bad : false ≡ true = rw (cf, e) at h in absurd (cc)
]

not_older-current :
    (current : Text) (f b : Entry)
    → older current f b ≡ false
    → is_current current b ≡ true
    → is_current current f ≡ true
unfolding older
not_older-current current f b h cb = elim (Bool-cases (is_current current f)) [
  | inl e ↦ e
  | inr e ↦ let bad : true ≡ false = rw (e, cb) at h in absurd (cc)
]

-- Where the oldest one is the current file, there is no other.
oldest-current :
    (current : Text) (k : ℕ) (best : ℕ × Entry) (fs : List Entry)
    → is_current current (oldest_from current k best fs).1 ≡ true
    → (is_current current best.1 ≡ true) × (all_current current fs ≡ true)
unfolding oldest_from all_current
oldest-current current k best [] h = (h, refl)
oldest-current current k best (f ∷ fs) h = elim (Bool-cases (older current f best.1)) [
  | inl e ↦
      let (cf, rest) = oldest-current current (suc k) (k, f) fs (rw (oldest_from, e) at h) in
      (older-current current f best.1 e cf, rw (cf, rest))
  | inr e ↦
      let (cb, rest) = oldest-current current (suc k) best fs (rw (oldest_from, e) at h) in
      (cb, rw (not_older-current current f best.1 e cb, rest))
]

oldest-lt :
    (current : Text) (k : ℕ) (best : ℕ × Entry) (fs : List Entry)
    → best.0 < k
    → (oldest_from current k best fs).0 < k + length fs
unfolding oldest_from
oldest-lt current k best [] h = omega arith
oldest-lt current k best (f ∷ fs) h = elim (Bool-cases (older current f best.1)) [
  | inl e ↦
      let ih = oldest-lt current (suc k) (k, f) fs (omega arith) in
      rw (oldest_from, e) (omega (arith, ih))
  | inr e ↦
      let ih = oldest-lt current (suc k) best fs (omega arith) in
      rw (oldest_from, e) (omega (arith, ih))
]

length-remove_at :
    (i : ℕ) (fs : List Entry) → i < length fs → length (remove_at i fs) + 1 ≡ length fs
unfolding remove_at
length-remove_at i [] h = absurd (omega arith)
length-remove_at zero (f ∷ fs) h = omega arith
length-remove_at (suc i) (f ∷ fs) h = omega (arith, length-remove_at i fs (omega arith))

-- The loop has ended, and not for want of rounds.
abbrev pub IsSettled : Text → ℕ → Evicted → Type 0
IsSettled current max_total r = (r.total ≤ max_total) ⊎ (all_current current r.files ≡ true)

module _ (removable : Text → Bool) (current : Text) (max_total : ℕ) where
  evict_loop-IsSettled :
      (left total : ℕ) (files : List Entry)
      → length files ≤ left
      → IsSettled current max_total (evict_loop removable current max_total left total files)
  unfolding evict_loop all_current
  evict_loop-IsSettled zero total [] h = inr refl
  evict_loop-IsSettled zero total (f ∷ fs) h = absurd (omega arith)
  evict_loop-IsSettled (suc left) total [] h = inr refl
  evict_loop-IsSettled (suc left) total (f ∷ fs) h =
      let oldest : ℕ × Entry = oldest_from current 1 (0, f) fs in
      let low : oldest.0 < length (f ∷ fs) =
        omega (arith, oldest-lt current 1 (0, f) fs (omega arith)) in
      elim (Bool-cases (ltb max_total total)) [
        | inr e ↦ rw e (inl (ltb-false→le max_total total e))
        | inl e ↦ elim (Bool-cases (is_current current oldest.1)) [
          | inl c ↦
              let (first, rest) = oldest-current current 1 (0, f) fs c in
              rw (e, c) (inr (rw (first, rest)))
          | inr c ↦
              rw (e, c)
                (evict_loop-IsSettled left _ (remove_at oldest.0 (f ∷ fs))
                  (omega (arith, length-remove_at oldest.0 (f ∷ fs) low)))
        ]
      ]

-- The loop of `EvictOldestIfNeeded`, with as many rounds as there are files, ends by itself: the
-- total is within the limit, or every file that is left of its list is the current one; whichever
-- files can be removed.
pub evict_oldest-IsSettled :
    (removable : Text → Bool) (s : TsRotatingSink) (entries : List Entry)
    → IsSettled s.current_path s.max_total (evict_oldest removable s entries)
unfolding evict_oldest
evict_oldest-IsSettled removable s entries =
    let files : List Entry = our_files s entries in
    evict_loop-IsSettled removable s.current_path s.max_total (length files) (total_size files)
      files (omega arith)
