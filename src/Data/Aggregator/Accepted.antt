-- ===== src/Data/Aggregator/Accepted.antt =====
-- Which slices a run of `Add` accepts, and which it counts as drops.
use dts_framework.Common.{
  ℕ, ◌+◌, ◌%◌, ◌^◌, ◌≤◌, ◌<◌, ◌≡◌, refl, ap, ◌∙◌, Option, some, List, [], ◌∷◌, ◌++◌, append_assoc,
  append-nil, arith, length, ltb-false, lt→ltb, ltb, if◌then◌else◌, Bool-cases, ltb→lt, inl, inr,
}
use dts_framework.Data.Aggregator.{ReportAggregator, k_cap, add}
use dts_framework.Data.Aggregator.Frame.{Slice, size, add_all, Holds, add-Holds, add_fits, appended}

-- The slices that fit, taken in order, when `used` bytes are used up.
unfoldable pub accepted : ℕ → List Slice → List Slice
accepted used [] = []
accepted used (s ∷ ss) =
    let next = used + 4 + length s.bytes in
    let kept = s ∷ accepted next ss in
    let rest = accepted used ss in if ltb k_cap next then rest else kept

-- How many slices do not.
unfoldable pub rejected : ℕ → List Slice → ℕ
rejected used [] = 0
rejected used (s ∷ ss) =
    let next = used + 4 + length s.bytes in
    let kept = rejected next ss in
    let rest = rejected used ss + 1 in if ltb k_cap next then rest else kept

pub accepted_all : (used : ℕ) (ss : List Slice) → used + size ss ≤ k_cap → accepted used ss ≡ ss
unfolding accepted
accepted_all used [] h = refl
accepted_all used (s ∷ ss) h =
    rw (ltb-false k_cap (used + 4 + length s.bytes) (omega arith))
      (ap (◌∷◌ s) (accepted_all (used + 4 + length s.bytes) ss (omega arith)))

pub rejected_none : (used : ℕ) (ss : List Slice) → used + size ss ≤ k_cap → rejected used ss ≡ 0
unfolding rejected
rejected_none used [] h = refl
rejected_none used (s ∷ ss) h =
    rw (ltb-false k_cap (used + 4 + length s.bytes) (omega arith))
      (rejected_none (used + 4 + length s.bytes) ss (omega arith))

pub size-accepted :
    (used : ℕ) (ss : List Slice) → used ≤ k_cap → used + size (accepted used ss) ≤ k_cap
unfolding accepted
size-accepted used [] h = omega arith
size-accepted used (s ∷ ss) h =
    let next = used + 4 + length s.bytes in
    elim (Bool-cases (ltb k_cap next)) [
      | inl over ↦ rw over (size-accepted used ss h)
      | inr fits ↦
          let inside : next ≤ k_cap = ground arith in
          rw fits (omega (arith, size-accepted next ss inside))
    ]

-- A slice over the bound leaves all but the counter as it was.
pub add_over :
    (a : ReportAggregator) (data_id : ℕ) (cache : Option (List ℕ)) (len : ℕ)
    → k_cap < a.used + 4 + len
    → add a data_id cache len ≡ record a { drops = (a.drops + 1) % 2 ^ 64 }
unfolding add
add_over a data_id cache len h = rw (lt→ltb k_cap (a.used + 4 + len) h)

-- What the frame of the added slices is, and what else changes.
pub record Added (pre ss : List Slice) (a b : ReportAggregator) : Type 0 where
  pub holds : Holds (pre ++ accepted a.used ss) b
  pub sink : b.sink ≡ a.sink
  pub task_id : b.task_id ≡ a.task_id
  pub drops : b.drops % 2 ^ 64 ≡ (a.drops + rejected a.used ss) % 2 ^ 64

-- A run of `Add` on a frame that holds some slices: it then holds these and the ones that fit, in
-- order, each other one is counted modulo 2^64, and sink and task stay.
pub add_all-Added :
    (pre : List Slice) (a : ReportAggregator) (ss : List Slice)
    → Holds pre a
    → Added pre ss a (add_all a ss)
unfolding add_all accepted rejected
add_all-Added pre a [] v = record {
  holds = rw append-nil v;
  sink = refl;
  task_id = refl;
  drops = ap (λ k. k % 2 ^ 64) (omega arith);
}
add_all-Added pre a (s ∷ ss) v =
    let next = a.used + 4 + length s.bytes in
    elim (Bool-cases (ltb k_cap next)) [
      | inl over ↦
          let e = add_over a s.data_id (some s.bytes) (length s.bytes) (ltb→lt _ _ over) in
          let w =
            add_all-Added pre (record a { drops = (a.drops + 1) % 2 ^ 64 }) ss
              (record { room = v.room; used = v.used; fits = v.fits; body = v.body }) in
          record {
            holds = rw (over, e) w.holds;
            sink = ap (λ b. (add_all b ss).sink) e ∙ w.sink;
            task_id = ap (λ b. (add_all b ss).task_id) e ∙ w.task_id;
            drops = ap (λ b. (add_all b ss).drops % 2 ^ 64) e ∙ rw over (omega (arith, w.drops));
          }
      | inr fits ↦
          let h : next ≤ k_cap = ground arith in
          let e = add_fits a s.data_id s.bytes h in
          let w =
            add_all-Added (pre ++ s ∷ []) (appended a s.data_id s.bytes) ss
              (rw e at (add-Holds pre a s v h)) in
          record {
            holds = rw (fits, e) (rw (append_assoc pre (s ∷ [])) at w.holds);
            sink = ap (λ b. (add_all b ss).sink) e ∙ w.sink;
            task_id = ap (λ b. (add_all b ss).task_id) e ∙ w.task_id;
            drops = ap (λ b. (add_all b ss).drops % 2 ^ 64) e ∙ rw fits w.drops;
          }
    ]
