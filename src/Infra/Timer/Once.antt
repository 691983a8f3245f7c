-- ===== src/Infra/Timer/Once.antt =====
-- What `Tick` of infrastructure/src/timer.cpp fires, and what it leaves.
use dts_framework.Common.{
  ℕ, ◌+◌, ◌^◌, ◌<◌, ◌≡◌, ◌≢◌, refl, true, List, [], ◌∷◌, ◌==◌, ltb, arith, ap, Bool-cases, inl, inr,
  lt→ltb,
}
use dts_framework.Infra.Timer.{TimerTask, TimerWheel, cancel_tasks, cancel, tick_tasks, tick}

-- The periods are not 0, and no due time wraps after a tick at `now`.
abbrev pub Fits : {F : Type 0} → ℕ → List (TimerTask F) → Type 0
Fits now [] = Unit {0}
Fits now (t ∷ ts) = ((0 < t.period) × (now + t.period < 2 ^ 32)) × Fits now ts

-- Nothing is due at `now`, and nothing is cancelled.
abbrev pub Quiet : {F : Type 0} → ℕ → List (TimerTask F) → Type 0
Quiet now [] = Unit {0}
Quiet now (t ∷ ts) = ((t.active ≡ true) × (now < t.next)) × Quiet now ts

tick_tasks-Quiet :
    {F : Type 0} (now : ℕ) (ts : List (TimerTask F)) → Fits now ts → Quiet now (tick_tasks now ts).1
unfolding tick_tasks
tick_tasks-Quiet now [] h = tt
tick_tasks-Quiet now (t ∷ ts) ((pos, fits), h) = elim (Bool-cases t.active) [
  | inr off ↦ rw off (tick_tasks-Quiet now ts h)
  | inl on ↦ elim (Bool-cases (ltb now t.next)) [
    | inl early ↦ rw (on, early) ((refl, ground (arith, early)), tick_tasks-Quiet now ts h)
    | inr due ↦ rw (on, due) ((refl, omega arith), tick_tasks-Quiet now ts h)
  ]
]

Quiet-tick_tasks :
    {F : Type 0} (now : ℕ) (ts : List (TimerTask F)) → Quiet now ts → tick_tasks now ts ≡ ([], ts)
unfolding tick_tasks
Quiet-tick_tasks now [] h = refl
Quiet-tick_tasks now (t ∷ ts) ((on, early), h) =
    rw (on, lt→ltb now t.next early, Quiet-tick_tasks now ts h)

-- A second `Tick` at the same time fires nothing and changes nothing, where no period is 0 and no
-- due time wraps.
pub tick_once :
    {F : Type 0} (w : TimerWheel F) (now : ℕ)
    → Fits now w.tasks
    → let w' = (tick w now).1 in tick w' now ≡ ([], w')
unfolding tick
tick_once w now h =
    ap (λ r. (r.0, record w { tasks = r.1 }))
      (Quiet-tick_tasks now (tick_tasks now w.tasks).1 (tick_tasks-Quiet now w.tasks h))

-- No task of the list has the handle.
abbrev pub Without : {F : Type 0} → ℕ → List (TimerTask F) → Type 0
Without handle [] = Unit {0}
Without handle (t ∷ ts) = (t.handle ≢ handle) × Without handle ts

cancelled_gone :
    {F : Type 0} (now handle : ℕ) (ts : List (TimerTask F))
    → Without handle (tick_tasks now (cancel_tasks handle ts)).1
unfolding tick_tasks cancel_tasks
cancelled_gone now handle [] = tt
cancelled_gone now handle (t ∷ ts) = elim (Bool-cases (t.handle == handle)) [
  | inl e ↦ rw e (cancelled_gone now handle ts)
  | inr e ↦ rw e (elim (Bool-cases t.active) [
    | inr off ↦ rw off (cancelled_gone now handle ts)
    | inl on ↦ elim (Bool-cases (ltb now t.next)) [
      | inl early ↦ rw (on, early) (ground (arith, e), cancelled_gone now handle ts)
      | inr due ↦ rw (on, due) (ground (arith, e), cancelled_gone now handle ts)
    ]
  ])
]

-- After `Cancel` of a handle, the next `Tick` leaves no task with that handle.
pub tick-cancel :
    {F : Type 0} (w : TimerWheel F) (handle now : ℕ)
    → Without handle (tick (cancel w handle) now).1.tasks
unfolding tick cancel
tick-cancel w handle now = cancelled_gone now handle w.tasks
