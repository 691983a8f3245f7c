-- ===== src/Infra/Timer.antt =====
-- infrastructure/include/timer.h and src/timer.cpp: `TimerWheel`. `F` is the type of the callbacks;
-- `Tick` runs them after it has released the lock, in the order of the list that is returned here.
-- Handles stay within `int`.
pub mod Once
use dts_framework.Common.{
  ℕ, ◌+◌, ◌%◌, ◌^◌, Bool, true, false, not, Option, none, some, List, [], ◌∷◌, ◌++◌, ltb, ◌==◌,
  if◌then◌else◌,
}

pub record TimerTask (F : Type 0) : Type 0 where
  pub handle : ℕ
  pub period : ℕ
  pub next : ℕ
  pub fn : F
  pub active : Bool

pub record TimerWheel (F : Type 0) : Type 0 where
  pub tasks : List (TimerTask F)
  pub next_handle : ℕ

abbrev push_task : {F : Type 0} → TimerWheel F → ℕ → F → ℕ → TimerWheel F
push_task w period fn now = record {
  tasks =
      w.tasks
      ++ record {
        handle = w.next_handle;
        period = period;
        next = (now + period) % 2 ^ 32;
        fn = fn;
        active = true;
      }
        ∷ [];
  next_handle = w.next_handle + 1;
}

-- The handle, or `none` where the source returns -1.
unfoldable pub add_timer : {F : Type 0} → TimerWheel F → ℕ → Option F → ℕ → Option ℕ × TimerWheel F
add_timer w period none now = (none, w)
add_timer w period (some fn) now =
    if period == 0 then (none, w) else (some w.next_handle, push_task w period fn now)

unfoldable pub cancel_tasks : {F : Type 0} → ℕ → List (TimerTask F) → List (TimerTask F)
cancel_tasks handle [] = []
cancel_tasks handle (t ∷ ts) =
    (if t.handle == handle then record t { active = false } else t) ∷ cancel_tasks handle ts

unfoldable pub cancel : {F : Type 0} → TimerWheel F → ℕ → TimerWheel F
cancel w handle = record w { tasks = cancel_tasks handle w.tasks }

-- What the loop of `Tick` fires, and the tasks that it leaves active.
unfoldable pub tick_tasks : {F : Type 0} → ℕ → List (TimerTask F) → List F × List (TimerTask F)
tick_tasks now [] = ([], [])
tick_tasks now (t ∷ ts) =
    let rest = tick_tasks now ts in
    if not t.active
    then rest
    else if ltb now t.next
    then (rest.0, t ∷ rest.1)
    else (t.fn ∷ rest.0, record t { next = (now + t.period) % 2 ^ 32 } ∷ rest.1)

unfoldable pub tick : {F : Type 0} → TimerWheel F → ℕ → List F × TimerWheel F
tick w now = let r = tick_tasks now w.tasks in (r.0, record w { tasks = r.1 })
