-- ===== src/Tests/Timers.antt =====
-- The timers of infrastructure/src/timer.cpp, at two tasks; a callback is a number here.
use dts_framework.Common.{ℕ, ◌≡◌, refl, true, [], ◌∷◌, arith}
use dts_framework.Infra.Timer.{TimerWheel, tick, tick_tasks}
use dts_framework.Infra.Timer.Once.{tick_once}

abbrev wheel : TimerWheel ℕ
wheel = record {
  tasks =
      record { handle = 1; period = 10; next = 40; fn = 100; active = true }
      ∷ record { handle = 2; period = 50; next = 60; fn = 200; active = true }
      ∷ [];
  next_handle = 3;
}

-- The first task is due at 43, its next time is 53 and not 50.
late : (tick wheel 43).0 ≡ 100 ∷ []
unfolding tick tick_tasks
late = refl

tick_once_example : let w = (tick wheel 43).1 in tick w 43 ≡ ([], w)
tick_once_example =
    tick_once wheel 43 ((omega arith, omega arith), ((omega arith, omega arith), tt))
