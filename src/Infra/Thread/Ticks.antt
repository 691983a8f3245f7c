-- ===== src/Infra/Thread/Ticks.antt =====
-- The timer of the loop of infrastructure/src/dts_thread.cpp.
use dts_framework.Common.{
  ℕ, zero, suc, ◌+◌, ◌*◌, ◌≤◌, ◌<◌, ◌≡◌, refl, Bool, true, false, leb, leb→le, leb-false→lt, arith,
  if◌then◌else◌,
}
use dts_framework.Infra.Thread.{catch_up}

abbrev NextDue : ℕ → ℕ → ℕ → Type 0
NextDue next later due =
    (k : ℕ) × (due ≡ next + 100 * (k + 1)) × (later < due) × (next ≤ later → due ≤ later + 100)

NextDue-if :
    (b : Bool) (next later rest : ℕ)
    → leb (next + 100) later ≡ b
    → (b ≡ true → NextDue (next + 100) later rest)
    → NextDue next later (if b then rest else next + 100)
NextDue-if true next later rest e more =
    let (k, at, after, near) = more refl in
    (suc k, omega arith, after, λ _. near (leb→le (next + 100) later e))
NextDue-if false next later rest e more =
    (0, refl, leb-false→lt (next + 100) later e, λ le. omega arith)

catch_up-NextDue :
    (left next later : ℕ)
    → later < next + 100 * suc left
    → NextDue next later (catch_up (suc left) next later)
unfolding catch_up
catch_up-NextDue zero next later h =
    NextDue-if (leb (next + 100) later) next later (catch_up 0 (next + 100) later) refl
      (λ e. let le : next + 100 ≤ later = leb→le (next + 100) later e in absurd (omega arith))
catch_up-NextDue (suc left) next later h =
    NextDue-if (leb (next + 100) later) next later (catch_up (suc left) (next + 100) later) refl
      (λ e. catch_up-NextDue left (next + 100) later (omega arith))

-- The loop over missed periods, started at a due time that has come, ends at a due time a whole
-- number of periods later, at least one, which is after the clock and at most 100 ms after it; the
-- rounds that the model gives it are enough.
pub catch_up-due :
    (next later : ℕ)
    → next ≤ later
    → let due = catch_up (suc later) next later in
      (k : ℕ) × (due ≡ next + 100 * (k + 1)) × (later < due) × (due ≤ later + 100)
catch_up-due next later h =
    let (k, at, after, near) = catch_up-NextDue later next later (omega arith) in
    (k, at, after, near h)
