-- ===== src/Boot/Signal.antt =====
-- bootstrap/main.cpp, and the stop request of bootstrap/src/run.cpp.
use dts_framework.Common.{
  ap, ◌+◌, ◌∙◌, ◌&&◌, ℕ, Bool, true, false, Option, none, some, List, [], ◌∷◌, Text, ◌==◌,
  if◌then◌else◌, ◌≡◌, refl,
}
use dts_framework.Data.Factory.{World}
use dts_framework.Boot.{Env, Process}
use dts_framework.Boot.Run.{Event, run}
use dts_framework.Boot.Events.{asks, lines}
use dts_framework.Boot.Life.{IsDown, run-IsDown}
use dts_framework.Boot.Start.{IsNew, all_ok, assembled}

-- `StopSignal`: a flag; `Wait` is over when it is set.
pub record StopSignal : Type 0 where
  pub stopped : Bool

unfoldable pub request : StopSignal → StopSignal
request s = record s { stopped = true }

unfoldable pub wait_over : StopSignal → Bool
wait_over s = s.stopped

abbrev config_path : List Text → Option Text
config_path [] = none
config_path (name ∷ []) = none
config_path (name ∷ path ∷ more) = some path

abbrev exit_of : ℕ → ℕ
exit_of code = if code == 0 then 0 else 1

abbrev exit_status : Option (ℕ × Process) → Option (ℕ × Process)
exit_status none = none
exit_status (some r) = some (exit_of r.0, r.1)

module _ (exec : Text → Text → World → Text × World) (events late later : List Event) where
  -- `main`, on its arguments with the name of the program first; `none` where it still waits.
  unfoldable pub main_exit : Env → List Text → Process → Option (ℕ × Process)
  unfolding run
  main_exit env args p = exit_status (run exec events late later env (config_path args) p)

  -- `main` with the path of a configuration, from a new process and with a stop request among the
  -- events, leaves nothing running, and returns 0 exactly if the middleware is good, and the domain
  -- and every worker are made.
  pub main_exit-IsDown :
      (env : Env) (name path : Text) (more : List Text) (p : Process)
      → IsNew p
      → asks events ≡ true
      → (q : Process) × (main_exit env (name ∷ path ∷ more) p
          ≡ some (if◌then◌else◌ {A = ℕ} (env.mw_good && all_ok env) 0 1, q))
        × IsDown (lines late + lines later) q
  unfolding main_exit
  main_exit-IsDown env name path more p new asked =
      let (q, e, low) = run-IsDown exec events late later env path p new asked in
      (q, ap exit_status e ∙ ap (λ k. some (k, q)) (by_code env.mw_good (all_ok env)), low)
    where
      by_code :
          (good ok : Bool)
          → exit_of (if good then assembled ok else 2) ≡ (if good && ok then 0 else 1)
      by_code true true = refl
      by_code true false = refl
      by_code false ok = refl
