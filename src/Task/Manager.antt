-- ===== src/Task/Manager.antt =====
-- contexts/task/domain/src/task_manager.cpp: `TaskManager`, a map of at most 64 tasks by their id.
use dts_framework.Common.{
  ℕ, ◌≡◌, ◌≤◌, ◌<◌, refl, Bool, true, false, ◌||◌, Option, none, some, List, [], ◌∷◌, ◌↔◌, ◌&&◌,
  arith, leb, if◌then◌else◌, ◌==◌, length, lookup, insert, erase, lookup-insert, length-erase-le,
  length-insert_new, Option-cases, Bool-cases, inl, inr,
}

pub record TaskConfig : Type 0 where
  pub task_id : ℕ
  pub type : ℕ
  pub data_ids : List ℕ

abbrev pub max_tasks : ℕ
max_tasks = 64

abbrev pub TaskManager : Type 0
TaskManager = List (ℕ × TaskConfig)

abbrev holds : Option TaskConfig → Bool
holds none = false
holds (some cfg) = true

unfoldable pub add_task : TaskManager → TaskConfig → Bool × TaskManager
add_task m cfg =
    if leb max_tasks (length m) || holds (lookup cfg.task_id m)
    then (false, m)
    else (true, insert cfg.task_id cfg m)

unfoldable pub remove_task : TaskManager → ℕ → Bool × TaskManager
remove_task m task_id = (holds (lookup task_id m), erase task_id m)

unfoldable pub find_task : TaskManager → ℕ → Option TaskConfig
find_task m task_id = lookup task_id m

unfoldable pub size : TaskManager → ℕ
size m = length m

-- `TaskFactory::Create`
unfoldable pub create : TaskManager → TaskConfig → Bool × TaskManager
unfolding add_task
create m cfg = add_task m cfg

-- The calls of a task thread on its manager.
pub data TaskCall : Type 0 where
  add_call : TaskConfig → TaskCall
  remove_call : ℕ → TaskCall

unfoldable pub run_call : TaskManager → TaskCall → TaskManager
run_call m (add_call cfg) = (add_task m cfg).1
run_call m (remove_call task_id) = (remove_task m task_id).1

unfoldable pub run_calls : TaskManager → List TaskCall → TaskManager
run_calls m [] = m
run_calls m (c ∷ cs) = run_calls (run_call m c) cs

-- The three ends of `Add`.
data Added (m : TaskManager) (cfg : TaskConfig) (r : Bool × TaskManager) : Type 0 where
  fresh :
      (length m < max_tasks)
      → (lookup cfg.task_id m ≡ none)
      → (r ≡ (true, insert cfg.task_id cfg m))
      → Added m cfg r
  full : (max_tasks ≤ length m) → (r ≡ (false, m)) → Added m cfg r
  again : (old : TaskConfig) → (lookup cfg.task_id m ≡ some old) → (r ≡ (false, m)) → Added m cfg r

add_task-cases : (m : TaskManager) (cfg : TaskConfig) → Added m cfg (add_task m cfg)
unfolding add_task
add_task-cases m cfg = elim (Bool-cases (leb max_tasks (length m))) [
  | inl l ↦ full (ground (arith, l)) (rw l)
  | inr l ↦ elim (Option-cases (lookup cfg.task_id m)) [
    | inr (old, e) ↦ again old e (rw (l, e))
    | inl e ↦ fresh (ground (arith, l)) e (rw (l, e))
  ]
]

run_call-le :
    (m : TaskManager) (c : TaskCall) → length m ≤ max_tasks → length (run_call m c) ≤ max_tasks
unfolding run_call remove_task
run_call-le m (add_call cfg) h = elim (add_task-cases m cfg) [
  | fresh room e r ↦ rw (r, run_call) (omega (arith, length-insert_new cfg.task_id cfg m e))
  | full l r ↦ rw (r, run_call) h
  | again old e r ↦ rw (r, run_call) h
]
run_call-le m (remove_call task_id) h = omega (arith, length-erase-le task_id m)

-- No sequence of `Add` and `Remove` takes a manager of at most 64 tasks above 64 tasks.
pub run_calls-le :
    (m : TaskManager) (cs : List TaskCall)
    → length m ≤ max_tasks
    → length (run_calls m cs) ≤ max_tasks
unfolding run_calls
run_calls-le m [] h = h
run_calls-le m (c ∷ cs) h = run_calls-le (run_call m c) cs (run_call-le m c h)

-- `Add` succeeds exactly if there are fewer than 64 tasks and none has the id; then `Find` returns
-- the new task for its id, and in any case what it returned before for every other id, or for all
-- if `Add` failed.
pub find_task-add_task :
    (m : TaskManager) (cfg : TaskConfig) (task_id : ℕ)
    → let r = add_task m cfg in
      ((r.0 ≡ true) ↔ ((length m < max_tasks) × (find_task m cfg.task_id ≡ none)))
      × (find_task r.1 task_id
          ≡ (if r.0 && cfg.task_id == task_id then some cfg else find_task m task_id))
unfolding find_task
find_task-add_task m cfg task_id = elim (add_task-cases m cfg) [
  | fresh room e r ↦ rw r (((λ t. (room, e)), (λ t. refl)), lookup-insert cfg.task_id task_id cfg m)
  | full l r ↦ rw r (((λ t. absurd (cc)), (λ t. absurd (omega (arith, l, t.0)))), refl)
  | again old e r ↦ rw r (((λ t. absurd (cc)), (λ t. absurd (cc))), refl)
]
