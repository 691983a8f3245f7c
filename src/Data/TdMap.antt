-- ===== src/Data/TdMap.antt =====
-- contexts/data/domain/include/tdmap_v2.h and src/tdmap_v2.cpp: the tasks of the data thread and the
-- index from data ids to tasks. Hash maps are association lists and hash sets lists, up to the order
-- in which the source walks through them.
pub mod Index
pub mod Active
use dts_framework.Common.{
  ℕ, Bool, ◌&&◌, not, Option, none, some, List, [], ◌∷◌, ◌==◌, if◌then◌else◌, lookup, insert, erase,
  contains, add_member,
}
use dts_framework.Data.Ids.{DataIdSpec, spec_of}

pub record TaskInfo : Type 0 where
  pub task_id : ℕ
  pub data_ids : List ℕ
  pub period_ms : ℕ

pub record TdMapV2 : Type 0 where
  pub tasks : List (ℕ × TaskInfo)
  pub data_to_tasks : List (ℕ × List ℕ)

abbrev pub empty_map : TdMapV2
empty_map = record { tasks = []; data_to_tasks = [] }

-- The set under a key; `operator[]` makes an empty one where there is none.
abbrev pub set_at : Option (List ℕ) → List ℕ
set_at none = []
set_at (some ids) = ids

-- `m_dataToTasks[did].insert(taskId)`
unfoldable pub index_id : ℕ → ℕ → List (ℕ × List ℕ) → List (ℕ × List ℕ)
unfolding insert lookup add_member
index_id task_id did index = insert did (add_member task_id (set_at (lookup did index))) index

-- The inner and the outer loop of `RebuildIndex`.
unfoldable pub index_ids : ℕ → List ℕ → List (ℕ × List ℕ) → List (ℕ × List ℕ)
unfolding index_id
index_ids task_id [] index = index
index_ids task_id (did ∷ dids) index = index_ids task_id dids (index_id task_id did index)

unfoldable pub index_tasks : List (ℕ × TaskInfo) → List (ℕ × List ℕ) → List (ℕ × List ℕ)
unfolding index_ids
index_tasks [] index = index
index_tasks ((task_id, t) ∷ more) index = index_tasks more (index_ids task_id t.data_ids index)

unfoldable pub rebuild_index : TdMapV2 → TdMapV2
unfolding index_tasks
rebuild_index m = record m { data_to_tasks = index_tasks m.tasks [] }

unfoldable pub upsert_task : TdMapV2 → TaskInfo → TdMapV2
unfolding rebuild_index
upsert_task m t = rebuild_index (record m { tasks = insert t.task_id t m.tasks })

unfoldable pub remove_task : TdMapV2 → ℕ → TdMapV2
unfolding rebuild_index
remove_task m task_id = rebuild_index (record m { tasks = erase task_id m.tasks })

-- The test of `ActiveDataIds` on the spec of a data id.
unfoldable pub has_type : ℕ → DataIdSpec → Bool
has_type data_type s = not (s.data_id == 0) && (s.data_type == data_type)

-- The loop of `ActiveDataIds`, with the set `seen`.
unfoldable pub active_from : ℕ → List ℕ → List (ℕ × List ℕ) → List ℕ
unfolding has_type contains
active_from data_type seen [] = []
active_from data_type seen ((did, ids) ∷ more) =
    let hit = has_type data_type (spec_of did) && not (contains did seen) in
    let rest = active_from data_type (if hit then did ∷ seen else seen) more in
    if hit then did ∷ rest else rest

unfoldable pub active_data_ids : TdMapV2 → ℕ → List ℕ
unfolding active_from
active_data_ids m data_type = active_from data_type [] m.data_to_tasks

unfoldable pub tasks_of_data_id : TdMapV2 → ℕ → List ℕ
tasks_of_data_id m data_id = set_at (lookup data_id m.data_to_tasks)
