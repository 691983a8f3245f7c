-- ===== src/Data/TdMap/Index.antt =====
-- The index of contexts/data/domain/src/tdmap_v2.cpp against the tasks.
use dts_framework.Common.{
  ℕ, ◌≡◌, refl, ap, ◌∙◌, subst, Bool, true, false, ◌&&◌, ◌||◌, Option, none, some, List, [], ◌∷◌,
  arith, ◌==◌, ==_iff, lookup, insert, erase, lookup-insert, lookup-erase, contains, add_member,
  contains-add_member, Bool-cases, inl, inr,
}
use dts_framework.Data.TdMap.{
  TaskInfo, TdMapV2, empty_map, set_at, index_id, index_ids, index_tasks, rebuild_index,
  upsert_task, remove_task, tasks_of_data_id,
}

-- Whether the index has the task under the data id.
abbrev pub indexed : ℕ → ℕ → List (ℕ × List ℕ) → Bool
indexed task_id did index = contains task_id (set_at (lookup did index))

index_id-indexed :
    (key task_id did did' : ℕ) (index : List (ℕ × List ℕ))
    → indexed task_id did' (index_id key did index)
      ≡ (((did == did') && (key == task_id)) || indexed task_id did' index)
unfolding index_id contains
index_id-indexed key task_id did did' index = elim (Bool-cases (did == did')) [
  | inl e ↦
      rw (lookup-insert did did' (add_member key (set_at (lookup did index))) index, e)
        (contains-add_member key task_id (set_at (lookup did index))
          ∙ ap (λ d. (key == task_id) || indexed task_id d index) ((==_iff did did').0 e))
  | inr e ↦ rw (lookup-insert did did' (add_member key (set_at (lookup did index))) index, e)
]

bool_swap : (a b c d : Bool) → ((c && a) || ((b && a) || d)) ≡ (((b || c) && a) || d)
bool_swap true true true d = refl
bool_swap true true false d = refl
bool_swap true false true d = refl
bool_swap true false false d = refl
bool_swap false true true d = refl
bool_swap false true false d = refl
bool_swap false false true d = refl
bool_swap false false false d = refl

index_ids-indexed :
    (key task_id did : ℕ) (dids : List ℕ) (index : List (ℕ × List ℕ))
    → indexed task_id did (index_ids key dids index)
      ≡ ((contains did dids && (key == task_id)) || indexed task_id did index)
unfolding index_ids contains
index_ids-indexed key task_id did [] index = refl
index_ids-indexed key task_id did (d ∷ dids) index =
    index_ids-indexed key task_id did dids (index_id key d index)
    ∙ ap (λ b. (contains did dids && (key == task_id)) || b)
        (index_id-indexed key task_id d did index)
    ∙ bool_swap (key == task_id) (d == did) (contains did dids) (indexed task_id did index)

-- Whether an entry for the task has the data id.
unfoldable any_tracks : ℕ → ℕ → List (ℕ × TaskInfo) → Bool
any_tracks task_id did [] = false
any_tracks task_id did ((key, t) ∷ more) =
    (contains did t.data_ids && (key == task_id)) || any_tracks task_id did more

bool_turn : (a b c : Bool) → (a || (b || c)) ≡ ((b || a) || c)
bool_turn true true c = refl
bool_turn true false c = refl
bool_turn false true c = refl
bool_turn false false c = refl

index_tasks-indexed :
    (task_id did : ℕ) (tasks : List (ℕ × TaskInfo)) (index : List (ℕ × List ℕ))
    → indexed task_id did (index_tasks tasks index)
      ≡ (any_tracks task_id did tasks || indexed task_id did index)
unfolding index_tasks any_tracks
index_tasks-indexed task_id did [] index = refl
index_tasks-indexed task_id did ((key, t) ∷ more) index =
    index_tasks-indexed task_id did more (index_ids key t.data_ids index)
    ∙ ap (λ b. any_tracks task_id did more || b)
        (index_ids-indexed key task_id did t.data_ids index)
    ∙ bool_turn (any_tracks task_id did more) (contains did t.data_ids && (key == task_id))
        (indexed task_id did index)

abbrev pub tracks : Option TaskInfo → ℕ → Bool
tracks none did = false
tracks (some t) did = contains did t.data_ids

-- No task has two entries.
abbrev pub Distinct : List (ℕ × TaskInfo) → Type 0
Distinct [] = Unit {0}
Distinct ((key, t) ∷ more) = (lookup key more ≡ none) × Distinct more

and_true : (b : Bool) → ((b && true) || false) ≡ b
and_true true = refl
and_true false = refl

and_false : (b c : Bool) → ((b && false) || c) ≡ c
and_false true c = refl
and_false false c = refl

or_false : (b : Bool) → (b || false) ≡ b
or_false true = refl
or_false false = refl

==_sym : (a b : ℕ) → (a == b) ≡ (b == a)
==_sym a b = ground arith

any_tracks-none :
    (task_id did : ℕ) (tasks : List (ℕ × TaskInfo))
    → lookup task_id tasks ≡ none
    → any_tracks task_id did tasks ≡ false
unfolding any_tracks lookup
any_tracks-none task_id did [] h = refl
any_tracks-none task_id did ((key, t) ∷ more) h = elim (Bool-cases (key == task_id)) [
  | inl e ↦ let bad : some t ≡ none = rw e at h in absurd (cc)
  | inr e ↦
      rw (e, any_tracks-none task_id did more (rw e at h))
        (and_false (contains did t.data_ids) false)
]

any_tracks-lookup :
    (task_id did : ℕ) (tasks : List (ℕ × TaskInfo))
    → Distinct tasks
    → any_tracks task_id did tasks ≡ tracks (lookup task_id tasks) did
unfolding any_tracks lookup
any_tracks-lookup task_id did [] h = refl
any_tracks-lookup task_id did ((key, t) ∷ more) (new, h) = elim (Bool-cases (key == task_id)) [
  | inl e ↦
      let gone : lookup task_id more ≡ none =
        subst (λ k. lookup k more ≡ none) ((==_iff key task_id).0 e) new in
      rw (e, any_tracks-none task_id did more gone) (and_true (contains did t.data_ids))
  | inr e ↦
      rw (e, any_tracks-lookup task_id did more h)
        (and_false (contains did t.data_ids) (tracks (lookup task_id more) did))
]

insert-Distinct :
    (task_id : ℕ) (t : TaskInfo) (tasks : List (ℕ × TaskInfo))
    → Distinct tasks
    → Distinct (insert task_id t tasks)
unfolding insert lookup
insert-Distinct task_id t [] h = (refl, tt)
insert-Distinct task_id t ((key, old) ∷ more) (new, h) = elim (Bool-cases (key == task_id)) [
  | inl e ↦ rw e (subst (λ k. lookup k more ≡ none) ((==_iff key task_id).0 e) new, h)
  | inr e ↦ rw e (
    lookup-insert task_id key t more ∙ rw (==_sym task_id key, e) new,
    insert-Distinct task_id t more h,
  )
]

erase-Distinct :
    (task_id : ℕ) (tasks : List (ℕ × TaskInfo)) → Distinct tasks → Distinct (erase task_id tasks)
unfolding erase lookup
erase-Distinct task_id [] h = tt
erase-Distinct task_id ((key, old) ∷ more) (new, h) = elim (Bool-cases (key == task_id)) [
  | inl e ↦ rw e (erase-Distinct task_id more h)
  | inr e ↦ rw e (
    lookup-erase task_id key more ∙ rw (==_sym task_id key, e) new,
    erase-Distinct task_id more h,
  )
]

pub data TdCall : Type 0 where
  upsert_call : TaskInfo → TdCall
  remove_call : ℕ → TdCall

unfoldable pub run_call : TdMapV2 → TdCall → TdMapV2
run_call m (upsert_call t) = upsert_task m t
run_call m (remove_call task_id) = remove_task m task_id

unfoldable pub run_calls : TdMapV2 → List TdCall → TdMapV2
run_calls m [] = m
run_calls m (c ∷ cs) = run_calls (run_call m c) cs

-- The map after some calls: no task twice, and an index that is that of the tasks.
abbrev pub IsBuilt : TdMapV2 → Type 0
IsBuilt m = Distinct m.tasks × (m.data_to_tasks ≡ index_tasks m.tasks [])

run_call-IsBuilt : (m : TdMapV2) (c : TdCall) → IsBuilt m → IsBuilt (run_call m c)
unfolding run_call upsert_task remove_task rebuild_index
run_call-IsBuilt m (upsert_call t) (h, e) = (insert-Distinct t.task_id t m.tasks h, refl)
run_call-IsBuilt m (remove_call task_id) (h, e) = (erase-Distinct task_id m.tasks h, refl)

pub run_calls-IsBuilt : (m : TdMapV2) (cs : List TdCall) → IsBuilt m → IsBuilt (run_calls m cs)
unfolding run_calls
run_calls-IsBuilt m [] h = h
run_calls-IsBuilt m (c ∷ cs) h = run_calls-IsBuilt (run_call m c) cs (run_call-IsBuilt m c h)

-- After any calls of `UpsertTask` and `RemoveTask` on a new map, the tasks that `TasksOfDataId`
-- returns for a data id are exactly the stored tasks that list it.
pub tasks_of_data_id-tracks :
    (cs : List TdCall) (task_id did : ℕ)
    → let m = run_calls empty_map cs in
      contains task_id (tasks_of_data_id m did) ≡ tracks (lookup task_id m.tasks) did
unfolding tasks_of_data_id contains lookup
tasks_of_data_id-tracks cs task_id did =
    let m = run_calls empty_map cs in
    let (h, e) = run_calls-IsBuilt empty_map cs (tt, (unfold index_tasks in refl)) in
    ap (indexed task_id did) e
    ∙ index_tasks-indexed task_id did m.tasks []
    ∙ or_false (any_tracks task_id did m.tasks)
    ∙ any_tracks-lookup task_id did m.tasks h
