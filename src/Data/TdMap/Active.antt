-- ===== src/Data/TdMap/Active.antt =====
-- `ActiveDataIds` of contexts/data/domain/src/tdmap_v2.cpp against the tasks.
use dts_framework.Common.{
  ℕ, ◌≡◌, refl, sym, ap, ◌∙◌, subst, Bool, true, false, ◌&&◌, ◌||◌, not, List, [], ◌∷◌, ◌==◌,
  ==_iff, lookup, insert, contains, add_member, Bool-cases, inl, inr,
}
use dts_framework.Data.Ids.{spec_of}
use dts_framework.Data.TdMap.{
  TaskInfo, empty_map, set_at, index_id, index_ids, index_tasks, has_type, active_from,
  active_data_ids,
}
use dts_framework.Data.TdMap.Index.{TdCall, run_calls, run_calls-IsBuilt}

unfoldable is_key : ℕ → List (ℕ × List ℕ) → Bool
is_key did [] = false
is_key did ((key, ids) ∷ more) = (key == did) || is_key did more

and_off : (b : Bool) → (b && false) ≡ false
and_off true = refl
and_off false = refl

and_on : (a b : Bool) → ((a && true) && b) ≡ (a && b)
and_on true b = refl
and_on false b = refl

or_twice : (b r : Bool) → (b || r) ≡ (b || (b || r))
or_twice true r = refl
or_twice false r = refl

or_off : (b : Bool) → (b || false) ≡ b
or_off true = refl
or_off false = refl

active_from-is_key :
    (data_type did : ℕ) (seen : List ℕ) (index : List (ℕ × List ℕ))
    → contains did (active_from data_type seen index)
      ≡ ((has_type data_type (spec_of did) && not (contains did seen)) && is_key did index)
unfolding active_from contains is_key
active_from-is_key data_type did seen [] =
    sym (and_off (has_type data_type (spec_of did) && not (contains did seen)))
active_from-is_key data_type did seen ((key, ids) ∷ more) =
    let hit : ℕ → Bool = λ d. has_type data_type (spec_of d) && not (contains d seen) in
    elim (Bool-cases (hit key)) [
      | inl h ↦ elim (Bool-cases (key == did)) [
        | inl e ↦
            let at : hit did ≡ true = subst (λ d. hit d ≡ true) ((==_iff key did).0 e) h in
            rw (h, e) (sym (ap (λ b. b && true) at))
        | inr e ↦
            rw (h, e)
              (active_from-is_key data_type did (key ∷ seen) more
                ∙ ap
                    (λ b.
                      (has_type data_type (spec_of did) && not (b || contains did seen))
                      && is_key did more)
                    e)
      ]
      | inr h ↦ elim (Bool-cases (key == did)) [
        | inl e ↦
            let at : hit did ≡ false = subst (λ d. hit d ≡ false) ((==_iff key did).0 e) h in
            rw (h, e)
              (active_from-is_key data_type did seen more
                ∙ ap (λ b. b && is_key did more) at
                ∙ sym (ap (λ b. b && true) at))
        | inr e ↦ rw (h, e) (active_from-is_key data_type did seen more)
      ]
    ]

swap : (a b c : Bool) → (a || (b || c)) ≡ (b || (a || c))
swap true true c = refl
swap true false c = refl
swap false b c = refl

join : (a b c : Bool) → (a || (b || c)) ≡ ((a || b) || c)
join true b c = refl
join false b c = refl

insert-is_key :
    (key did : ℕ) (ids : List ℕ) (index : List (ℕ × List ℕ))
    → is_key did (insert key ids index) ≡ ((key == did) || is_key did index)
unfolding insert is_key
insert-is_key key did ids [] = refl
insert-is_key key did ids ((k, old) ∷ more) = elim (Bool-cases (k == key)) [
  | inl e ↦ rw e (
      or_twice (key == did) (is_key did more)
      ∙ ap (λ n. (key == did) || ((n == did) || is_key did more)) (sym ((==_iff k key).0 e)))
  | inr e ↦ rw (e, insert-is_key key did ids more) (swap (k == did) (key == did) (is_key did more))
]

index_ids-is_key :
    (key did : ℕ) (dids : List ℕ) (index : List (ℕ × List ℕ))
    → is_key did (index_ids key dids index) ≡ (contains did dids || is_key did index)
unfolding index_ids index_id contains
index_ids-is_key key did [] index = refl
index_ids-is_key key did (d ∷ dids) index =
    index_ids-is_key key did dids (index_id key d index)
    ∙ ap (λ b. contains did dids || b)
        (insert-is_key d did (add_member key (set_at (lookup d index))) index)
    ∙ swap (contains did dids) (d == did) (is_key did index)
    ∙ join (d == did) (contains did dids) (is_key did index)

-- Whether some task tracks the data id.
unfoldable pub any_task : ℕ → List (ℕ × TaskInfo) → Bool
any_task did [] = false
any_task did ((key, t) ∷ more) = contains did t.data_ids || any_task did more

index_tasks-is_key :
    (did : ℕ) (tasks : List (ℕ × TaskInfo)) (index : List (ℕ × List ℕ))
    → is_key did (index_tasks tasks index) ≡ (any_task did tasks || is_key did index)
unfolding index_tasks any_task
index_tasks-is_key did [] index = refl
index_tasks-is_key did ((key, t) ∷ more) index =
    index_tasks-is_key did more (index_ids key t.data_ids index)
    ∙ ap (λ b. any_task did more || b) (index_ids-is_key key did t.data_ids index)
    ∙ swap (any_task did more) (contains did t.data_ids) (is_key did index)
    ∙ join (contains did t.data_ids) (any_task did more) (is_key did index)

-- After any calls of `UpsertTask` and `RemoveTask` on a new map, `ActiveDataIds` returns exactly
-- the data ids of the given type that some stored task lists.
pub active_data_ids-any_task :
    (cs : List TdCall) (data_type did : ℕ)
    → let m = run_calls empty_map cs in
      contains did (active_data_ids m data_type)
      ≡ (has_type data_type (spec_of did) && any_task did m.tasks)
unfolding active_data_ids is_key
active_data_ids-any_task cs data_type did =
    let m = run_calls empty_map cs in
    let (_, e) = run_calls-IsBuilt empty_map cs (tt, (unfold index_tasks in refl)) in
    active_from-is_key data_type did [] m.data_to_tasks
    ∙ and_on (has_type data_type (spec_of did)) (is_key did m.data_to_tasks)
    ∙ ap (λ b. has_type data_type (spec_of did) && b)
        (ap (is_key did) e ∙ index_tasks-is_key did m.tasks [] ∙ or_off (any_task did m.tasks))
