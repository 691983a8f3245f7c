-- ===== src/Task/Handlers/Forward.antt =====
-- A `TaskActiveMsg` on its way from the task thread to the data thread:
-- contexts/task/application/src/task_msg_handler.cpp and
-- contexts/data/application/src/data_msg_handler.cpp.
use dts_framework.Common.{
  ℕ, ◌+◌, ◌*◌, ◌≤◌, ◌≡◌, ap, ◌∙◌, Bool, true, false, ◌&&◌, some, List, [], ◌∷◌, ◌++◌, arith, ltb,
  ◌==◌, if◌then◌else◌, length, read_le, from_le, take, drop, drop-drop, ltb-false, codes,
  Bool-cases, inl, inr,
}
use dts_framework.Infra.Session.{publish_internal, dts_endpoint}
use dts_framework.Data.Registry.{Table}
use dts_framework.Data.Factory.{Bypass}
use dts_framework.Data.Factory
use dts_framework.Data.Handlers.{DataThread, data_dispatch}
use dts_framework.Data.Handlers
use dts_framework.Data.Handlers.Routing.{data_dispatch-by_session}
use dts_framework.Task.Manager.{add_task, TaskManager}
use dts_framework.Task.Handlers.{TaskThread, config_of, created, on_task_active}
use dts_framework.Infra.MsgTable.{chars_eq}

halves :
    (q : List ℕ) → from_le (take 4 q) ≡ from_le (take 2 q) + 65536 * from_le (take 2 (drop 2 q))
unfolding from_le
halves [] = omega arith
halves (a ∷ []) = omega arith
halves (a ∷ b ∷ []) = omega arith
halves (a ∷ b ∷ c ∷ []) = omega arith
halves (a ∷ b ∷ c ∷ d ∷ q) = omega arith

-- Two fields of 16 bits read as one of 32 bits.
read_le-halves :
    (payload : List ℕ) (off : ℕ)
    → read_le payload off 4 ≡ read_le payload off 2 + 65536 * read_le payload (off + 2) 2
unfolding read_le
read_le-halves payload off =
    halves (drop off payload)
    ∙ ap (λ q. from_le (take 2 (drop off payload)) + 65536 * from_le (take 2 q))
        (drop-drop off 2 payload)

-- The status that the data thread reads is 1 for one data id, which is 0.
status_one : (low high : ℕ) → (low + 65536 * high == 1) ≡ ((low == 1) && (high == 0))
status_one low high = ground arith

created_internal :
    (r : Bool × TaskManager) (payload : List ℕ) (t : TaskThread)
    → t.mw.up ≡ true
    → r.0 ≡ true
    → (created r payload t).mw.internal
      ≡ t.mw.internal ++ (dts_endpoint (codes "data") 2, payload) ∷ []
unfolding created publish_internal
created_internal (true, m) payload t up e = rw up
created_internal (false, m) payload t up e = absurd (cc)

accepted :
    (payload : List ℕ) (t : TaskThread)
    → 22 ≤ length payload
    → read_le payload 4 2 ≤ 8
    → on_task_active (some payload) t ≡ created (add_task t.manager (config_of payload)) payload t
unfolding on_task_active
accepted payload t long few =
    rw (ltb-false (length payload) 22 long, ltb-false 8 (read_le payload 4 2) few)

marked :
    (payload : List ℕ) (d : DataThread)
    → 22 ≤ length payload
    → (Handlers.on_task_active (some payload) d).world.factory.current_task ≡ (
        if (read_le payload 4 2 == 1) && (read_le payload 6 2 == 0)
        then read_le payload 0 2 + 65536 * read_le payload 2 2
        else d.world.factory.current_task)
unfolding Handlers.on_task_active Factory.on_task
marked payload d long =
    let one : (read_le payload 4 4 == 1)
        ≡ ((read_le payload 4 2 == 1) && (read_le payload 6 2 == 0)) =
      ap (λ n. n == 1) (read_le-halves payload 4)
      ∙ status_one (read_le payload 4 2) (read_le payload 6 2) in
    let short : ltb (length payload) 8 ≡ false = ltb-false (length payload) 8 (omega arith) in
    elim (Bool-cases ((read_le payload 4 2 == 1) && (read_le payload 6 2 == 0))) [
      | inl e ↦ rw (short, one, e) (read_le-halves payload 0)
      | inr e ↦ rw (short, one, e)
    ]

module _ (bypass : Bypass) (order : Table → Table) (us : ℕ) where
  -- A `TaskActiveMsg` of full length with at most 8 data ids, for a task that the manager takes, with
  -- the middleware up: the task thread publishes the same bytes to the data thread, and the data
  -- thread, which reads them as a `TaskRequest`, sets its current task exactly if the message has one
  -- data id and that id is 0, and then to the task id plus 65536 times the type.
  pub forwarded_task :
      (payload : List ℕ) (t : TaskThread) (d : DataThread) (status : ℕ)
      → t.mw.up ≡ true
      → 22 ≤ length payload
      → read_le payload 4 2 ≤ 8
      → (add_task t.manager (config_of payload)).0 ≡ true
      → ((on_task_active (some payload) t).mw.internal
          ≡ t.mw.internal ++ (dts_endpoint (codes "data") 2, payload) ∷ [])
        × ((data_dispatch bypass order us status
              (some (codes "data"))
              2
              (some payload)
              (length payload)
              d).world.factory.current_task
            ≡ (if (read_le payload 4 2 == 1) && (read_le payload 6 2 == 0)
                then read_le payload 0 2 + 65536 * read_le payload 2 2
                else d.world.factory.current_task))
  unfolding chars_eq
  forwarded_task payload t d status up long few ok = (
    ap (λ t'. t'.mw.internal) (accepted payload t long few)
        ∙ created_internal (add_task t.manager (config_of payload)) payload t up ok,
    ap (λ d'. d'.world.factory.current_task)
          (data_dispatch-by_session bypass order us status (some (codes "data")) 2 (some payload)
            (length payload) d)
        ∙ marked payload d long,
  )
