-- ===== src/Tests/Flow.antt =====
-- From step 2.5 of bootstrap/src/run.cpp to the statistics of the web server: one cell frame of zeros.
use mathlib.Core.List.{Permᴰ}
use mathlib.Core.List.Permᴰ
use dts_framework.Common.{
  codes, none, ap, ◌∙◌, ℕ, ◌≤◌, ◌≡◌, refl, true, some, List, [], ◌∷◌, arith, length, replicate,
  length-replicate, read_le,
}
use dts_framework.Infra.Session.{Mw}
use dts_framework.Data.Ids.{cell, period_1s}
use dts_framework.Data.Mem
use dts_framework.Data.Mem.{Block}
use dts_framework.Data.Region.{CacheHead}
use dts_framework.Data.Registry.{Table}
use dts_framework.Data.Factory.{bypass_full, World, process, extract_raw_key}
use dts_framework.Data.Factory.Cells.{CanReport, Published, process-Published}
use dts_framework.Data.Handlers.{DataThread, on_task_active, on_agent_data}
use dts_framework.Boot.{init_data}
use dts_framework.Pipeline.{on_frames, Served, Travelled, on_frames-Travelled}
use dts_framework.Pipeline.Start.{
  init_data-IsRunning, HasBlocks, on_task_active-CanReport, FirstReport, first_frame-FirstReport,
}
use dts_framework.Data.Factory.Running.{IsRunning}
use dts_framework.Data.Factory.New.{new_world}
use dts_framework.Data.Handlers.Messages.{
  Message, Bytes, AllBytes, on_messages, on_messages-IsRunning,
}
use dts_framework.Tests.Frames.{same}

abbrev pages : ℕ → ℕ → CacheHead × List ℕ
pages k i = (record { type = 0; last_tick = 0; period_ticks = 0 }, replicate 32758 0)

abbrev middleware : Mw
middleware = record { up = true; internal = []; external = [] }

abbrev started : World
started = init_data pages (new_world none none)

running : IsRunning started × (started.factory.current_task ≡ 0) × HasBlocks started
running = init_data-IsRunning pages none none (λ k i. length-replicate {A = ℕ} 32758 0)

-- Task 5, active.
abbrev activation : List ℕ
activation = 5 ∷ 0 ∷ 0 ∷ 0 ∷ 1 ∷ 0 ∷ 0 ∷ 0 ∷ []

abbrev idle : DataThread
idle = record { world = started; mw = middleware }

abbrev active : DataThread
active = on_task_active (some activation) idle

task_five : read_le activation 0 4 ≡ 5
unfolding read_le
task_five = refl

status_one : read_le activation 4 4 ≡ 1
unfolding read_le
status_one = refl

can_report : CanReport active.world
can_report =
    on_task_active-CanReport idle activation running.0 (omega arith) status_one
      (omega (arith, task_five)) (omega (arith, task_five))

-- The activation keeps the memory.
same_memory : active.world.mem ≡ started.mem
unfolding on_task_active
same_memory = refl

abbrev zeros : List ℕ
zeros = replicate 32768 0

long : 32768 ≤ length zeros
long = omega (arith, length-replicate {A = ℕ} 32768 0)

any_order : (t : Table) → Permᴰ (same t) t
any_order t = Permᴰ.refl t

abbrev zeros_block :
    (b : Block) × ((Mem.acquire_block active.world.mem cell period_1s
        (extract_raw_key cell (some zeros) (length zeros))
        active.world.factory.tick).0
      ≡ some b)
zeros_block =
    let key = extract_raw_key cell (some zeros) (length zeros) in
    let found = running.2 key active.world.factory.tick in
    (
      found.0,
      ap (λ m. (Mem.acquire_block m cell period_1s key active.world.factory.tick).0) same_memory
          ∙ found.1,
    )

process-Published_example :
    let (out, w) = process bypass_full same active.world (some zeros) (length zeros) cell 80 in
    Published active.world out w
process-Published_example =
    process-Published same any_order active.world zeros 80 zeros_block.0 can_report long
      zeros_block.1

type_zero : read_le zeros 0 2 ≡ cell
unfolding read_le
type_zero = refl

up : active.mw.up ≡ true
unfolding on_task_active
up = refl

served : Served same 80 active (zeros ∷ [])
served = (long, type_zero, zeros_block.0, zeros_block.1, tt)

on_frames-Travelled_example : Travelled active (on_frames same 80 (zeros ∷ []) active) 1
on_frames-Travelled_example =
    on_frames-Travelled same 80 any_order active (zeros ∷ []) can_report up served

first_frame-FirstReport_example :
    FirstReport middleware
      (read_le activation 0 4)
      (on_agent_data bypass_full same 80 (some zeros) active)
first_frame-FirstReport_example =
    first_frame-FirstReport same any_order pages none none 80 middleware activation zeros
      (λ k i. length-replicate {A = ℕ} 32758 0) refl (omega arith) status_one
      (omega (arith, task_five)) (omega (arith, task_five)) long type_zero

-- A short frame of an unknown type, a tick, the activation and a message of the statistics.
abbrev messages : List Message
messages =
    record {
      status = 0;
      session_inst = some (codes "data");
      msg_id = 3;
      payload = some (7 ∷ 0 ∷ 1 ∷ []);
      len = 3;
    }
    ∷ record { status = 0; session_inst = none; msg_id = 9; payload = none; len = 0 }
    ∷ record {
      status = 0;
      session_inst = some (codes "data");
      msg_id = 2;
      payload = some activation;
      len = 8;
    }
    ∷ record { status = 0; session_inst = some (codes "oam"); msg_id = 10; payload = none; len = 0 }
    ∷ []

activation-Bytes : Bytes activation
activation-Bytes = (
  omega arith,
  (
    omega arith,
    (omega arith, (omega arith, (omega arith, (omega arith, (omega arith, (omega arith, tt)))))),
  ),
)

bytes : AllBytes messages
bytes = ((omega arith, (omega arith, (omega arith, tt))), (tt, (activation-Bytes, (tt, tt))))

on_messages-IsRunning_example : IsRunning (on_messages same 80 messages idle).world
on_messages-IsRunning_example =
    on_messages-IsRunning same 80 any_order messages idle bytes running.0
