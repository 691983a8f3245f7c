-- ===== src/Pipeline/Start.antt =====
-- The data thread after step 2.5 of bootstrap/src/run.cpp, and its first task message.
use dts_framework.Common.{
  ◌++◌, ◌∷◌, [], subst, true, ℕ, ◌^◌, ◌≤◌, ◌<◌, ◌≡◌, ◌≢◌, refl, false, not, Option, some, List,
  arith, length, length-replicate, read_le, ltb-false, ◌==◌, Text,
}
use dts_framework.Data.Ids.{cell, period_1s}
use dts_framework.Data.Aggregator.{set_sink, new_aggregator, k_cap}
use dts_framework.Data.Region.{CacheHead}
use dts_framework.Data.Mem
use dts_framework.Data.Mem.{Block, acquire_block}
use dts_framework.Data.Mem.Room.{body_size, init-Room, acquire_block_free}
use dts_framework.Data.Factory.{World, on_task, set_report_sink, bypass_full, extract_raw_key}
use dts_framework.Data.Factory.New.{new_world, new_factory}
use dts_framework.Data.Factory.Running.{IsRunning}
use dts_framework.Data.Factory.Cells.{CanReport, process-Published}
use dts_framework.Data.Handlers.{DataThread, on_task_active, on_agent_data}
use dts_framework.Boot.{init_data}
use mathlib.Core.List.{Permᴰ}
use dts_framework.Infra.Session.{Mw}
use dts_framework.Pipeline.{publish_report-external, outgoing}
use dts_framework.Web.ReportFrame.{parse_report}
use dts_framework.Data.Factory.Slices.Whole.{cell_view}
use dts_framework.Data.Registry.{Table}

-- Any key finds a block.
abbrev pub HasBlocks : World → Type 0
HasBlocks w =
    (key now : ℕ) → (b : Block) × ((Mem.acquire_block w.mem cell period_1s key now).0 ≡ some b)

-- Step 2.5 of the start on the new singletons, whatever the budgets in the environment and with
-- blocks of the size that `Init` asks for, leaves a running data thread (sink set, whole buffer,
-- memory as `Init` builds it, extractors as `InitExtractors` registers them) without a task, in
-- which every key finds a block.
pub init_data-IsRunning :
    (pool : ℕ → ℕ → CacheHead × List ℕ) (warn alarm : Option Text)
    → ((k i : ℕ) → length (pool k i).1 ≡ body_size)
    → let w = init_data pool (new_world warn alarm) in
      IsRunning w × (w.factory.current_task ≡ 0) × HasBlocks w
unfolding init_data new_factory set_report_sink set_sink new_aggregator
init_data-IsRunning pool warn alarm full =
    let (r, made, room, free) = init-Room pool full in
    rw made (
      record {
        sink = refl;
        report_sink = refl;
        buf = length-replicate {A = ℕ} k_cap 0;
        narrow = omega arith;
        table = refl;
        region = r;
        mem = refl;
        room = room;
      },
      refl,
      λ key now. acquire_block_free r key now room (free 0),
    )

-- A task message of full length that is active, for a task that is not 0, makes a running data thread
-- able to report.
pub on_task_active-CanReport :
    (d : DataThread) (payload : List ℕ)
    → IsRunning d.world
    → 8 ≤ length payload
    → read_le payload 4 4 ≡ 1
    → read_le payload 0 4 ≢ 0
    → read_le payload 0 4 < 2 ^ 32
    → CanReport (on_task_active (some payload) d).world
unfolding on_task_active on_task
on_task_active-CanReport d payload c long active task narrow =
    let running : not (read_le payload 4 4 == 1) ≡ false = rw active refl in
    rw (ltb-false (length payload) 8 long, running)
      (record {
        running = record {
          sink = c.sink;
          report_sink = c.report_sink;
          buf = c.buf;
          narrow = narrow;
          table = c.table;
          region = c.region;
          mem = c.mem;
          room = c.room;
        };
        task = task;
      })

active_factory :
    (d : DataThread) (payload : List ℕ)
    → 8 ≤ length payload
    → read_le payload 4 4 ≡ 1
    → on_task_active (some payload) d ≡ record d {
      world = record d.world {
        factory = record d.world.factory { current_task = read_le payload 0 4 };
      };
    }
unfolding on_task_active on_task
active_factory d payload long active =
    let running : not (read_le payload 4 4 == 1) ≡ false = rw active refl in
    rw (ltb-false (length payload) 8 long, running) refl

-- The data thread after step 2.5.
abbrev pub initial : (ℕ → ℕ → CacheHead × List ℕ) → Option Text → Option Text → Mw → DataThread
initial pool warn alarm mw = record { world = init_data pool (new_world warn alarm); mw = mw }

-- What the first frame after the start is published as.
pub record FirstReport (mw : Mw) (task_id : ℕ) (d : DataThread) : Type 0 where
  pub report : List ℕ
  pub published : d.mw ≡ record mw { external = mw.external ++ outgoing (report ∷ []) }
  pub parse : parse_report (some report) (length report) ≡ (true, cell_view task_id 0 1)
  pub still : CanReport d.world

module _ (order : Table → Table) (any_order : (t : Table) → Permᴰ (order t) t) where
  -- From the start to the first report: after step 2.5 on the new singletons, whatever the budgets in
  -- the environment and with blocks of the size that `Init` asks for, a task message of full length
  -- that is active, for a task from 1 to 2^32 - 1, and then a cell frame of at least 32768 bytes, in
  -- the full mode, whatever the order in which the table is visited, and with the middleware up:
  -- exactly one report is published, its parse gives that task, time 0, sequence number 1 and all 500
  -- slices with ids 1 to 500 in 34782 bytes, and the thread can report the next frame.
  pub first_frame-FirstReport :
      (pool : ℕ → ℕ → CacheHead × List ℕ) (warn alarm : Option Text) (us : ℕ) (mw : Mw)
      (task payload : List ℕ)
      → ((k i : ℕ) → length (pool k i).1 ≡ body_size)
      → mw.up ≡ true
      → 8 ≤ length task
      → read_le task 4 4 ≡ 1
      → read_le task 0 4 ≢ 0
      → read_le task 0 4 < 2 ^ 32
      → 32768 ≤ length payload
      → read_le payload 0 2 ≡ cell
      → FirstReport mw (read_le task 0 4) (
          on_agent_data bypass_full order us
            (some payload)
            (on_task_active (some task) (initial pool warn alarm mw)))
  unfolding on_agent_data init_data new_factory set_report_sink
  first_frame-FirstReport pool warn alarm us mw task payload full up long active named narrow whole
        typed =
      let start = initial pool warn alarm mw in
      let (running, _, blocks) = init_data-IsRunning pool warn alarm full in
      let e = active_factory start task long active in
      let c =
        subst (λ d. CanReport d.world) e
          (on_task_active-CanReport start task running long active named narrow) in
      let (b, got) = blocks (extract_raw_key cell (some payload) (length payload)) 0 in
      let p = process-Published order any_order _ payload us b c whole got in
      rw (e, ltb-false (length payload) 2 (omega arith), typed)
        (record {
          report = p.frame;
          published = rw p.sent (publish_report-external mw p.frame _ up p.parse);
          parse = p.parse;
          still = p.still;
        })
