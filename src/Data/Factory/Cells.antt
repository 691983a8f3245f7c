-- ===== src/Data/Factory/Cells.antt =====
-- Whole cell frames through contexts/data/domain/src/data_factory_v2.cpp, from the raw bytes to the
-- report that the web server parses.
use mathlib.Core.List.{Permᴰ}
use dts_framework.Common.{
  ℕ, ◌+◌, ◌*◌, ◌%◌, ◌^◌, ◌≤◌, ◌<◌, ◌≡◌, ◌≢◌, refl, sym, ap, ◌∙◌, true, false, not, some, Option,
  List, [], arith, length, ==_ne,
}
use dts_framework.Data.Ids.{cell, tick_ms, period_1s}
use dts_framework.Data.Aggregator.{begin, flush, k_cap, header_size, ReportAggregator}
use dts_framework.Data.Aggregator.Frame.{begin-Holds, size, add_all}
use dts_framework.Data.Aggregator.Accepted.{add_all-Added, accepted, accepted_all, rejected_none}
use dts_framework.Data.Aggregator.Publish.{publish-IsReport, flush-keeps}
use dts_framework.Data.Registry.{Table, ExtractorSpec, of_domain}
use dts_framework.Data.Registry.Cells.{
  cell_extractors, AllCell, AllCell-Permᴰ, cell_extractors-AllCell,
}
use dts_framework.Data.Mem
use dts_framework.Data.Mem.{Block, DataMemManager}
use dts_framework.Data.Mem.Room.{Taken, acquire_block-Taken}
use dts_framework.Data.Factory.{
  bypass_full, DataFactory, DataStats, World, inc64, inc32, extract_raw_key, count_key,
  publish_pass, process_block, process_frame, process,
}
use dts_framework.Data.Factory.Running.{IsRunning, count_key-stats, visited}
use dts_framework.Data.Factory.Slices.{slices, fitting_all}
use dts_framework.Data.Factory.Slices.Visits.{visit_all-Visited}
use dts_framework.Data.Factory.Slices.Whole.{cell_view, size-cells, slices-Ids, expected-cell_view}
use dts_framework.Web.ReportFrame.{parse_report}
use dts_framework.Web.ReportFrame.RoundTrip.{expected_view, publish-parse}

-- A running data thread with a task.
pub record CanReport (w : World) : Type 0 where
  pub running : IsRunning w
  pub task : w.factory.current_task ≢ 0

-- A report of all the slices of a frame, from `Begin` to `Flush`.
record Reported (a : ReportAggregator) (task_id ts seq : ℕ) (r : Option (List ℕ) × ReportAggregator)
    : Type 0 where
  frame : List ℕ
  sent : r.0 ≡ some frame
  parse : parse_report (some frame) (length frame) ≡ (true, cell_view task_id ts seq)
  sink : r.1.sink ≡ true
  buf : length r.1.buf ≡ k_cap
  drops : r.1.drops % 2 ^ 64 ≡ a.drops % 2 ^ 64

all_slices-Reported :
    (a : ReportAggregator) (task_id ts seq : ℕ) (raw : List ℕ) (ss : List ExtractorSpec)
    → length a.buf ≡ k_cap
    → a.sink ≡ true
    → task_id < 2 ^ 32
    → ts < 2 ^ 64
    → seq < 2 ^ 32
    → 32768 ≤ length raw
    → Permᴰ ss (cell_extractors 500 1)
    → Reported a task_id ts seq (flush (add_all (begin a task_id) (slices raw ss)) ts seq)
unfolding begin
all_slices-Reported a task_id ts seq raw ss room on ht hs hq long perm =
    let (frame, sent, parse) =
      publish-parse a task_id ts seq (slices raw ss) room on some_bytes ht hs hq
        (slices-Ids raw ss all) in
    let added = add_all-Added [] (begin a task_id) (slices raw ss) (begin-Holds a task_id room) in
    let (_, _, _, drops, buf) =
      publish-IsReport a task_id ts seq (slices raw ss) room on some_bytes in
    record {
      frame = frame;
      sent = sent;
      parse =
          parse
          ∙ ap (λ v. (true, v))
              (ap (expected_view task_id ts seq) kept
                ∙ expected-cell_view raw long ss perm task_id ts seq);
      sink = (flush-keeps b ts seq added.holds.room).0 ∙ added.sink ∙ on;
      buf = buf;
      drops =
          ap (λ n. n % 2 ^ 64) (flush-keeps b ts seq added.holds.room).1
          ∙ drops
          ∙ ap (λ n. (a.drops + n) % 2 ^ 64)
              (rejected_none header_size (slices raw ss)
                (omega (arith, size-cells raw long ss perm)))
          ∙ omega arith;
    }
  where
    b : ReportAggregator
    b = add_all (begin a task_id) (slices raw ss)

    all : AllCell ss
    all = AllCell-Permᴰ perm (cell_extractors-AllCell 500 0 (omega arith))

    kept : accepted header_size (slices raw ss) ≡ slices raw ss
    kept = accepted_all header_size (slices raw ss) (omega (arith, size-cells raw long ss perm))

    some_bytes : 0 < size (accepted header_size (slices raw ss))
    some_bytes = rw kept (omega (arith, size-cells raw long ss perm))

-- What one `Process` of a whole cell frame does.
pub record Published (w : World) (out : Option (List ℕ)) (w' : World) : Type 0 where
  pub frame : List ℕ
  pub sent : out ≡ some frame
  pub parse : parse_report (some frame) (length frame) ≡ (
    true,
    cell_view w.factory.current_task ((w.factory.tick * tick_ms) % 2 ^ 64) (inc32 w.factory.seq),
  )
  pub seq : w'.factory.seq ≡ inc32 w.factory.seq
  pub tick : w'.factory.tick ≡ w.factory.tick
  pub same_task : w'.factory.current_task ≡ w.factory.current_task
  pub drops : w'.factory.agg.drops % 2 ^ 64 ≡ w.factory.agg.drops % 2 ^ 64
  pub still : CanReport w'

module _ (order : Table → Table) (any_order : (t : Table) → Permᴰ (order t) t) where
  block-Published :
      (w : World) (raw : List ℕ) (us : ℕ) (f : DataFactory) (b : Block) (m : DataMemManager)
      → CanReport w
      → (s : DataStats) × (f
          ≡ record w.factory { stats = s; proc_count = inc64 w.factory.proc_count })
      → 32768 ≤ length raw
      → Taken b m
      → let r = process_block bypass_full order (some raw) (length raw) cell us w f (some b, m) in
        Published w r.0 r.1
  unfolding process_block publish_pass
  block-Published w raw us f b m c (s, same) long t =
      let ss = of_domain cell (order w.table) in
      let perm = visited order any_order w.table c.running.table in
      let all = AllCell-Permᴰ perm (cell_extractors-AllCell 500 0 (omega arith)) in
      let v =
        visit_all-Visited raw t.region t.idx w.factory.for_each_total
          (begin w.factory.agg w.factory.current_task) ss t.room t.inside all in
      let report =
        v.report
        ∙ ap (λ k. add_all (begin w.factory.agg w.factory.current_task) (slices raw k))
            (fitting_all (length raw) ss long all) in
      let p =
        all_slices-Reported w.factory.agg w.factory.current_task
          ((w.factory.tick * tick_ms) % 2 ^ 64) (inc32 w.factory.seq) raw ss c.running.buf
          c.running.report_sink c.running.narrow (omega arith) (omega arith) long perm in
      rw (same, t.manager, t.block)
        (record {
          frame = p.frame;
          sent = rw report p.sent;
          parse = p.parse;
          seq = refl;
          tick = refl;
          same_task = refl;
          drops = rw report p.drops;
          still = record {
            running = record {
              sink = c.running.sink;
              report_sink = rw report p.sink;
              buf = rw report p.buf;
              narrow = c.running.narrow;
              table = c.running.table;
              region = v.region;
              mem = v.mem;
              room = v.room;
            };
            task = c.task;
          };
        })

  -- In the full mode, on a running data thread with a task and whatever the order in which the table
  -- is visited, `Process` of a cell frame of at least 32768 bytes that gets a block publishes a
  -- report; its parse gives the task, the time of the tick, the next sequence number and all 500
  -- slices with ids 1 to 500 in 34782 bytes; no slice is dropped, and the thread can report the next
  -- frame.
  pub process-Published :
      (w : World) (raw : List ℕ) (us : ℕ) (b : Block)
      → CanReport w
      → 32768 ≤ length raw
      → (Mem.acquire_block w.mem cell period_1s
          (extract_raw_key cell (some raw) (length raw))
          w.factory.tick).0
        ≡ some b
      → let (out, w') = process bypass_full order w (some raw) (length raw) cell us in
        Published w out w'
  unfolding process process_frame
  process-Published w raw us b c long got =
      let w₁ = record w {
        factory = record w.factory { proc_count = inc64 w.factory.proc_count };
      } in
      let key = extract_raw_key cell (some raw) (length raw) in
      let r = Mem.acquire_block w.mem cell period_1s key w.factory.tick in
      let whole : r ≡ (some b, r.1) = λ i. (got i, r.1) in
      let taken : Taken b r.1 =
        acquire_block-Taken c.running.region key w.factory.tick b r.1 c.running.room (
          ap (λ m. Mem.acquire_block m cell period_1s key w.factory.tick) (sym c.running.mem)
          ∙ whole) in
      let done =
        block-Published w raw us (count_key w₁.factory key) b r.1 c (count_key-stats w₁.factory key)
          long taken in
      rw
        (
          (let e : not w.factory.sink ≡ false = ap not c.running.sink in e),
          ==_ne w.factory.current_task 0 c.task,
          whole,
        )
        done
