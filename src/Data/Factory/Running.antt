-- ===== src/Data/Factory/Running.antt =====
-- What holds of the data thread of contexts/data/domain/src/data_factory_v2.cpp whatever frames it gets.
use mathlib.Core.List.{Permᴰ}
use dts_framework.Common.{
  ℕ, ◌*◌, ◌%◌, ◌^◌, ◌<◌, ◌≡◌, sym, ap, ◌∙◌, subst, true, false, not, some, none, List, [], arith,
  length, Bool-cases, inl, inr, ◌==◌,
}
use dts_framework.Data.Ids.{cell, tick_ms, period_1s}
use dts_framework.Data.Aggregator.{begin, k_cap}
use dts_framework.Data.Aggregator.Frame.{begin-Holds, add_all}
use dts_framework.Data.Aggregator.Accepted.{add_all-Added}
use dts_framework.Data.Aggregator.Publish.{flush-keeps}
use dts_framework.Data.Registry.{Table, init_extractors, of_domain}
use dts_framework.Data.Registry.Cells.{
  init_extractors-cells, of_domain-Permᴰ, cell_extractors, cell_extractors-AllCell, AllCell-Permᴰ,
}
use dts_framework.Data.Region.{RegionDesc}
use dts_framework.Data.Mem
use dts_framework.Data.Mem.{Block, DataMemManager, acquire_block}
use dts_framework.Data.Mem.Layout.{ready}
use dts_framework.Data.Mem.Room.{Room, Taken, acquire_block_cases}
use dts_framework.Data.Factory.{
  bypass_full, DataFactory, DataStats, World, inc64, inc32, extract_raw_key, count_key,
  publish_pass, process_block, process_frame, process,
}
use dts_framework.Data.Factory.Slices.{fitting, slices}
use dts_framework.Data.Factory.Slices.Visits.{visit_all-Visited}

-- A data thread after start-up: a sink, the whole buffer, the memory that `Init` builds and
-- the extractors that `InitExtractors` registers.
pub record IsRunning (w : World) : Type 0 where
  pub sink : w.factory.sink ≡ true
  pub report_sink : w.factory.agg.sink ≡ true
  pub buf : length w.factory.agg.buf ≡ k_cap
  pub narrow : w.factory.current_task < 2 ^ 32
  pub table : w.table ≡ init_extractors []
  pub region : RegionDesc
  pub mem : w.mem ≡ ready region
  pub room : Room region

pub count_key-stats :
    (f : DataFactory) (key : ℕ) → (s : DataStats) × (count_key f key ≡ record f { stats = s })
unfolding count_key
count_key-stats f key = elim (Bool-cases (key == 0)) [
  | inl e ↦ (record f.stats { key_fail = inc64 f.stats.key_fail }, rw e)
  | inr e ↦ (f.stats, rw e)
]

-- Counts do not matter.
recounted-IsRunning :
    (w : World) (stats : DataStats) (proc_count skip_task : ℕ)
    → IsRunning w
    → IsRunning (record w {
      factory = record w.factory { stats = stats; proc_count = proc_count; skip_task = skip_task };
    })
recounted-IsRunning w stats proc_count skip_task c = record {
  sink = c.sink;
  report_sink = c.report_sink;
  buf = c.buf;
  narrow = c.narrow;
  table = c.table;
  region = c.region;
  mem = c.mem;
  room = c.room;
}

-- The extractors of a table that `InitExtractors` filled, in the order that the iteration takes.
module _ (order : Table → Table) (any_order : (t : Table) → Permᴰ (order t) t) where
  pub visited :
      (t : Table)
      → t ≡ init_extractors []
      → Permᴰ (of_domain cell (order t)) (cell_extractors 500 1)
  visited t e =
      subst (λ ss. Permᴰ (of_domain cell (order t)) ss)
        (ap (of_domain cell) e ∙ init_extractors-cells)
        (of_domain-Permᴰ cell (order t) t (any_order t))

  none-IsRunning :
      (w : World) (f : DataFactory) (m : DataMemManager) (raw : List ℕ) (data_type us : ℕ)
      → IsRunning w
      → (s : DataStats) × (f
          ≡ record w.factory { stats = s; proc_count = inc64 w.factory.proc_count })
      → m ≡ w.mem
      → IsRunning
          (process_block bypass_full order (some raw) (length raw) data_type us w f (none, m)).1
  unfolding process_block
  none-IsRunning w f m raw data_type us c (s, same) kept =
      rw (same, kept)
        (recounted-IsRunning w (record s { drop_pool_full = inc64 s.drop_pool_full })
          (inc64 w.factory.proc_count) w.factory.skip_task c)

  block-IsRunning :
      (w : World) (f : DataFactory) (b : Block) (m : DataMemManager) (raw : List ℕ) (us : ℕ)
      → IsRunning w
      → (s : DataStats) × (f
          ≡ record w.factory { stats = s; proc_count = inc64 w.factory.proc_count })
      → Taken b m
      → IsRunning
          (process_block bypass_full order (some raw) (length raw) cell us w f (some b, m)).1
  unfolding process_block publish_pass begin
  block-IsRunning w f b m raw us c (s, same) t =
      let ss = of_domain cell (order w.table) in
      let all =
        AllCell-Permᴰ (visited w.table c.table) (cell_extractors-AllCell 500 0 (omega arith)) in
      let a = begin w.factory.agg w.factory.current_task in
      let v =
        visit_all-Visited raw t.region t.idx w.factory.for_each_total a ss t.room t.inside all in
      let added =
        add_all-Added [] a (slices raw (fitting (length raw) ss))
          (begin-Holds w.factory.agg w.factory.current_task c.buf) in
      let (sink, _, buf) =
        flush-keeps (add_all a (slices raw (fitting (length raw) ss)))
          ((w.factory.tick * tick_ms) % 2 ^ 64) (inc32 w.factory.seq) added.holds.room in
      rw (same, t.manager, t.block)
        (record {
          sink = c.sink;
          report_sink = rw v.report (sink ∙ added.sink ∙ c.report_sink);
          buf = rw v.report buf;
          narrow = c.narrow;
          table = c.table;
          region = v.region;
          mem = v.mem;
          room = v.room;
        })

  -- In the full mode a running data thread is running after every frame, of any type and any length.
  pub process-IsRunning :
      (w : World) (raw : List ℕ) (data_type us : ℕ)
      → IsRunning w
      → IsRunning (process bypass_full order w (some raw) (length raw) data_type us).1
  unfolding process process_frame
  process-IsRunning w raw data_type us c =
      let w₁ = record w {
        factory = record w.factory { proc_count = inc64 w.factory.proc_count };
      } in
      let key = extract_raw_key data_type (some raw) (length raw) in
      let f = count_key-stats w₁.factory key in
      let r = Mem.acquire_block w.mem data_type period_1s key w.factory.tick in
      let on : not w.factory.sink ≡ false = ap not c.sink in
      let cases = acquire_block_cases c.region data_type key w.factory.tick c.room in
      let same = ap (λ m. Mem.acquire_block m data_type period_1s key w.factory.tick) c.mem in
      elim (Bool-cases (w.factory.current_task == 0)) [
        | inl idle ↦
            rw (on, idle)
              (recounted-IsRunning w w.factory.stats (inc64 w.factory.proc_count)
                (inc64 w.factory.skip_task) c)
        | inr busy ↦ elim cases [
          | inl missed ↦
              rw (on, busy, same ∙ missed)
                (none-IsRunning w (count_key w₁.factory key) (ready c.region) raw data_type us c f
                  (sym c.mem))
          | inr (typed, b, got, t) ↦
              let whole : r ≡ (some b, r.1) = λ i. ((ap (λ o. o.0) same ∙ got) i, r.1) in
              rw (on, busy, whole)
                (subst
                  (λ d.
                    IsRunning
                      (process_block bypass_full order (some raw) (length raw) d us w
                        (count_key w₁.factory key) (some b, r.1)).1)
                  (sym typed)
                  (block-IsRunning w (count_key w₁.factory key) b r.1 raw us c f
                    (subst (λ o. Taken b o.1) (sym same) t)))
        ]
      ]
