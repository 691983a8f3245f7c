-- ===== src/Pipeline.antt =====
-- Cell frames from contexts/data/application/src/data_msg_handler.cpp to the statistics of
-- webserver/src/main.cpp. Between the two stand the middleware and Kafka; `deliver` is the case
-- that every report arrives, in order.
pub mod Start
use mathlib.Core.List.{Permᴰ}
use dts_framework.Common.{
  ℕ, suc, ◌+◌, ◌%◌, ◌^◌, ◌≤◌, ◌≡◌, refl, sym, ap, ◌∙◌, Bool, true, false, some, List, [], ◌∷◌, ◌++◌,
  append_assoc, append-nil, arith, length, map, read_le, ltb-false, ==_refl, Bool-cases, leb, inl,
  inr,
}
use dts_framework.Infra.Session.{
  Endpoint, Mw, dts_endpoint, session_inst_data, msg_id_report, publish_external,
}
use dts_framework.Data.Ids.{cell, period_1s}
use dts_framework.Data.Mem
use dts_framework.Data.Mem.{Block}
use dts_framework.Data.Registry.{Table}
use dts_framework.Data.Factory.{bypass_full, extract_raw_key, inc32}
use dts_framework.Data.Factory.Cells.{CanReport, process-Published}
use dts_framework.Data.Handlers.{DataThread, publish_report, on_agent_data}
use dts_framework.Web.ReportFrame.{ReportView, parse_report}
use dts_framework.Web.Stats.{Stats, on_report}
use dts_framework.Web.Main.{frame_gap, Page, push_frame, on_message}

-- The circumstances in which the callback of the consumer gets a message.
pub record Arrival : Type 0 where
  pub sent : ℕ → Bool
  pub offset : ℕ
  pub sec : ℕ
  pub now : ℕ

abbrev arrive : Arrival → List ℕ → Page → Page
arrive a report page = (on_message a.sent (some report) (length report) a.offset a.sec a.now page).1

unfoldable pub deliver : (ℕ → Arrival) → List (List ℕ) → Page → Page
deliver clock [] page = page
deliver clock (report ∷ reports) page =
    deliver (λ i. clock (suc i)) reports (arrive (clock 0) report page)

abbrev pub outgoing : List (List ℕ) → List (Endpoint × List ℕ)
outgoing = map (λ report. (dts_endpoint session_inst_data msg_id_report, report))

push_frame-stats :
    (sent : ℕ → Bool) (v : ReportView) (offset now : ℕ) (page : Page)
    → (push_frame sent v offset now page).1.stats ≡ page.stats
unfolding push_frame
push_frame-stats sent v offset now page =
    elim (Bool-cases (leb (page.last_frame_push + frame_gap) now)) [ inl e ↦ rw e | inr e ↦ rw e ]

on_message-stats :
    (a : Arrival) (report : List ℕ) (v : ReportView) (page : Page)
    → parse_report (some report) (length report) ≡ (true, v)
    → (on_message a.sent (some report) (length report) a.offset a.sec a.now page).1.stats
      ≡ on_report page.stats v a.sec
unfolding on_message
on_message-stats a report v page e = rw e (
    push_frame-stats a.sent v a.offset a.now (record page { stats = on_report page.stats v a.sec }))

pub publish_report-external :
    (mw : Mw) (report : List ℕ) (v : ReportView)
    → mw.up ≡ true
    → parse_report (some report) (length report) ≡ (true, v)
    → publish_report mw (some report)
      ≡ record mw { external = mw.external ++ outgoing (report ∷ []) }
unfolding publish_report publish_external parse_report
publish_report-external mw [] v up e = let bad : false ≡ true = ap (λ r. r.0) e in absurd (cc)
publish_report-external mw (x ∷ report) v up e = rw up

module _ (order : Table → Table) (us : ℕ) where
  abbrev pub on_frame : List ℕ → DataThread → DataThread
  on_frame payload d = on_agent_data bypass_full order us (some payload) d

  abbrev pub on_frames : List (List ℕ) → DataThread → DataThread
  on_frames [] d = d
  on_frames (payload ∷ payloads) d = on_frames payloads (on_frame payload d)

  -- Each payload is a whole cell frame that finds a block for its key.
  abbrev pub Served : DataThread → List (List ℕ) → Type 0
  Served d [] = Unit {0}
  Served d (payload ∷ payloads) =
      (32768 ≤ length payload)
      × (read_le payload 0 2 ≡ cell)
      × (b : Block) × ((Mem.acquire_block d.world.mem cell period_1s
            (extract_raw_key cell (some payload) (length payload)) d.world.factory.tick).0
          ≡ some b)
      × Served (on_frame payload d) payloads

-- What one frame leaves.
record Sent (d d' : DataThread) : Type 0 where
  report : List ℕ
  view : ReportView
  mw : d'.mw ≡ record d.mw { external = d.mw.external ++ outgoing (report ∷ []) }
  parse : parse_report (some report) (length report) ≡ (true, view)
  numbered : view.seq ≡ inc32 d.world.factory.seq
  seq : d'.world.factory.seq ≡ inc32 d.world.factory.seq
  still : CanReport d'.world

-- What a run of frames leaves: the reports that are published, and what the web server counts when
-- they arrive.
pub record Travelled (d d' : DataThread) (count : ℕ) : Type 0 where
  pub reports : List (List ℕ)
  pub published : d'.mw.external ≡ d.mw.external ++ outgoing reports
  pub all : length reports ≡ count
  pub counted :
      (clock : ℕ → Arrival) (page : Page)
      → page.stats.has_last_seq ≡ true
      → page.stats.last_seq ≡ d.world.factory.seq
      → let s = (deliver clock reports page).stats in
        (s.gaps ≡ page.stats.gaps)
        × (s.total_frames % 2 ^ 64 ≡ (page.stats.total_frames + count) % 2 ^ 64)
        × (s.last_seq ≡ d'.world.factory.seq)
  pub still : CanReport d'.world

on_report_next :
    (s : Stats) (v : ReportView) (sec : ℕ)
    → s.has_last_seq ≡ true
    → v.seq ≡ inc32 s.last_seq
    → ((on_report s v sec).gaps ≡ s.gaps)
      × ((on_report s v sec).total_frames ≡ (s.total_frames + 1) % 2 ^ 64)
unfolding on_report
on_report_next s v sec on e = (rw (on, e, ==_refl (inc32 s.last_seq)) refl, refl)

-- What one report does to the page that it arrives at.
arrival-counted :
    {d d' : DataThread} (a : Arrival) (page : Page) (s : Sent d d')
    → page.stats.has_last_seq ≡ true
    → page.stats.last_seq ≡ d.world.factory.seq
    → let k = (arrive a s.report page).stats in
      (k.has_last_seq ≡ true)
      × (k.last_seq ≡ d'.world.factory.seq)
      × (k.gaps ≡ page.stats.gaps)
      × (k.total_frames ≡ (page.stats.total_frames + 1) % 2 ^ 64)
unfolding on_report
arrival-counted a page s on at =
    let now = on_message-stats a s.report s.view page s.parse in
    let (same, counts) =
      on_report_next page.stats s.view a.sec on (s.numbered ∙ ap inc32 (sym at)) in
    (
      ap (λ k. k.has_last_seq) now,
      ap (λ k. k.last_seq) now ∙ s.numbered ∙ sym s.seq,
      ap (λ k. k.gaps) now ∙ same,
      ap (λ k. k.total_frames) now ∙ counts,
    )

module _ (order : Table → Table) (us : ℕ) (any_order : (t : Table) → Permᴰ (order t) t) where
  on_frame-Sent :
      (d : DataThread) (payload : List ℕ) (b : Block)
      → CanReport d.world
      → d.mw.up ≡ true
      → 32768 ≤ length payload
      → read_le payload 0 2 ≡ cell
      → (Mem.acquire_block d.world.mem cell period_1s
          (extract_raw_key cell (some payload) (length payload))
          d.world.factory.tick).0
        ≡ some b
      → Sent d (on_frame order us payload d)
  unfolding on_agent_data
  on_frame-Sent d payload b c up long typed got =
      let p = process-Published order any_order d.world payload us b c long got in
      rw (ltb-false (length payload) 2 (omega arith), typed)
        (record {
          report = p.frame;
          view = _;
          mw = rw p.sent (publish_report-external d.mw p.frame _ up p.parse);
          parse = p.parse;
          numbered = refl;
          seq = p.seq;
          still = p.still;
        })

  -- A run of cell frames, each of at least 32768 bytes and with a block for its key, through the
  -- handler of a data thread that can report, with the middleware up: the handler publishes one
  -- report for each, in order; where they arrive at the web server in that order, after a first
  -- report whose sequence number is the last one of the factory, the statistics count no gap, each
  -- frame once modulo 2^64, and end at the last sequence number of the factory.
  pub on_frames-Travelled :
      (d : DataThread) (payloads : List (List ℕ))
      → CanReport d.world
      → d.mw.up ≡ true
      → Served order us d payloads
      → Travelled d (on_frames order us payloads d) (length payloads)
  unfolding deliver on_report
  on_frames-Travelled d [] c up served = record {
    reports = [];
    published = sym (append-nil d.mw.external);
    all = refl;
    counted = λ clock page on at. (refl, ap (λ n. n % 2 ^ 64) (omega arith), at);
    still = c;
  }
  on_frames-Travelled d (payload ∷ payloads) c up (long, typed, b, got, served) =
      let s = on_frame-Sent d payload b c up long typed got in
      let t =
        on_frames-Travelled (on_frame order us payload d) payloads s.still
          (ap (λ m. m.up) s.mw ∙ up) served in
      record {
        reports = s.report ∷ t.reports;
        published =
            t.published
            ∙ ap (λ m. m.external ++ outgoing t.reports) s.mw
            ∙ append_assoc d.mw.external (outgoing (s.report ∷ [])) (outgoing t.reports);
        all = ap suc t.all;
        counted = λ clock page on at.
            let (on', at', gaps', total') = arrival-counted (clock 0) page s on at in
            let (gaps, total, last) =
              t.counted (λ i. clock (suc i)) (arrive (clock 0) s.report page) on' at' in
            (gaps ∙ gaps', total ∙ omega (arith, total'), last);
        still = t.still;
      }
