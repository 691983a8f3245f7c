-- ===== src/Web/ReportFrame/RoundTrip.antt =====
-- The parser against the frames that the report aggregator publishes.
use dts_framework.Common.{
  ℕ, ◌+◌, ◌-◌, ◌^◌, ◌≤◌, ◌<◌, ◌≡◌, refl, sym, ap, ◌∙◌, true, some, List, [], ◌∷◌, ◌++◌, arith,
  length, take, drop, to_le, read_le, ltb, if◌then◌else◌, Bool-cases, inl, inr, ltb-false,
  read_le_here, drop_after, drop-drop, drop_at, from_le_four, from_le_eight,
}
use dts_framework.Data.Aggregator.{ReportAggregator, header_size, k_cap, begin, flush}
use dts_framework.Data.Aggregator.Frame.{Slice, encode, size, length-encode, add_all}
use dts_framework.Data.Aggregator.Accepted.{accepted, size-accepted}
use dts_framework.Data.Aggregator.Publish.{IsReport, publish-IsReport}
use dts_framework.Data.Aggregator.Layout.{layout, length-layout}
use dts_framework.Web.ReportFrame.{ReportView, scan_body, parse_report, slice_limit}
use dts_framework.Web.ReportFrame.Scanning.{Ids, lowest, highest, scanned, start, scan_body-encode}

-- The header of a report, field by field, and where the slices start.
record HeaderAt (task_id ts seq payload : ℕ) (rest frame : List ℕ) : Type 0 where
  task_id_at : read_le frame 0 4 ≡ task_id
  ts_at : read_le frame 8 8 ≡ ts
  seq_at : read_le frame 16 4 ≡ seq
  payload_at : read_le frame 20 4 ≡ payload
  rest_at : drop 24 frame ≡ rest

header_at :
    (task_id ts seq payload : ℕ) (pad rest : List ℕ)
    → length pad ≡ 4
    → task_id < 2 ^ 32
    → ts < 2 ^ 64
    → seq < 2 ^ 32
    → payload < 2 ^ 32
    → HeaderAt task_id ts seq payload rest (layout task_id pad ts seq payload rest)
header_at task_id ts seq payload pad rest lp ht hs hq hp = record {
  task_id_at = read_le_here f 0 4 task_id _ refl ∙ from_le_four task_id ht;
  ts_at = read_le_here f 8 8 ts _ to_ts ∙ from_le_eight ts hs;
  seq_at = read_le_here f 16 4 seq _ to_seq ∙ from_le_four seq hq;
  payload_at = read_le_here f 20 4 payload _ to_payload ∙ from_le_four payload hp;
  rest_at = drop_after f 20 4 payload _ to_payload;
}
  where
    f : List ℕ
    f = layout task_id pad ts seq payload rest

    to_ts : drop 8 f ≡ to_le 8 ts ++ (to_le 4 seq ++ (to_le 4 payload ++ rest))
    to_ts =
        sym (drop-drop 4 4 f)
        ∙ ap (drop 4) (drop_after f 0 4 task_id _ refl)
        ∙ drop_at 4 pad _ (sym lp)

    to_seq : drop 16 f ≡ to_le 4 seq ++ (to_le 4 payload ++ rest)
    to_seq = drop_after f 8 8 ts _ to_ts

    to_payload : drop 20 f ≡ to_le 4 payload ++ rest
    to_payload = drop_after f 16 4 seq _ to_seq

-- The view that a report of `ss` should give.
abbrev pub expected_view : ℕ → ℕ → ℕ → List Slice → ReportView
expected_view task_id ts seq ss =
    let seen = take slice_limit ss in
    record {
      task_id = task_id;
      timestamp_ms = ts;
      seq = seq;
      payload_len = size ss;
      slice_count = length seen;
      data_id_min = if ltb 0 (length seen) then lowest 0xffff seen else 0;
      data_id_max = highest 0 seen;
      frame_len = header_size + size ss;
    }

-- A published frame parses to its header, its length, and the count and range of its slices.
pub parse-report_round_trip :
    (task_id ts seq : ℕ) (ss : List Slice) (frame : List ℕ)
    → IsReport task_id ts seq ss frame
    → task_id < 2 ^ 32
    → ts < 2 ^ 64
    → seq < 2 ^ 32
    → Ids ss
    → size ss ≤ k_cap
    → parse_report (some frame) (length frame) ≡ (true, expected_view task_id ts seq ss)
unfolding parse_report
parse-report_round_trip task_id ts seq ss frame r ht hs hq ids fits =
    rw
      (
        r.bytes,
        long,
        ltb-false (header_size + size ss) header_size (omega arith),
        loop,
        at.task_id_at,
        at.ts_at,
        at.seq_at,
        at.payload_at,
      )
      (let e : 0 + length (take slice_limit ss) ≡ length (take slice_limit ss) = omega arith in
        rw e)
  where
    f : List ℕ
    f = layout task_id r.pad ts seq (size ss) (encode ss)

    at : HeaderAt task_id ts seq (size ss) (encode ss) f
    at = header_at task_id ts seq (size ss) r.pad (encode ss) r.four ht hs hq (omega arith)

    long : length f ≡ header_size + size ss
    long =
        length-layout task_id ts seq (size ss) r.pad (encode ss) r.four
        ∙ ap (λ k. 24 + k) (length-encode ss)

    loop : scan_body f (header_size + size ss - header_size) ≡ scanned start (take slice_limit ss)
    loop =
        scan_body-encode f (header_size + size ss - header_size) ss at.rest_at (omega arith) ids
          fits

Ids-accepted : (used : ℕ) (ss : List Slice) → Ids ss → Ids (accepted used ss)
unfolding accepted
Ids-accepted used [] h = tt
Ids-accepted used (s ∷ ss) h =
    let next = used + 4 + length s.bytes in
    elim (Bool-cases (ltb k_cap next)) [
      | inl over ↦ rw over (Ids-accepted used ss h.1)
      | inr fits ↦ rw fits (h.0, Ids-accepted next ss h.1)
    ]

-- From the slices of one frame to the view of the web server: with a full-size buffer, a sink, at
-- least one slice that fits, and fields within their widths, the frame is published, and its parse
-- gives the task, time and sequence number of the frame, and the number and the range of data ids
-- of the first 1000 slices that fitted.
pub publish-parse :
    (a : ReportAggregator) (task_id ts seq : ℕ) (ss : List Slice)
    → length a.buf ≡ k_cap
    → a.sink ≡ true
    → 0 < size (accepted header_size ss)
    → task_id < 2 ^ 32
    → ts < 2 ^ 64
    → seq < 2 ^ 32
    → Ids ss
    → (frame : List ℕ) × ((flush (add_all (begin a task_id) ss) ts seq).0 ≡ some frame)
      × (parse_report (some frame) (length frame)
          ≡ (true, expected_view task_id ts seq (accepted header_size ss)))
publish-parse a task_id ts seq ss room on full ht hs hq ids =
    let (frame, sent, report, _, _) = publish-IsReport a task_id ts seq ss room on full in
    (
      frame,
      sent,
      parse-report_round_trip task_id ts seq (accepted header_size ss) frame report ht hs hq
          (Ids-accepted header_size ss ids)
          (omega (arith, size-accepted header_size ss (omega arith))),
    )
