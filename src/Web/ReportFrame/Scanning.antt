-- ===== src/Web/ReportFrame/Scanning.antt =====
-- The loop over the sub-headers in webserver/src/report_frame.h, on a body that the report aggregator
-- wrote.
use dts_framework.Common.{
  ℕ, zero, suc, ◌+◌, ◌%◌, ◌^◌, ◌≤◌, ◌<◌, ◌≡◌, refl, sym, ap, ◌∙◌, false, List, [], ◌∷◌, ◌++◌,
  append_assoc, arith, length, take, drop, to_le, read_le, ltb, leb, if◌then◌else◌, min, max,
  le→leb, ltb-false, read_le_here, drop_after, drop-drop, drop_at, from_le_two,
}
use dts_framework.Data.Aggregator.{header_size, k_cap}
use dts_framework.Data.Aggregator.Frame.{Slice, encode, size}
use dts_framework.Web.ReportFrame.{Scan, scan_step, scan, scan_body, slice_limit}

-- Data ids of 16 bits.
abbrev pub Ids : List Slice → Type 0
Ids [] = Unit {0}
Ids (s ∷ ss) = (s.data_id < 2 ^ 16) × Ids ss

abbrev pub lowest : ℕ → List Slice → ℕ
lowest m [] = m
lowest m (s ∷ ss) = lowest (min m s.data_id) ss

abbrev pub highest : ℕ → List Slice → ℕ
highest m [] = m
highest m (s ∷ ss) = highest (max m s.data_id) ss

-- What the loop should find in `ss`, from `s`.
abbrev pub scanned : Scan → List Slice → Scan
scanned s ss = record {
  count = s.count + length ss;
  min_id = lowest s.min_id ss;
  max_id = highest s.max_id ss;
}

after_step :
    (s : Scan) (x : Slice) (ss : List Slice)
    → scanned (scan_step s x.data_id) ss ≡ scanned s (x ∷ ss)
unfolding scan_step
after_step s x ss i = record {
  count = count_eq i;
  min_id = lowest (min_eq i) ss;
  max_id = highest (max_eq i) ss;
}
  where
    count_eq : s.count + 1 + length ss ≡ s.count + suc (length ss)
    count_eq = omega arith

    min_eq : (if ltb x.data_id s.min_id then x.data_id else s.min_id) ≡ min s.min_id x.data_id
    min_eq = ground arith

    max_eq : (if ltb s.max_id x.data_id then x.data_id else s.max_id) ≡ max s.max_id x.data_id
    max_eq = ground arith

-- The sub-header and the rest of a slice that stands at `off`.
record SliceAt (frame : List ℕ) (off : ℕ) (x : Slice) (ss : List Slice) : Type 0 where
  id : read_le frame off 2 ≡ x.data_id
  len : read_le frame (off + 2) 2 ≡ length x.bytes
  rest : drop (off + 4 + length x.bytes) frame ≡ encode ss

slice_at :
    (frame : List ℕ) (off : ℕ) (x : Slice) (ss : List Slice)
    → x.data_id < 2 ^ 16
    → length x.bytes < 2 ^ 16
    → drop off frame ≡ encode (x ∷ ss)
    → SliceAt frame off x ss
slice_at frame off x ss hi hl here = record {
  id = read_le_here frame off 2 x.data_id _ first ∙ from_le_two x.data_id hi;
  len =
      read_le_here frame (off + 2) 2 (length x.bytes % 2 ^ 16) _ second
      ∙ from_le_two (length x.bytes % 2 ^ 16) (omega arith)
      ∙ omega arith;
  rest =
      sym (drop-drop (off + 4) (length x.bytes) frame)
      ∙ ap (drop (length x.bytes)) third
      ∙ drop_at (length x.bytes) x.bytes (encode ss) refl;
}
  where
    first :
        drop off frame
        ≡ to_le 2 x.data_id ++ (to_le 2 (length x.bytes % 2 ^ 16) ++ (x.bytes ++ encode ss))
    first = here ∙ append_assoc (to_le 2 x.data_id) (to_le 2 (length x.bytes % 2 ^ 16)) _

    second : drop (off + 2) frame ≡ to_le 2 (length x.bytes % 2 ^ 16) ++ (x.bytes ++ encode ss)
    second = drop_after frame off 2 x.data_id _ first

    third : drop (off + 4) frame ≡ x.bytes ++ encode ss
    third =
        let e : off + 4 ≡ off + 2 + 2 = omega arith in
        rw e (drop_after frame (off + 2) 2 (length x.bytes % 2 ^ 16) _ second)

scanned-nil : (s : Scan) → scanned s [] ≡ s
scanned-nil s i = record { count = count_eq i; min_id = s.min_id; max_id = s.max_id }
  where
    count_eq : s.count + 0 ≡ s.count
    count_eq = omega arith

-- The loop over a body that holds `ss` sees the slices that the limit lets in.
scan-encode :
    (left : ℕ) (frame : List ℕ) (body pos : ℕ) (s : Scan) (ss : List Slice)
    → drop (header_size + pos) frame ≡ encode ss
    → body ≡ pos + size ss
    → Ids ss
    → size ss ≤ k_cap
    → scan left frame body pos s ≡ scanned s (take left ss)
unfolding scan
scan-encode zero frame body pos s ss here e ids h = sym (scanned-nil s)
scan-encode (suc left) frame body pos s [] here e ids h =
    let over : leb (pos + 4) body ≡ false = ground arith in rw over (sym (scanned-nil s))
scan-encode (suc left) frame body pos s (x ∷ ss) here e ids h =
    let at : SliceAt frame (header_size + pos) x ss =
      slice_at frame (header_size + pos) x ss ids.0 (omega arith) here in
    let shift : header_size + (pos + 4 + length x.bytes) ≡ header_size + pos + 4 + length x.bytes =
      omega arith in
    let next : drop (header_size + (pos + 4 + length x.bytes)) frame ≡ encode ss =
      rw shift at.rest in
    rw
      (
        at.id,
        at.len,
        le→leb (pos + 4) body (omega arith),
        ltb-false body (pos + 4 + length x.bytes) (omega arith),
      )
      (scan-encode left frame body (pos + 4 + length x.bytes) (scan_step s x.data_id) ss next
          (omega arith) ids.1 (omega arith)
        ∙ after_step s x (take left ss))

abbrev pub start : Scan
start = record { count = 0; min_id = 0xffff; max_id = 0 }

pub scan_body-encode :
    (frame : List ℕ) (body : ℕ) (ss : List Slice)
    → drop header_size frame ≡ encode ss
    → body ≡ size ss
    → Ids ss
    → size ss ≤ k_cap
    → scan_body frame body ≡ scanned start (take slice_limit ss)
unfolding scan_body
scan_body-encode frame body ss here e ids fits =
    scan-encode slice_limit frame body 0 start ss here (omega arith) ids fits
