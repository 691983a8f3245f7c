-- ===== src/Data/Aggregator/Frame.antt =====
-- What a frame holds: the header, and the slices that `Add` accepted, in order.
use dts_framework.Common.{
  ℕ, ◌+◌, ◌%◌, ◌^◌, ◌≤◌, ◌≡◌, refl, ap, ◌∙◌, some, List, [], ◌∷◌, ◌++◌, append_assoc, append-nil,
  arith, length, take, drop, splice, to_le, ltb-false, lt→ltb, length-append, length-splice,
  take-splice, drop-splice, take_all, length-to_le, take-append-drop, length-drop,
}
use dts_framework.Data.Aggregator.{ReportAggregator, k_cap, header_size, begin, add}

-- A slice as the caller of `Add` has it.
pub record Slice : Type 0 where
  pub data_id : ℕ
  pub bytes : List ℕ

abbrev pub encode : List Slice → List ℕ
encode [] = []
encode (s ∷ ss) = (to_le 2 s.data_id ++ to_le 2 (length s.bytes % 2 ^ 16)) ++ (s.bytes ++ encode ss)

-- The bytes that slices take in a frame.
abbrev pub size : List Slice → ℕ
size [] = 0
size (s ∷ ss) = 4 + length s.bytes + size ss

unfoldable pub add_all : ReportAggregator → List Slice → ReportAggregator
add_all a [] = a
add_all a (s ∷ ss) = add_all (add a s.data_id (some s.bytes) (length s.bytes)) ss

pub length-encode : (ss : List Slice) → length (encode ss) ≡ size ss
length-encode [] = refl
length-encode (s ∷ ss) = omega (
  arith,
  length-append (to_le 2 s.data_id ++ to_le 2 (length s.bytes % 2 ^ 16)) (s.bytes ++ encode ss),
  length-append (to_le 2 s.data_id) (to_le 2 (length s.bytes % 2 ^ 16)),
  length-to_le 2 s.data_id,
  length-to_le 2 (length s.bytes % 2 ^ 16),
  length-append s.bytes (encode ss),
  length-encode ss,
)

encode-append : (ss : List Slice) (s : Slice) → encode (ss ++ s ∷ []) ≡ encode ss ++ encode (s ∷ [])
encode-append [] s = refl
encode-append (x ∷ ss) s = simp (encode-append ss s, append_assoc)

size-append : (ss : List Slice) (s : Slice) → size (ss ++ s ∷ []) ≡ size ss + (4 + length s.bytes)
size-append [] s = omega arith
size-append (x ∷ ss) s = omega (arith, size-append ss s)

-- The array holds the slices `ss` behind the room for the header.
pub record Holds (ss : List Slice) (a : ReportAggregator) : Type 0 where
  pub room : length a.buf ≡ k_cap
  pub used : a.used ≡ header_size + size ss
  pub fits : a.used ≤ k_cap
  pub body : take (size ss) (drop header_size a.buf) ≡ encode ss

-- One write at the end of what is there.
write_end :
    (buf : List ℕ) (n m off : ℕ) (there bytes : List ℕ)
    → off ≡ header_size + n
    → m ≡ n + length bytes
    → off + length bytes ≤ length buf
    → take n (drop header_size buf) ≡ there
    → take m (drop header_size (splice buf off bytes)) ≡ there ++ bytes
write_end buf n m off there bytes e f h t =
    rw (f, drop-splice header_size n off buf bytes e (omega arith))
      (take-splice (drop header_size buf) n bytes (omega (arith, length-drop header_size buf))
        ∙ ap (λ k. k ++ bytes) t)

pub begin-Holds :
    (a : ReportAggregator) (task_id : ℕ) → length a.buf ≡ k_cap → Holds [] (begin a task_id)
unfolding begin
begin-Holds a task_id h = record { room = h; used = refl; fits = omega arith; body = refl }

-- The four bytes of `SubHeader`.
abbrev sub_header : ℕ → ℕ → List ℕ
sub_header data_id len = to_le 2 data_id ++ to_le 2 (len % 2 ^ 16)

length-sub_header : (data_id len : ℕ) → length (sub_header data_id len) ≡ 4
length-sub_header data_id len = omega (
  arith,
  length-append (to_le 2 data_id) (to_le 2 (len % 2 ^ 16)),
  length-to_le 2 data_id,
  length-to_le 2 (len % 2 ^ 16),
)

splice-nil : (buf : List ℕ) (off : ℕ) → splice buf off [] ≡ buf
splice-nil buf off = let e : off + 0 ≡ off = omega arith in rw e (take-append-drop off buf)

-- What `Add` leaves when the slice fits: one write of the sub-header, one of the bytes.
abbrev pub appended : ReportAggregator → ℕ → List ℕ → ReportAggregator
appended a data_id bytes = record a {
  buf = splice (splice a.buf a.used (sub_header data_id (length bytes))) (a.used + 4) bytes;
  used = a.used + 4 + length bytes;
}

pub add_fits :
    (a : ReportAggregator) (data_id : ℕ) (bytes : List ℕ)
    → a.used + 4 + length bytes ≤ k_cap
    → add a data_id (some bytes) (length bytes) ≡ appended a data_id bytes
unfolding add
add_fits a data_id [] h =
    let e : a.used + 4 + 0 ≡ a.used + 4 = omega arith in
    rw (ltb-false k_cap (a.used + 4 + 0) h, splice-nil, e)
add_fits a data_id (x ∷ xs) h = rw (
  ltb-false k_cap (a.used + 4 + length (x ∷ xs)) h,
  lt→ltb 0 (length (x ∷ xs)) (omega arith),
  take_all (length xs) xs (omega arith),
)

-- `Add` of a slice that fits extends the frame by exactly that slice, and counts no drop.
pub add-Holds :
    (ss : List Slice) (a : ReportAggregator) (s : Slice)
    → Holds ss a
    → a.used + 4 + length s.bytes ≤ k_cap
    → Holds (ss ++ s ∷ []) (add a s.data_id (some s.bytes) (length s.bytes))
add-Holds ss a s v h = rw (add_fits a s.data_id s.bytes h) (record {
  room = written ∙ v.room;
  used = omega (arith, v.used, size-append ss s);
  fits = h;
  body =
      rw (size-append ss s, encode-append ss s)
        (write_end (splice a.buf a.used head) (size ss + 4) (size ss + (4 + length s.bytes))
            (a.used + 4) (encode ss ++ head) s.bytes (omega (arith, v.used)) (omega arith)
            (omega (arith, v.room, first)) opened
          ∙ regroup);
})
  where
    head : List ℕ
    head = sub_header s.data_id (length s.bytes)

    first : length (splice a.buf a.used head) ≡ length a.buf
    first =
        length-splice a.buf a.used head
          (omega (arith, v.room, length-sub_header s.data_id (length s.bytes)))

    written : length (splice (splice a.buf a.used head) (a.used + 4) s.bytes) ≡ length a.buf
    written =
        length-splice (splice a.buf a.used head) (a.used + 4) s.bytes (omega (arith, v.room, first))
        ∙ first

    opened : take (size ss + 4) (drop header_size (splice a.buf a.used head)) ≡ encode ss ++ head
    opened =
        write_end a.buf (size ss) (size ss + 4) a.used (encode ss) head v.used
          (omega (arith, length-sub_header s.data_id (length s.bytes)))
          (omega (arith, v.room, length-sub_header s.data_id (length s.bytes))) v.body

    regroup : (encode ss ++ head) ++ s.bytes ≡ encode ss ++ encode (s ∷ [])
    regroup = simp (append_assoc, append-nil)
