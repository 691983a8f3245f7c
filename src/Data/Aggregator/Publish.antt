-- ===== src/Data/Aggregator/Publish.antt =====
-- What `Flush` hands to the sink.
use dts_framework.Common.{
  Bool-cases, not, ◌||◌, ℕ, ◌+◌, ◌-◌, ◌%◌, ◌^◌, ◌≤◌, ◌<◌, ◌≡◌, refl, ap, ◌∙◌, subst, true, false,
  none, some, List, [], arith, length, take, drop, leb, le→leb, ◌⊎◌, inl, inr, length-drop,
}
use dts_framework.Data.Aggregator.{ReportAggregator, k_cap, header_size, begin, flush, write_header}
use dts_framework.Data.Aggregator.Frame.{Slice, encode, size, Holds, begin-Holds, add_all}
use dts_framework.Data.Aggregator.Accepted.{accepted, add_all-Added, rejected}
use dts_framework.Data.Aggregator.Layout.{
  layout, length-layout, take-layout, write_header-eq-layout, cut, length-cut,
}

-- What a published frame is: the header fields and the slices `ss`, whatever the padding.
pub record IsReport (task_id ts seq : ℕ) (ss : List Slice) (frame : List ℕ) : Type 0 where
  pub pad : List ℕ
  pub four : length pad ≡ 4
  pub bytes : frame ≡ layout task_id pad ts seq (size ss) (encode ss)

-- `Flush` without a sink, or on a frame without slices, publishes nothing and changes nothing.
pub flush-none :
    (a : ReportAggregator) (ts seq : ℕ)
    → (a.sink ≡ false) ⊎ (a.used ≤ header_size)
    → flush a ts seq ≡ (none, a)
unfolding flush
flush-none a ts seq (inl e) = rw e
flush-none a ts seq (inr h) = ground (arith, le→leb a.used header_size h)

-- Otherwise the frame is the header and the slices.
pub flush-Holds :
    (a : ReportAggregator) (ts seq : ℕ) (ss : List Slice)
    → Holds ss a
    → a.sink ≡ true
    → 0 < size ss
    → (frame : List ℕ) × ((flush a ts seq).0 ≡ some frame)
      × IsReport a.task_id ts seq ss frame
      × ((flush a ts seq).1.used ≡ 0)
      × (length (flush a ts seq).1.buf ≡ k_cap)
unfolding flush
flush-Holds a ts seq ss v on full =
    let open_frame : leb a.used header_size ≡ false = ground (arith, v.used) in
    let payload : a.used - header_size ≡ size ss = omega (arith, v.used) in
    let head =
      write_header-eq-layout a.buf a.task_id ts seq (a.used - header_size)
        (omega (arith, v.room)) in
    let pad = length-cut a.buf 4 4 (omega (arith, v.room)) in
    (
      take a.used (write_header a.buf a.task_id ts seq (a.used - header_size)),
      rw (on, open_frame),
      record {
        pad = cut a.buf 4 4;
        four = pad;
        bytes =
            ap (take a.used) head
            ∙ take-layout a.task_id ts seq (a.used - header_size) (size ss) a.used (cut a.buf 4 4)
                (drop 24 a.buf) (encode ss) pad v.used v.body
            ∙ ap (λ p. layout a.task_id (cut a.buf 4 4) ts seq p (encode ss)) payload;
      },
      rw (on, open_frame),
      rw (on, open_frame)
          (ap length head
            ∙ length-layout a.task_id ts seq (a.used - header_size) (cut a.buf 4 4) (drop 24 a.buf)
                pad
            ∙ omega (arith, v.room, length-drop 24 a.buf)),
    )

-- Whatever it publishes, `Flush` keeps sink and drops, and a buffer of full size.
pub flush-keeps :
    (a : ReportAggregator) (ts seq : ℕ)
    → length a.buf ≡ k_cap
    → ((flush a ts seq).1.sink ≡ a.sink)
      × ((flush a ts seq).1.drops ≡ a.drops)
      × (length (flush a ts seq).1.buf ≡ k_cap)
unfolding flush
flush-keeps a ts seq room = elim (Bool-cases (not a.sink || leb a.used header_size)) [
  | inl e ↦ rw e (refl, refl, room)
  | inr e ↦
      let payload = a.used - header_size in
      rw e (
        refl,
        refl,
        ap length (write_header-eq-layout a.buf a.task_id ts seq payload (omega (arith, room)))
            ∙ length-layout a.task_id ts seq payload (cut a.buf 4 4) (drop 24 a.buf)
                (length-cut a.buf 4 4 (omega (arith, room)))
            ∙ omega (arith, room, length-drop 24 a.buf),
      )
]

-- One frame, from `Begin` to `Flush`, with a full-size buffer, a sink and at least one slice that
-- fits: it is published as the header followed by exactly the slices that fit, in order; each other
-- slice is in the count of drops, and the buffer keeps its size.
pub publish-IsReport :
    (a : ReportAggregator) (task_id ts seq : ℕ) (ss : List Slice)
    → length a.buf ≡ k_cap
    → a.sink ≡ true
    → 0 < size (accepted header_size ss)
    → let b = add_all (begin a task_id) ss in
      (frame : List ℕ) × ((flush b ts seq).0 ≡ some frame)
      × IsReport task_id ts seq (accepted header_size ss) frame
      × (b.drops % 2 ^ 64 ≡ (a.drops + rejected header_size ss) % 2 ^ 64)
      × (length (flush b ts seq).1.buf ≡ k_cap)
unfolding begin
publish-IsReport a task_id ts seq ss room on full =
    let w = add_all-Added [] (begin a task_id) ss (begin-Holds a task_id room) in
    let (frame, sent, report, _, kept) =
      flush-Holds (add_all (begin a task_id) ss) ts seq (accepted header_size ss) w.holds
        (w.sink ∙ on) full in
    (
      frame,
      sent,
      subst (λ t. IsReport t ts seq (accepted header_size ss) frame) w.task_id report,
      w.drops,
      kept,
    )
