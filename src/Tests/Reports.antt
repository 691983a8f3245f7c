-- ===== src/Tests/Reports.antt =====
-- Reports of contexts/data/domain/src/report_aggregator.cpp and webserver/src/report_frame.h, at
-- two small slices.
use dts_framework.Common.{
  ℕ, ◌+◌, ◌%◌, ◌^◌, ◌≡◌, refl, true, some, List, [], ◌∷◌, arith, length, length-replicate,
}
use dts_framework.Data.Aggregator.{ReportAggregator, k_cap, new_aggregator, set_sink, begin, flush}
use dts_framework.Data.Aggregator.Frame.{Slice, add_all}
use dts_framework.Data.Aggregator.Accepted.{accepted, rejected}
use dts_framework.Data.Aggregator.Publish.{IsReport, publish-IsReport}
use dts_framework.Web.ReportFrame.{parse_report}
use dts_framework.Web.ReportFrame.RoundTrip.{expected_view, publish-parse}

abbrev opened : ReportAggregator
opened = set_sink new_aggregator true

abbrev two_slices : List Slice
two_slices =
    record { data_id = 3; bytes = 7 ∷ 8 ∷ [] } ∷ record { data_id = 258; bytes = 9 ∷ [] } ∷ []

opened_room : length opened.buf ≡ k_cap
unfolding new_aggregator set_sink
opened_room = length-replicate {A = ℕ} k_cap 0

opened_on : opened.sink ≡ true
unfolding set_sink
opened_on = refl

begin_used : (begin opened 1).used ≡ 24
unfolding begin
begin_used = refl

two_accepted : accepted 24 two_slices ≡ two_slices
unfolding accepted
two_accepted = refl

publish-IsReport_example :
    let b = add_all (begin opened 1) two_slices in
    (frame : List ℕ) × ((flush b 500 1).0 ≡ some frame)
    × IsReport 1 500 1 (accepted 24 two_slices) frame
    × (b.drops % 2 ^ 64 ≡ (opened.drops + rejected 24 two_slices) % 2 ^ 64)
    × (length (flush b 500 1).1.buf ≡ k_cap)
publish-IsReport_example =
    publish-IsReport opened 1 500 1 two_slices opened_room opened_on (rw two_accepted (omega arith))

publish-parse_example :
    (frame : List ℕ) × ((flush (add_all (begin opened 1) two_slices) 500 1).0 ≡ some frame)
    × (parse_report (some frame) (length frame)
        ≡ (true, expected_view 1 500 1 (accepted 24 two_slices)))
publish-parse_example =
    publish-parse opened 1 500 1 two_slices opened_room opened_on (rw two_accepted (omega arith))
      (omega arith) (omega arith) (omega arith) (omega arith, (omega arith, tt))
