-- ===== src/Web/Stats/Runs.antt =====
-- Runs of reports through webserver/src/stats.h.
use dts_framework.Common.{
  ℕ, ◌+◌, ◌%◌, ◌^◌, ◌≡◌, refl, ap, ◌∙◌, true, List, [], ◌∷◌, arith, length, ==_refl,
}
use dts_framework.Web.ReportFrame.{ReportView}
use dts_framework.Web.Stats.{Stats, on_report, on_reports}

-- Each report has the sequence number after the one before it, the first the one after `last`.
abbrev pub Consecutive : ℕ → List (ReportView × ℕ) → Type 0
Consecutive last [] = Unit {0}
Consecutive last ((v, now) ∷ vs) = (v.seq ≡ (last + 1) % 2 ^ 32) × Consecutive v.seq vs

-- Once a report has arrived, a run of reports with consecutive sequence numbers modulo 2^32 counts
-- no gap, and each of them in the total modulo 2^64.
pub on_reports-Consecutive :
    (s : Stats) (vs : List (ReportView × ℕ))
    → s.has_last_seq ≡ true
    → Consecutive s.last_seq vs
    → ((on_reports s vs).gaps ≡ s.gaps)
      × ((on_reports s vs).total_frames % 2 ^ 64 ≡ (s.total_frames + length vs) % 2 ^ 64)
unfolding on_reports on_report
on_reports-Consecutive s [] on h = (refl, ap (λ n. n % 2 ^ 64) (omega arith))
on_reports-Consecutive s ((v, now) ∷ vs) on (e, h) =
    let (g, t) = on_reports-Consecutive (on_report s v now) vs refl h in
    (g ∙ rw (on, e, ==_refl ((s.last_seq + 1) % 2 ^ 32)) refl, t ∙ omega arith)
