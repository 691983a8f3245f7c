-- ===== src/Web/Main/Pushes.antt =====
-- How often webserver/src/main.cpp pushes a frame to the pages.
use dts_framework.Common.{
  ℕ, ◌+◌, ◌≤◌, Bool, Option, none, some, List, [], ◌∷◌, leb, leb→le, Bool-cases, inl, inr, Text,
}
use dts_framework.Web.ReportFrame.{ReportView, parse_report}
use dts_framework.Web.Stats.{on_report}
use dts_framework.Web.Main.{Page, frame_gap, push_frame, on_message}

-- A message of the topic, and the circumstances in which the callback gets it.
pub record Message : Type 0 where
  pub sent : ℕ → Bool
  pub bytes : Option (List ℕ)
  pub len : ℕ
  pub offset : ℕ
  pub sec : ℕ
  pub now : ℕ

abbrev pub on_one : Message → Page → Option Text × Page
on_one m page = on_message m.sent m.bytes m.len m.offset m.sec m.now page

abbrev pub pushed_at : Option Text → ℕ → List ℕ → List ℕ
pushed_at none now times = times
pushed_at (some text) now times = now ∷ times

-- The times at which a run of messages pushes.
abbrev pub push_times : Page → List Message → List ℕ
push_times page [] = []
push_times page (m ∷ ms) = let r = on_one m page in pushed_at r.0 m.now (push_times r.1 ms)

-- Each time, in nanoseconds, is at least 100 ms after the one before it, the first after `last`.
abbrev pub Spaced : ℕ → List ℕ → Type 0
Spaced last [] = Unit {0}
Spaced last (now ∷ times) = (last + frame_gap ≤ now) × Spaced now times

push_frame-Spaced :
    (sent : ℕ → Bool) (v : ReportView) (offset now : ℕ) (page : Page) (times : List ℕ)
    → let r = push_frame sent v offset now page in
      Spaced r.1.last_frame_push times → Spaced page.last_frame_push (pushed_at r.0 now times)
unfolding push_frame
push_frame-Spaced sent v offset now page times =
    elim (Bool-cases (leb (page.last_frame_push + frame_gap) now)) [
      | inl e ↦ rw e (λ h. (leb→le (page.last_frame_push + frame_gap) now e, h))
      | inr e ↦ rw e (λ h. h)
    ]

on_one-Spaced :
    (m : Message) (page : Page) (times : List ℕ)
    → let r = on_one m page in
      Spaced r.1.last_frame_push times → Spaced page.last_frame_push (pushed_at r.0 m.now times)
unfolding on_message
on_one-Spaced m page times = elim (Bool-cases (parse_report m.bytes m.len).0) [
  | inl e ↦ rw e (
      push_frame-Spaced m.sent (parse_report m.bytes m.len).1 m.offset m.now
        (record page { stats = on_report page.stats (parse_report m.bytes m.len).1 m.sec }) times)
  | inr e ↦ rw e (λ h. h)
]

-- Over any run of messages of the topic, the times at which frames are pushed to the pages are at
-- least 100 ms apart, the first one at least 100 ms after the last push before the run.
pub push_times-Spaced :
    (page : Page) (ms : List Message) → Spaced page.last_frame_push (push_times page ms)
push_times-Spaced page [] = tt
push_times-Spaced page (m ∷ ms) =
    on_one-Spaced m page (push_times (on_one m page).1 ms) (push_times-Spaced (on_one m page).1 ms)
