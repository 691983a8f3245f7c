-- ===== src/Web/Stats.antt =====
-- webserver/src/stats.h: the counters and the buckets of one second of `Stats`. The clock is an
-- argument, after 1970. How `snprintf` prints the two rates, floating-point numbers that are made from
-- the sums of the window, is an argument of the JSON text.
pub mod Runs
use dts_framework.Common.{
  Text, codes, to_text, take, ◌++◌, ℕ, zero, suc, ltb, leb, ◌-◌, ◌*◌, ◌+◌, ◌%◌, ◌^◌, Bool, true,
  ◌&&◌, not, List, [], ◌∷◌, ◌==◌, if◌then◌else◌, get_or, set,
}
use dts_framework.Web.ReportFrame.{ReportView}

abbrev pub k_window : ℕ
k_window = 60

pub record SecBucket : Type 0 where
  pub sec : ℕ
  pub frames : ℕ
  pub bytes : ℕ

pub record Stats : Type 0 where
  pub total_frames : ℕ
  pub total_bytes : ℕ
  pub gaps : ℕ
  pub last_seq : ℕ
  pub last_task_id : ℕ
  pub has_last_seq : Bool
  pub buckets : List SecBucket

abbrev pub bucket_at : List SecBucket → ℕ → SecBucket
bucket_at bs now = get_or bs (now % k_window) (record { sec = 0; frames = 0; bytes = 0 })

unfoldable pub roll_to : List SecBucket → ℕ → List SecBucket
roll_to bs now =
    if (bucket_at bs now).sec == now
    then bs
    else set bs (now % k_window) (record { sec = now; frames = 0; bytes = 0 })

unfoldable pub add_bucket : List SecBucket → ℕ → ℕ → List SecBucket
add_bucket bs bytes now =
    let rolled = roll_to bs now in
    let b = bucket_at rolled now in
    set rolled (now % k_window)
      (record b { frames = (b.frames + 1) % 2 ^ 64; bytes = (b.bytes + bytes) % 2 ^ 64 })

unfoldable pub on_report : Stats → ReportView → ℕ → Stats
on_report s v now = record {
  total_frames = (s.total_frames + 1) % 2 ^ 64;
  total_bytes = (s.total_bytes + v.frame_len) % 2 ^ 64;
  gaps =
      if s.has_last_seq && not (v.seq == (s.last_seq + 1) % 2 ^ 32)
      then (s.gaps + 1) % 2 ^ 64
      else s.gaps;
  last_seq = v.seq;
  last_task_id = v.task_id;
  has_last_seq = true;
  buckets = add_bucket s.buckets v.frame_len now;
}

-- Reports with the second that each arrives in.
unfoldable pub on_reports : Stats → List (ReportView × ℕ) → Stats
on_reports s [] = s
on_reports s ((v, now) ∷ vs) = on_reports (on_report s v now) vs

-- The loop of `SnapshotJson` over the seconds before `now`, with the rounds left; the two sums are
-- exact, as those of the source are below 2^53.
unfoldable pub window_sums : ℕ → List SecBucket → ℕ → ℕ × ℕ → ℕ × ℕ
window_sums zero bs now sums = sums
window_sums (suc left) bs now sums =
    let b =
      get_or bs ((now - suc left + k_window * 4) % k_window)
        (record { sec = 0; frames = 0; bytes = 0 }) in
    window_sums left bs now (
      if ltb 0 b.sec && leb now (b.sec + k_window)
      then (sums.0 + b.frames, sums.1 + b.bytes)
      else sums)

-- The snapshot up to the division by 5: the statistics after `RollTo`, and the sums.
unfoldable pub snapshot : Stats → ℕ → Stats × (ℕ × ℕ)
unfolding window_sums roll_to
snapshot s now =
    let rolled = roll_to s.buckets now in
    (record s { buckets = rolled }, window_sums k_window rolled now (0, 0))

abbrev json_field : Text → Text → Text
json_field key value = 34 ∷ (key ++ (34 ∷ (58 ∷ value)))

-- `SnapshotJson`, in a buffer of 512 bytes, the last one for the terminator.
unfoldable pub snapshot_json : (ℕ → Text) → (ℕ → Text) → Stats → ℕ → Text × Stats
unfolding snapshot to_text
snapshot_json fps_text mbps_text s now =
    let r = snapshot s now in
    (
      take 511 (
          123
          ∷ (json_field (codes "total_frames") (to_text s.total_frames)
              ++ (44
                  ∷ (json_field (codes "total_bytes") (to_text s.total_bytes)
                      ++ (44
                          ∷ (json_field (codes "gaps") (to_text s.gaps)
                              ++ (44
                                  ∷ (json_field (codes "last_seq") (to_text s.last_seq)
                                      ++ (44
                                          ∷ (json_field (codes "last_task") (to_text s.last_task_id)
                                              ++ (44
                                                  ∷ (json_field (codes "fps_5s") (fps_text r.1.0)
                                                      ++ (44
                                                          ∷ (json_field (codes "mbps_5s")
                                                            (mbps_text r.1.1)
                                                            ++ 125 ∷ [])))))))))))))),
      r.0,
    )
