-- ===== src/Infra/RotatingSink.antt =====
-- infrastructure/src/ts_rotating_sink.cpp: the log files. What the file system, the clock and the
-- formatter return are arguments; `opened` counts the files that are open.
pub mod Eviction
use dts_framework.Common.{
  ℕ, zero, suc, ◌+◌, ◌-◌, ◌*◌, ◌%◌, ◌^◌, Bool, true, false, ◌&&◌, not, Option, none, some, List, [],
  ◌∷◌, ◌++◌, ltb, leb, ◌==◌, if◌then◌else◌, length, drop, Text, codes, text_eq, is_nil, to_text,
  starts_with, split_at_text,
}

pub record TsRotatingSink : Type 0 where
  pub dir : Text
  pub name_prefix : Text
  pub ts_fmt : Text
  pub max_size : ℕ
  pub max_total : ℕ
  pub current_path : Text
  pub file : Bool
  pub bytes : ℕ
  pub open_failed : Bool
  pub opened : ℕ

-- The prefix and the time format of a name pattern.
unfoldable pub split_pattern : Text → Text × Text
split_pattern pattern = elim (split_at_text (codes "%") pattern) [
  | none ↦ (pattern, codes "%Y%m%d%H%M%S")
  | some (before, from_percent) ↦ (before, from_percent)
]

-- The first `{}` becomes the name of the thread.
unfoldable pub with_name : Text → Text
with_name prefix = elim (split_at_text (codes "{}") prefix) [
  | none ↦ prefix
  | some (before, from_braces) ↦ before ++ (codes "dts" ++ drop 2 from_braces)
]

unfoldable pub new_sink : Text → Text → ℕ → ℕ → TsRotatingSink
unfolding split_pattern with_name
new_sink dir pattern max_size_mb max_total_mb = record {
  dir = dir;
  name_prefix = with_name (split_pattern pattern).0;
  ts_fmt = (split_pattern pattern).1;
  max_size = (max_size_mb * 1048576) % 2 ^ 64;
  max_total = (max_total_mb * 1048576) % 2 ^ 64;
  current_path = [];
  file = false;
  bytes = 0;
  open_failed = false;
  opened = 0;
}

-- The end of a file's life, in the destructor and before a new file is opened.
unfoldable pub close_file : TsRotatingSink → TsRotatingSink
close_file s = if s.file then record s { file = false; opened = s.opened - 1 } else s

unfoldable pub log_path : TsRotatingSink → Text → ℕ → Text
log_path s ts seq =
    s.dir
    ++ (47
        ∷ (s.name_prefix ++ (ts ++ ((if seq == 0 then [] else 45 ∷ to_text seq) ++ codes ".log"))))

-- The loop over the numbers behind the time, with the rounds left.
unfoldable pub fresh_path : ℕ → TsRotatingSink → Text → ℕ → Text
unfolding log_path
fresh_path zero s ts seq = log_path s ts seq
fresh_path (suc left) s ts seq =
    let more = fresh_path left s ts (suc seq) in
    if text_eq (log_path s ts seq) s.current_path && ltb (suc seq) 1000
    then more
    else log_path s ts seq

-- Whether the directory is there, the time as text (empty where it does not fit), and whether the
-- file opens.
pub record OpenCalls : Type 0 where
  pub dir_ok : Bool
  pub ts : Text
  pub open_ok : Bool

unfoldable pub open_at : Bool → Text → TsRotatingSink → TsRotatingSink
open_at true path s = record s {
  current_path = path;
  file = true;
  bytes = 0;
  opened = suc s.opened;
}
open_at false path s = record s { current_path = []; bytes = 0; open_failed = true }

unfoldable pub open_new_file : OpenCalls → TsRotatingSink → TsRotatingSink
unfolding close_file fresh_path open_at
open_new_file calls s =
    if s.open_failed
    then s
    else if calls.dir_ok
    then open_at calls.open_ok (fresh_path 1000 (close_file s) calls.ts 0) (close_file s)
    else record (close_file s) { open_failed = true }

-- An entry of the directory; `time` is the time of the last write.
pub record Entry : Type 0 where
  pub path : Text
  pub name : Text
  pub regular : Bool
  pub size : ℕ
  pub time : ℕ

-- Whether a name ends in `.log`.
unfoldable pub has_ext : Text → Bool
has_ext name = leb 4 (length name) && text_eq (drop (length name - 4) name) (codes ".log")

unfoldable pub is_ours : TsRotatingSink → Entry → Bool
unfolding has_ext starts_with
is_ours s e = e.regular && (starts_with s.name_prefix e.name && has_ext e.name)

unfoldable pub our_files : TsRotatingSink → List Entry → List Entry
unfolding is_ours
our_files s [] = []
our_files s (e ∷ es) = let rest = our_files s es in if is_ours s e then e ∷ rest else rest

unfoldable pub total_size : List Entry → ℕ
total_size [] = 0
total_size (e ∷ es) = (e.size + total_size es) % 2 ^ 64

abbrev pub is_current : Text → Entry → Bool
is_current current e = not (is_nil current) && text_eq e.path current

-- The comparison: the current file is the last, the others go by their time.
unfoldable pub older : Text → Entry → Entry → Bool
older current a b =
    if is_current current a
    then if is_current current b then ltb a.time b.time else false
    else if is_current current b
    then true
    else ltb a.time b.time

-- `std::min_element` from place `k` on, with the best one so far.
unfoldable pub oldest_from : Text → ℕ → ℕ × Entry → List Entry → ℕ × Entry
unfolding older
oldest_from current k best [] = best
oldest_from current k best (f ∷ fs) =
    oldest_from current (suc k) (if older current f best.1 then (k, f) else best) fs

unfoldable pub remove_at : ℕ → List Entry → List Entry
remove_at i [] = []
remove_at zero (f ∷ fs) = fs
remove_at (suc i) (f ∷ fs) = f ∷ remove_at i fs

-- What the loop leaves: the paths that were removed, the total, and the files not tried.
pub record Evicted : Type 0 where
  pub removed : List Text
  pub total : ℕ
  pub files : List Entry

module _ (removable : Text → Bool) (current : Text) (max_total : ℕ) where
  -- The loop, with the rounds left; each takes one file from the list.
  unfoldable pub evict_loop : ℕ → ℕ → List Entry → Evicted
  unfolding oldest_from remove_at
  evict_loop zero total files = record { removed = []; total = total; files = files }
  evict_loop (suc left) total [] = record { removed = []; total = total; files = [] }
  evict_loop (suc left) total (f ∷ fs) =
      let oldest = oldest_from current 1 (0, f) fs in
      let gone = removable oldest.1.path in
      let rest =
        evict_loop left (if gone then (total + 2 ^ 64 - oldest.1.size) % 2 ^ 64 else total)
          (remove_at oldest.0 (f ∷ fs)) in
      if ltb max_total total && not (is_current current oldest.1)
      then record rest { removed = if gone then oldest.1.path ∷ rest.removed else rest.removed }
      else record { removed = []; total = total; files = f ∷ fs }

-- `EvictOldestIfNeeded`
unfoldable pub evict_oldest : (Text → Bool) → TsRotatingSink → List Entry → Evicted
unfolding our_files total_size evict_loop
evict_oldest removable s entries =
    let files = our_files s entries in
    evict_loop removable s.current_path s.max_total (length files) (total_size files) files

-- `sink_it_` once a file is open; `first` and `next` are the calls of the two `OpenNewFile`, and the
-- directory is listed after the second one. `none` where nothing is evicted.
unfoldable pub write_msg :
    OpenCalls → (Text → Bool) → List Entry → ℕ → TsRotatingSink → TsRotatingSink × Option Evicted
unfolding open_new_file evict_oldest
write_msg next removable entries n s =
    let written = record s { bytes = (s.bytes + n) % 2 ^ 64 } in
    let opened = open_new_file next written in
    if leb s.max_size written.bytes
    then (opened, some (evict_oldest removable opened entries))
    else (written, none)

unfoldable pub sink_it :
    OpenCalls
    → OpenCalls
    → (Text → Bool)
    → List Entry
    → ℕ
    → TsRotatingSink
    → TsRotatingSink × Option Evicted
unfolding write_msg
sink_it first next removable entries n s =
    let ready = if s.file then s else open_new_file first s in
    if ready.file then write_msg next removable entries n ready else (ready, none)
