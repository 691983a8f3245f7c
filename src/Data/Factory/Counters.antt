-- ===== src/Data/Factory/Counters.antt =====
-- The counters of contexts/data/domain/src/data_factory_v2.cpp.
use dts_framework.Common.{
  ℕ, ◌+◌, ◌%◌, ◌^◌, ◌≡◌, refl, Option, none, some, List, arith, Bool-cases, ap, ◌∙◌, sym, not, ◌==◌,
  inl, inr,
}
use dts_framework.Data.Factory.{
  bypass_full, DataFactory, World, inc64, extract_raw_key, count_frame, count_key, publish_pass,
  process_block, process_frame, process,
}
use dts_framework.Data.Mem.{Block, DataMemManager}
use dts_framework.Data.Registry.{Table}

-- A frame that reached `Process` went to one of four ends. The sum of their counts, modulo the
-- width of the counters.
unfoldable pub accounted : DataFactory → ℕ
accounted f = (f.skip_sink + f.skip_task + f.stats.drop_pool_full + f.stats.frames) % 2 ^ 64

count_frame-frames : (f : DataFactory) (us : ℕ) → (count_frame f us).frames ≡ inc64 f.stats.frames
unfolding count_frame
count_frame-frames f us = ground arith

count_frame-drop :
    (f : DataFactory) (us : ℕ) → (count_frame f us).drop_pool_full ≡ f.stats.drop_pool_full
unfolding count_frame
count_frame-drop f us = ground arith

count_key-accounted : (f : DataFactory) (key : ℕ) → accounted (count_key f key) ≡ accounted f
unfolding count_key accounted
count_key-accounted f key = ground arith

count_key-proc_count : (f : DataFactory) (key : ℕ) → (count_key f key).proc_count ≡ f.proc_count
unfolding count_key
count_key-proc_count f key = ground arith

-- `g` is `f` after one more frame that `Process` was through with.
unfoldable Next : DataFactory → DataFactory → Type 0
Next f g = (accounted g ≡ inc64 (accounted f)) × (g.proc_count ≡ f.proc_count)

block-Next :
    (order : Table → Table) (raw : Option (List ℕ)) (len data_type us : ℕ) (w : World)
    (f : DataFactory) (b : Option Block × DataMemManager)
    → Next f (process_block bypass_full order raw len data_type us w f b).1.factory
unfolding process_block publish_pass accounted Next
block-Next order raw len data_type us w f (none, mem) = (omega arith, refl)
block-Next order raw len data_type us w f (some b, mem) =
    (omega (arith, count_frame-frames f us, count_frame-drop f us), refl)

Next-count_key : (f g : DataFactory) (key : ℕ) → Next (count_key f key) g → Next f g
unfolding Next
Next-count_key f g key (h, h') =
    (h ∙ ap inc64 (count_key-accounted f key), h' ∙ count_key-proc_count f key)

skip_sink-Next : (f : DataFactory) → Next f (record f { skip_sink = inc64 f.skip_sink })
unfolding Next accounted
skip_sink-Next f = (omega arith, refl)

skip_task-Next : (f : DataFactory) → Next f (record f { skip_task = inc64 f.skip_task })
unfolding Next accounted
skip_task-Next f = (omega arith, refl)

frame-Next :
    (order : Table → Table) (w : World) (raw : Option (List ℕ)) (len data_type us : ℕ)
    → Next w.factory (process_frame bypass_full order w raw len data_type us).1.factory
unfolding process_frame
frame-Next order w raw len data_type us = elim (Bool-cases (not w.factory.sink)) [
  | inl e ↦ rw e (skip_sink-Next w.factory)
  | inr e ↦ rw e (elim (Bool-cases (w.factory.current_task == 0)) [
    | inl z ↦ rw z (skip_task-Next w.factory)
    | inr z ↦ rw z (
        Next-count_key w.factory _ (extract_raw_key data_type raw len)
          (block-Next order raw len data_type us w _ _))
  ])
]

-- In the full mode, a `Process` whose counters agree beforehand, the number of calls with the sum
-- of the four ends (no sink, no task, pool full, frame done) modulo 2^64, leaves them in agreement
-- and counts one call more.
pub process-accounted :
    (order : Table → Table) (w : World) (raw : Option (List ℕ)) (len data_type us : ℕ)
    → accounted w.factory ≡ w.factory.proc_count
    → let w' = (process bypass_full order w raw len data_type us).1 in
      (accounted w'.factory ≡ w'.factory.proc_count)
      × (w'.factory.proc_count ≡ inc64 w.factory.proc_count)
unfolding process Next accounted
process-accounted order w raw len data_type us h =
    let w' = record w { factory = record w.factory { proc_count = inc64 w.factory.proc_count } } in
    let (a, c) = frame-Next order w' raw len data_type us in (a ∙ ap inc64 h ∙ sym c, c)
