-- ===== src/Data/Factory/Gap.antt =====
-- The sequence number of contexts/data/domain/src/data_factory_v2.cpp.
use dts_framework.Common.{
  &&-true, ℕ, ◌+◌, ◌%◌, ◌^◌, ◌≡◌, ◌≢◌, refl, Bool, true, false, Option, none, some, List, [], ◌∷◌,
  arith, ltb, ap, not, ◌∙◌, subst, if◌then◌else◌, ◌&&◌, inr, ==_ne, Option-cases, inl,
}
use dts_framework.Data.Ids.{period_1s}
use dts_framework.Data.Aggregator
use dts_framework.Data.Aggregator.Publish.{flush-none}
use dts_framework.Data.Factory.{
  bypass_full, DataFactory, World, inc64, inc32, extract_raw_key, Pass, count_key, publish_pass,
  process_block, process_frame, process, visit, visit_all, in_block, in_fixed,
}
use dts_framework.Data.Mem
use dts_framework.Data.Mem.{Block, DataMemManager}
use dts_framework.Data.Registry.{Table, ExtractorSpec, CellSlice, extra, of_domain}

-- The slice, if there is one, ends beyond `len`.
unfoldable pub is_short : ℕ → Option CellSlice → Bool
is_short len none = true
is_short len (some c) = ltb len ((c.offset + c.size) % 2 ^ 32)

unfoldable pub all_short : ℕ → List ExtractorSpec → Bool
all_short len [] = true
all_short len (s ∷ ss) = is_short len s.proc && all_short len ss

if-same : {A : Type 0} (b : Bool) (x : A) → (if b then x else x) ≡ x
if-same true x = refl
if-same false x = refl

extra_short :
    (c : CellSlice) (raw : Option (List ℕ)) (len : ℕ)
    → ltb len ((c.offset + c.size) % 2 ^ 32) ≡ true
    → extra c raw len ≡ none
unfolding extra
extra_short c none len h = refl
extra_short c (some raw) len h = rw h

in_block-none :
    (b : Block) (p : Pass) (s : ExtractorSpec) (o : Option ℕ) → in_block b p s o none ≡ p
unfolding in_block
in_block-none b p s none = refl
in_block-none b p s (some o) = refl

in_fixed-none : (p : Pass) (s : ExtractorSpec) (o : Option (List ℕ)) → in_fixed p s o none ≡ p
unfolding in_fixed
in_fixed-none p s none = refl
in_fixed-none p s (some o) = refl

pub visit_short :
    (b : Block) (raw : Option (List ℕ)) (len : ℕ) (p : Pass) (s : ExtractorSpec)
    → is_short len s.proc ≡ true
    → visit b raw len p s ≡ p
unfolding visit is_short
visit_short b raw len p s h = elim (Option-cases s.proc) [
  | inl e ↦ rw e
  | inr (c, e) ↦
      let hc : extra c raw len ≡ none =
        extra_short c raw len (subst (λ o. is_short len o ≡ true) e h) in
      rw (e, hc, in_block-none b p s, in_fixed-none p s) (if-same s.need_cache p)
]

visit_all_short :
    (b : Block) (raw : Option (List ℕ)) (len : ℕ) (p : Pass) (ss : List ExtractorSpec)
    → all_short len ss ≡ true
    → visit_all b raw len p ss ≡ p
unfolding visit_all all_short
visit_all_short b raw len p [] h = refl
visit_all_short b raw len p (s ∷ ss) h =
    let (hs, hss) = &&-true (is_short len s.proc) (all_short len ss) h in
    ap (λ q. visit_all b raw len q ss) (visit_short b raw len p s hs)
    ∙ visit_all_short b raw len p ss hss

acquired :
    (order : Table → Table) (raw : Option (List ℕ)) (len data_type us : ℕ) (w : World)
    (f : DataFactory) (r : Option Block × DataMemManager) (b : Block)
    → all_short len (of_domain data_type (order w.table)) ≡ true
    → r.0 ≡ some b
    → let (out, w') = process_block bypass_full order raw len data_type us w f r in
      (out ≡ none) × (w'.factory.seq ≡ inc32 f.seq)
unfolding process_block publish_pass Aggregator.begin
acquired order raw len data_type us w f (some b', mem) b h e = (
  rw
      (visit_all_short b' raw len
        (record {
          mem = mem;
          agg = Aggregator.begin f.agg f.current_task;
          count = f.for_each_total;
        })
        (of_domain data_type (order w.table)) h)
      (ap (λ o. o.0) (flush-none (Aggregator.begin f.agg f.current_task) _ _ (inr (omega arith)))),
  refl,
)
acquired order raw len data_type us w f (none, mem) b h e = absurd (cc)

count_key-seq : (f : DataFactory) (key : ℕ) → (count_key f key).seq ≡ f.seq
unfolding count_key
count_key-seq f key = ground arith

-- In the full mode with a sink and a task, a frame that gets its block but is too short for every
-- slice of its data type is not published, and takes a sequence number all the same.
pub process_gap :
    (order : Table → Table) (w : World) (raw : Option (List ℕ)) (len data_type us : ℕ) (b : Block)
    → w.factory.sink ≡ true
    → w.factory.current_task ≢ 0
    → all_short len (of_domain data_type (order w.table)) ≡ true
    → (Mem.acquire_block w.mem data_type period_1s
        (extract_raw_key data_type raw len)
        w.factory.tick).0
      ≡ some b
    → let (out, w') = process bypass_full order w raw len data_type us in
      (out ≡ none) × (w'.factory.seq ≡ inc32 w.factory.seq)
unfolding process process_frame
process_gap order w raw len data_type us b sink task short got =
    let w' = record w { factory = record w.factory { proc_count = inc64 w.factory.proc_count } } in
    let key = extract_raw_key data_type raw len in
    let (out, seq) =
      acquired order raw len data_type us w' (count_key w'.factory key)
        (Mem.acquire_block w.mem data_type period_1s key w.factory.tick) b short got in
    rw
      ((let e : not w.factory.sink ≡ false = ap not sink in e), ==_ne w.factory.current_task 0 task)
      (out, seq ∙ ap inc32 (count_key-seq w'.factory key))
