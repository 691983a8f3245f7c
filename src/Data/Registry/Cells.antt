-- ===== src/Data/Registry/Cells.antt =====
-- What `InitExtractors` registers, and the orders in which `ForEachByDomain` may meet it.
use mathlib.Core.List.{Permᴰ}
use mathlib.Core.List.Permᴰ
use dts_framework.Common.{
  ◌+◌, ◌≤◌, arith, ℕ, zero, suc, ◌<◌, ◌≡◌, refl, sym, subst, true, false, some, List, [], ◌∷◌,
  lookup, insert, ◌==◌, if◌then◌else◌, Bool,
}
use dts_framework.Data.Ids.{cell, cell_raw_offset, spec_of, data_id_count}
use dts_framework.Data.Registry.{
  init_extractors, init_extractors_from, ExtractorSpec, Table, register, of_domain,
}

-- The extractor of one data id, and of a range of them.
abbrev pub cell_extractor : ℕ → ExtractorSpec
cell_extractor i = record {
  data_id = i;
  data_type = cell;
  cache_size = (spec_of i).cache_size;
  period_ticks = 10;
  need_cache = true;
  proc = some (record { offset = cell_raw_offset i; size = (spec_of i).cache_size });
}

abbrev pub cell_extractors : ℕ → ℕ → List ExtractorSpec
cell_extractors zero i = []
cell_extractors (suc left) i = cell_extractor i ∷ cell_extractors left (suc i)

-- `InitExtractors` on an empty table registers one extractor for each data id.
pub init_extractors-cells : of_domain cell (init_extractors []) ≡ cell_extractors 500 1
unfolding init_extractors of_domain register init_extractors_from spec_of lookup insert
init_extractors-cells = refl

keep-cons :
    (b : Bool) (s : ExtractorSpec) (xs ys : List ExtractorSpec)
    → Permᴰ xs ys
    → Permᴰ (if b then s ∷ xs else xs) (if b then s ∷ ys else ys)
keep-cons true s xs ys p = Permᴰ.cons refl p
keep-cons false s xs ys p = p

keep-swap :
    (b c : Bool) (s r : ExtractorSpec) (xs : List ExtractorSpec)
    → Permᴰ
        (let rest = if c then r ∷ xs else xs in if b then s ∷ rest else rest)
        (let rest = if b then s ∷ xs else xs in if c then r ∷ rest else rest)
keep-swap true true s r xs = Permᴰ.swap refl refl
keep-swap true false s r xs = Permᴰ.refl (s ∷ xs)
keep-swap false true s r xs = Permᴰ.refl (r ∷ xs)
keep-swap false false s r xs = Permᴰ.refl xs

-- Another order of the table gives another order of its extractors.
pub of_domain-Permᴰ :
    (data_type : ℕ) (t u : Table)
    → Permᴰ t u
    → Permᴰ (of_domain data_type t) (of_domain data_type u)
unfolding of_domain
of_domain-Permᴰ data_type _ _ Permᴰ.nil = Permᴰ.nil
of_domain-Permᴰ data_type _ _ (Permᴰ.cons {a = a} {b = b} {l₁ = t} {l₂ = u} e p) =
    subst (λ y. Permᴰ (of_domain data_type (a ∷ t)) (of_domain data_type (y ∷ u))) e
      (keep-cons (a.1.data_type == data_type) a.1 (of_domain data_type t) (of_domain data_type u)
        (of_domain-Permᴰ data_type t u p))
of_domain-Permᴰ data_type _ _ (Permᴰ.swap {a = a} {b = b} {b' = last} {l = l} e f) =
    subst (λ y. Permᴰ (of_domain data_type (a ∷ b ∷ l)) (of_domain data_type (y ∷ last ∷ l))) f
      (subst (λ y. Permᴰ (of_domain data_type (a ∷ b ∷ l)) (of_domain data_type (b ∷ y ∷ l))) e
        (keep-swap (a.1.data_type == data_type) (b.1.data_type == data_type) a.1 b.1
          (of_domain data_type l)))
of_domain-Permᴰ data_type _ _ (Permᴰ.trans {l₂ = m} p q) =
    Permᴰ.trans (of_domain-Permᴰ data_type _ m p) (of_domain-Permᴰ data_type m _ q)

-- An extractor that `InitExtractors` registers.
abbrev pub IsCell : ExtractorSpec → Type 0
IsCell s = (d : ℕ) × (d < data_id_count) × (s ≡ cell_extractor (suc d))

abbrev pub AllCell : List ExtractorSpec → Type 0
AllCell [] = Unit {0}
AllCell (s ∷ ss) = IsCell s × AllCell ss

pub AllCell-Permᴰ : {ss rs : List ExtractorSpec} → Permᴰ ss rs → AllCell rs → AllCell ss
AllCell-Permᴰ Permᴰ.nil h = tt
AllCell-Permᴰ (Permᴰ.cons e p) (h, hs) = (subst IsCell (sym e) h, AllCell-Permᴰ p hs)
AllCell-Permᴰ (Permᴰ.swap e f) (h, (k, hs)) = (subst IsCell (sym e) k, (subst IsCell (sym f) h, hs))
AllCell-Permᴰ (Permᴰ.trans p q) h = AllCell-Permᴰ p (AllCell-Permᴰ q h)

pub cell_extractors-AllCell :
    (left d : ℕ) → d + left ≤ data_id_count → AllCell (cell_extractors left (suc d))
cell_extractors-AllCell zero d h = tt
cell_extractors-AllCell (suc left) d h =
    ((d, omega arith, refl), cell_extractors-AllCell left (suc d) (omega arith))
