-- ===== src/Data/Registry/Laws.antt =====
-- Registration in contexts/data/domain/src/extractor_registry.cpp.
use dts_framework.Common.{
  ℕ, ◌≡◌, refl, Bool, true, false, Option, none, some, arith, ◌==◌, if◌then◌else◌, lookup,
  lookup-insert, Option-cases, inl, inr,
}
use dts_framework.Data.Registry.{ExtractorSpec, Table, table_key, find, register}

taken :
    (t : Table) (old : ExtractorSpec) (k j : ℕ)
    → lookup k t ≡ some old
    → lookup j t ≡ (if k == j then some old else lookup j t)
taken t old k j e = ground (arith, e)

-- `Register` of a free key succeeds and makes the spec the one that `Find` returns for it, of a
-- taken key fails and keeps the old one, and leaves what `Find` returns for every other key.
pub find-register :
    (t : Table) (s : ExtractorSpec) (data_type data_id : ℕ)
    → let r = register t s in
      (r.0 ≡ (elim (find t s.data_type s.data_id) as (λ _. Bool) [ none ↦ true | some _ ↦ false ]))
      × (find r.1 data_type data_id ≡ (
          if table_key s.data_type s.data_id == table_key data_type data_id
          then (elim (find t s.data_type s.data_id) as (λ _. Option ExtractorSpec) [
            | none ↦ some s
            | some old ↦ some old
          ])
          else find t data_type data_id))
unfolding find register
find-register t s data_type data_id =
    elim (Option-cases (lookup (table_key s.data_type s.data_id) t)) [
      | inl e ↦
          rw
            (
              e,
              register,
              find,
              lookup-insert (table_key s.data_type s.data_id) (table_key data_type data_id) s t,
            )
            (refl, refl)
      | inr (old, e) ↦
          rw (e, register, find)
            (refl, taken t old (table_key s.data_type s.data_id) (table_key data_type data_id) e)
    ]
