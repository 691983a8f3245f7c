-- ===== src/Common/Sets.antt =====
-- Sets of numbers as lists: `std::unordered_set` up to its order.
use Prim.Native.Nat.{ℕ}
use mathlib.Core.Path.{◌≡◌, refl, ap, ◌∙◌, sym}
use mathlib.Core.Logic.{inl, inr}
use mathlib.Core.Bool.{Bool, true, false, ◌||◌}
use mathlib.Core.List.{List, [], ◌∷◌, ◌++◌}
use dts_framework.Common.Tests.{◌==◌, ==_refl, ==_iff, if◌then◌else◌, Bool-cases}

unfoldable pub contains : ℕ → List ℕ → Bool
contains i [] = false
contains i (j ∷ js) = (j == i) || contains i js

-- The insertion of an element that may be there.
unfoldable pub add_member : ℕ → List ℕ → List ℕ
unfolding contains
add_member i js = if contains i js then js else i ∷ js

pub contains-append :
    (i : ℕ) (xs ys : List ℕ) → contains i (xs ++ ys) ≡ (contains i xs || contains i ys)
unfolding contains
contains-append i [] ys = refl
contains-append i (x ∷ xs) ys = elim (Bool-cases (x == i)) [
  | inl e ↦ rw e
  | inr e ↦ rw e (contains-append i xs ys)
]

pub contains-last : (xs : List ℕ) (i : ℕ) → contains i (xs ++ i ∷ []) ≡ true
unfolding contains
contains-last [] i = rw (==_refl i)
contains-last (x ∷ xs) i = elim (Bool-cases (x == i)) [
  | inl e ↦ rw e
  | inr e ↦ rw e (contains-last xs i)
]

pub contains-add_member :
    (i k : ℕ) (js : List ℕ) → contains k (add_member i js) ≡ ((i == k) || contains k js)
unfolding contains add_member
contains-add_member i k js = elim (Bool-cases (contains i js)) [
  | inr e ↦ rw e
  | inl e ↦ elim (Bool-cases (i == k)) [
    | inr f ↦ rw (e, f)
    | inl f ↦ rw (e, f) (ap (λ n. contains n js) (sym ((==_iff i k).0 f)) ∙ e)
  ]
]
