-- ===== src/Common/Bytes.antt =====
-- Little-endian fields of a byte buffer, as `memcpy` of an integer writes and reads them.
use Prim.Native.Nat.{ℕ, zero, suc, ◌+◌, ◌*◌, ◌/◌, ◌%◌, ◌^◌, ◌<◌}
use mathlib.Core.Path.{◌≡◌, refl, ap, ◌∙◌, sym}
use mathlib.Core.List.{List, [], ◌∷◌, ◌++◌}
use native.Mathlib.Omega.{arith}
use dts_framework.Common.Lists.{length, take, drop, take_at, drop_at, drop-drop}

-- `n` bytes of `v`, the lowest first.
unfoldable pub to_le : ℕ → ℕ → List ℕ
to_le zero v = []
to_le (suc n) v = (v % 256) ∷ to_le n (v / 256)

unfoldable pub from_le : List ℕ → ℕ
from_le [] = 0
from_le (b ∷ bs) = b + 256 * from_le bs

-- The integer of `n` bytes at `off`.
unfoldable pub read_le : List ℕ → ℕ → ℕ → ℕ
unfolding from_le
read_le data_bytes off n = from_le (take n (drop off data_bytes))

pub length-to_le : (n v : ℕ) → length (to_le n v) ≡ n
unfolding to_le
length-to_le zero v = refl
length-to_le (suc n) v = ap suc (length-to_le n (v / 256))

pub from_le_two : (v : ℕ) → v < 2 ^ 16 → from_le (to_le 2 v) ≡ v
unfolding to_le from_le
from_le_two v h = omega arith

pub from_le_four : (v : ℕ) → v < 2 ^ 32 → from_le (to_le 4 v) ≡ v
unfolding to_le from_le
from_le_four v h = omega arith

pub from_le_eight : (v : ℕ) → v < 2 ^ 64 → from_le (to_le 8 v) ≡ v
unfolding to_le from_le
from_le_eight v h = omega arith

-- A field that stands at `off`: what is read there, and where the next one stands.
module _ (xs : List ℕ) (off n v : ℕ) (rest : List ℕ) (here : drop off xs ≡ to_le n v ++ rest) where
  pub read_le_here : read_le xs off n ≡ from_le (to_le n v)
  unfolding read_le
  read_le_here = rw (here, take_at n (to_le n v) rest (sym (length-to_le n v)))

  pub drop_after : drop (off + n) xs ≡ rest
  drop_after =
      sym (drop-drop off n xs)
      ∙ ap (drop n) here
      ∙ drop_at n (to_le n v) rest (sym (length-to_le n v))
