-- ===== src/Common/Strings.antt =====
-- Text as the list of its characters: `std::string`, and what the source asks of it.
use Prim.Native.Nat.{ℕ, zero, suc, ◌+◌, ◌/◌, ◌%◌}
use Prim.Native.Char.{code}
use Prim.Native.String.{String}
use mathlib.Core.Path.{◌≡◌, refl}
use mathlib.Core.Bool.{Bool, true, false, ◌&&◌}
use mathlib.Core.List.{List, [], ◌∷◌}
use mathlib.Core.Option.{Option, none, some}
use dts_framework.Common.Tests.{◌==◌, leb, ltb, if◌then◌else◌, ==_refl}

abbrev pub Text : Type 0
Text = List ℕ

-- The characters of a literal.
abbrev pub codes : String → Text
codes String.[] = []
codes (String.◌∷◌ c rest) = code c ∷ codes rest

unfoldable pub text_eq : Text → Text → Bool
text_eq [] [] = true
text_eq [] (d ∷ ds) = false
text_eq (c ∷ cs) [] = false
text_eq (c ∷ cs) (d ∷ ds) = let rest = text_eq cs ds in if c == d then rest else false

pub text_eq_refl : (cs : Text) → text_eq cs cs ≡ true
unfolding text_eq
text_eq_refl [] = refl
text_eq_refl (c ∷ cs) = rw (==_refl c) (text_eq_refl cs)

-- What `c_str` shows of a text: all before the first character 0.
unfoldable pub c_str : Text → Text
c_str [] = []
c_str (c ∷ cs) = let rest = c_str cs in if c == 0 then [] else c ∷ rest

abbrev pub is_nil {ℓ} : {A : Type ℓ} → List A → Bool
is_nil [] = true
is_nil (x ∷ xs) = false

unfoldable pub starts_with : Text → Text → Bool
starts_with [] cs = true
starts_with (p ∷ ps) [] = false
starts_with (p ∷ ps) (c ∷ cs) = (p == c) && starts_with ps cs

-- The text before the first occurrence of `pat`, and the text from it on.
unfoldable pub split_at_text : Text → Text → Option (Text × Text)
split_at_text pat [] = if is_nil pat then some ([], []) else none
split_at_text pat (c ∷ cs) =
    let rest = split_at_text pat cs in
    if starts_with pat (c ∷ cs)
    then some ([], c ∷ cs)
    else elim rest [ none ↦ none | some (a, b) ↦ some (c ∷ a, b) ]

-- The same at the last occurrence.
unfoldable pub split_at_last : Text → Text → Option (Text × Text)
split_at_last pat [] = if is_nil pat then some ([], []) else none
split_at_last pat (c ∷ cs) = elim (split_at_last pat cs) [
  | some (a, b) ↦ some (c ∷ a, b)
  | none ↦ if starts_with pat (c ∷ cs) then some ([], c ∷ cs) else none
]

-- The decimal digits, with the rounds left; 20 are enough for 64 bits.
unfoldable pub digits_from : ℕ → ℕ → Text → Text
digits_from zero n out = out
digits_from (suc left) n out =
    if ltb n 10 then (b'0' + n) ∷ out else digits_from left (n / 10) ((b'0' + n % 10) ∷ out)

unfoldable pub to_text : ℕ → Text
to_text n = digits_from 20 n []

abbrev pub is_digit : ℕ → Bool
is_digit c = leb b'0' c && leb c b'9'
