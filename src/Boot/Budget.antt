-- ===== src/Boot/Budget.antt =====
-- `CmdSetDataBudget` of bootstrap/src/run.cpp on numbers as they are printed.
use dts_framework.Common.{
  ℕ, zero, suc, ◌+◌, ◌-◌, ◌*◌, ◌/◌, ◌%◌, ◌^◌, ◌≤◌, ◌<◌, ◌≡◌, refl, ap, ◌∙◌, Bool, true, false, ◌&&◌,
  List, [], ◌∷◌, arith, ltb, leb, ◌==◌, ==_ne, le→leb, lt→ltb, min, Text, c_str, to_text,
  digits_from, is_digit, Bool-cases, inl, inr, &&-true, ltb→lt, leb→le, ltb-false,
}
use dts_framework.Infra.Ctl.{is_space}
use dts_framework.Data.Factory.{DataFactory, set_budget}
use dts_framework.Boot.Commands.{
  digits_value, skip_spaces, signed_value, strtoull, budget_set, cmd_set_data_budget,
}

unfoldable all_digits : Text → Bool
all_digits [] = true
all_digits (c ∷ cs) = is_digit c && all_digits cs

digit-is_digit : (d : ℕ) → d < 10 → is_digit (48 + d) ≡ true
digit-is_digit d h = rw (le→leb 48 (48 + d) (omega arith), le→leb (48 + d) 57 (omega arith))

digits_from-all_digits :
    (left n : ℕ) (out : Text) → all_digits out ≡ true → all_digits (digits_from left n out) ≡ true
unfolding digits_from all_digits
digits_from-all_digits zero n out h = h
digits_from-all_digits (suc left) n out h = elim (Bool-cases (ltb n 10)) [
  | inl e ↦ rw (e, digit-is_digit n (ltb→lt n 10 e)) h
  | inr e ↦ rw e (
      digits_from-all_digits left (n / 10) ((48 + n % 10) ∷ out)
        (rw (digit-is_digit (n % 10) (omega arith)) h))
]

-- One more digit in front of the text.
digits_value-digit :
    (acc d : ℕ) (out : Text)
    → d < 10
    → digits_value acc ((48 + d) ∷ out) ≡ digits_value (acc * 10 + d) out
unfolding digits_value
digits_value-digit acc d out h =
    let same : acc * 10 + (48 + d - 48) ≡ acc * 10 + d = omega arith in
    rw (digit-is_digit d h) (ap (λ m. digits_value m out) same)

digits_value_first :
    (n : ℕ) (out : Text) → n < 10 → digits_value 0 ((48 + n) ∷ out) ≡ digits_value n out
digits_value_first n out h =
    let same : 0 * 10 + n ≡ n = omega arith in
    digits_value-digit 0 n out h ∙ ap (λ m. digits_value m out) same

-- Reading the digits that were printed in front of `out` gives the number.
digits_value-digits_from :
    (left n : ℕ) (out : Text)
    → n < 10 ^ suc left
    → digits_value 0 (digits_from (suc left) n out) ≡ digits_value n out
unfolding digits_from
digits_value-digits_from zero n out h =
    rw (lt→ltb n 10 (omega arith)) (digits_value_first n out (omega arith))
digits_value-digits_from (suc left) n out h = elim (Bool-cases (ltb n 10)) [
  | inl e ↦ rw e (digits_value_first n out (ltb→lt n 10 e))
  | inr e ↦
      let step : 10 ^ suc (suc left) ≡ 10 * 10 ^ suc left = omega arith in
      let whole : n / 10 * 10 + n % 10 ≡ n = omega arith in
      rw e (
        digits_value-digits_from left (n / 10) ((48 + n % 10) ∷ out) (omega (arith, step, h))
        ∙ digits_value-digit (n / 10) (n % 10) out (omega arith)
        ∙ ap (λ m. digits_value m out) whole)
]

-- A digit ends nothing, and is no sign.
digit_plain :
    (c : ℕ)
    → is_digit c ≡ true
    → ((c == 0) ≡ false) × (is_space c ≡ false) × ((c == 45) ≡ false) × ((c == 43) ≡ false)
digit_plain c h =
    let (low, high) = &&-true (leb 48 c) (leb c 57) h in
    let from : 48 ≤ c = leb→le 48 c low in
    let to : c ≤ 57 = leb→le c 57 high in
    let no : (n : ℕ) → n < 48 → (c == n) ≡ false = λ n lt. ==_ne c n (λ e. omega arith) in
    (
      no 0 (omega arith),
      rw (
        no 32 (omega arith),
        no 9 (omega arith),
        no 13 (omega arith),
        no 10 (omega arith),
        no 11 (omega arith),
        no 12 (omega arith),
      ),
      no 45 (omega arith),
      no 43 (omega arith),
    )

c_str_digits : (cs : Text) → all_digits cs ≡ true → c_str cs ≡ cs
unfolding all_digits c_str
c_str_digits [] h = refl
c_str_digits (c ∷ cs) h =
    let (first, rest) = &&-true (is_digit c) (all_digits cs) h in
    rw ((digit_plain c first).0, c_str_digits cs rest)

skip_spaces_digits : (cs : Text) → all_digits cs ≡ true → skip_spaces cs ≡ cs
unfolding all_digits skip_spaces
skip_spaces_digits [] h = refl
skip_spaces_digits (c ∷ cs) h =
    let (first, rest) = &&-true (is_digit c) (all_digits cs) h in rw ((digit_plain c first).1)

signed_value_digits :
    (cs : Text) → all_digits cs ≡ true → signed_value cs ≡ min (digits_value 0 cs) (2 ^ 64 - 1)
unfolding all_digits signed_value digits_value
signed_value_digits [] h = refl
signed_value_digits (c ∷ cs) h =
    let (first, rest) = &&-true (is_digit c) (all_digits cs) h in
    let plain = digit_plain c first in rw (plain.2, plain.3)

strtoull-to_text : (n : ℕ) → n < 2 ^ 64 → strtoull (to_text n) ≡ n
unfolding strtoull to_text
strtoull-to_text n h =
    let text : Text = digits_from 20 n [] in
    let digits : all_digits text ≡ true =
      digits_from-all_digits 20 n [] (unfold all_digits in refl) in
    let value : digits_value 0 text ≡ n =
      digits_value-digits_from 19 n [] (omega arith) ∙ (unfold digits_value in refl) in
    ap (λ cs. signed_value (skip_spaces cs)) (c_str_digits text digits)
    ∙ ap signed_value (skip_spaces_digits text digits)
    ∙ signed_value_digits text digits
    ∙ ap (λ m. min m (2 ^ 64 - 1)) value
    ∙ omega arith

set_budget_taken :
    (f : DataFactory) (warn alarm : ℕ)
    → 0 < warn
    → warn ≤ alarm
    → set_budget f warn alarm ≡ (true, record f { budget_warn_us = warn; budget_alarm_us = alarm })
unfolding set_budget
set_budget_taken f warn alarm pos le =
    rw (==_ne warn 0 (λ e. omega arith), ==_ne alarm 0 (λ e. omega arith), ltb-false alarm warn le)

-- The command `set_data_budget` on two numbers as they are printed, the first above 0 and at most
-- the second, the second below 2^64: it returns 0, and the two budgets of the factory are these
-- numbers, all else as before.
pub cmd_set_data_budget-to_text :
    (f : DataFactory) (warn alarm : ℕ) (more : List Text)
    → 0 < warn
    → warn ≤ alarm
    → alarm < 2 ^ 64
    → let r = cmd_set_data_budget f (to_text warn ∷ to_text alarm ∷ more) in
      (r.0.0 ≡ 0) × (r.1 ≡ record f { budget_warn_us = warn; budget_alarm_us = alarm })
unfolding cmd_set_data_budget
cmd_set_data_budget-to_text f warn alarm more pos le low =
    rw
      (
        strtoull-to_text warn (omega arith),
        strtoull-to_text alarm low,
        set_budget_taken f warn alarm pos le,
      )
      (unfold budget_set in (refl, refl))
