-- ===== src/Boot/Commands.antt =====
-- The commands of bootstrap/src/run.cpp. A command gets its arguments and what `out` holds, and
-- returns its result and the new `out`.
use dts_framework.Common.{
  ℕ, zero, suc, ◌+◌, ◌-◌, ◌*◌, ◌/◌, ◌%◌, ◌^◌, Bool, true, false, ◌&&◌, not, Option, none, some,
  List, [], ◌∷◌, ◌++◌, ltb, ◌==◌, if◌then◌else◌, length, take, min, Text, codes, c_str, text_eq,
  to_text, is_nil, is_digit, replicate,
}
use dts_framework.Infra.Ctl.{is_space}
use dts_framework.Infra.MsgTable.{MsgHandler, SessionMsgTable}
use dts_framework.Data.Factory.{DataFactory, stats, set_budget}

-- A digit of `%X`.
abbrev hex_digit : ℕ → ℕ
hex_digit d = if ltb d 10 then 48 + d else 55 + d

unfoldable pub hex_from : ℕ → ℕ → Text → Text
hex_from zero n out = out
hex_from (suc left) n out =
    let more = hex_from left (n / 16) (hex_digit (n % 16) ∷ out) in
    if ltb n 16 then hex_digit n ∷ out else more

-- `%04X` of a 32-bit number.
unfoldable pub hex4 : ℕ → Text
unfolding hex_from
hex4 n = let text = hex_from 8 n [] in replicate (4 - length text) 48 ++ text

-- The line of an entry, in a buffer of 64 bytes.
unfoldable pub handler_line : {S : Type 0} → MsgHandler S → Text
unfolding hex4
handler_line h = take 63 (codes "  0x" ++ (hex4 h.msg_id ++ (codes "  " ++ (h.name ++ 10 ∷ []))))

unfoldable pub handler_lines : {S : Type 0} → List (MsgHandler S) → Text
unfolding handler_line
handler_lines [] = []
handler_lines (h ∷ hs) = handler_line h ++ handler_lines hs

abbrev text_of : Option Text → Text
text_of none = []
text_of (some t) = t

abbrev entries_of : {S : Type 0} → Option (List (MsgHandler S)) → List (MsgHandler S)
entries_of none = []
entries_of (some hs) = hs

-- A group that the filter lets through; the type of a registered group is not null.
unfoldable pub group_lines : {S : Type 0} → Text → SessionMsgTable S → Text
unfolding handler_lines
group_lines want g = elim g.session_inst [
  | none ↦ []
  | some inst ↦
      if not (is_nil want) && not (text_eq want inst)
      then []
      else text_of g.session_type
        ++ (46
            ∷ (inst
                ++ (codes " ("
                    ++ (to_text (length (entries_of g.entries))
                        ++ (codes " msgs)" ++ (10 ∷ handler_lines (entries_of g.entries)))))))
]

unfoldable pub groups_text : {S : Type 0} → Text → List (SessionMsgTable S) → Text
unfolding group_lines
groups_text want [] = []
groups_text want (g ∷ gs) = group_lines want g ++ groups_text want gs

abbrev first_arg : List Text → Text
first_arg [] = []
first_arg (a ∷ args) = a

-- `CmdGetHandlers`, for the groups of the three threads.
unfoldable pub cmd_get_handlers :
    {S T U : Type 0}
    → List (SessionMsgTable S)
    → List (SessionMsgTable T)
    → List (SessionMsgTable U)
    → List Text
    → Text
    → ℕ × Text
unfolding groups_text
cmd_get_handlers task_groups data_groups log_groups args out =
    let want = first_arg args in
    (
      0,
      out
          ++ (groups_text want task_groups
              ++ (groups_text want data_groups ++ groups_text want log_groups)),
    )

-- A `key=value` with what follows it.
abbrev pub pair : Text → ℕ → Text → Text
pair key value rest = key ++ (61 ∷ (to_text value ++ rest))

unfoldable pub data_stats_line : DataFactory → Text
unfolding stats
data_stats_line f =
    let s = stats f in
    pair (codes "frames") s.frames (
      pair (codes " max_us") s.frame_max_us (
        pair (codes " warn") s.frame_budget_warn (
          pair (codes " alarm") s.frame_budget_alarm (
            pair (codes " ticks") s.ticks (
              pair (codes " budget_warn_us") f.budget_warn_us (
                pair (codes " budget_alarm_us") f.budget_alarm_us (
                  10
                  ∷ pair (codes "drop_pool_full") s.drop_pool_full (
                      pair (codes " drop_slice_overcap") s.drop_slice_over_cap
                        (pair (codes " key_fail") s.key_fail (10 ∷ []))))))))))

-- `CmdGetDataStats`, through a buffer of 512 bytes.
unfoldable pub cmd_get_data_stats : DataFactory → Text → ℕ × Text
unfolding data_stats_line
cmd_get_data_stats f out = (0, out ++ take 511 (data_stats_line f))

-- `strtoull` in base 10: the digits in front, from the value so far.
unfoldable pub digits_value : ℕ → Text → ℕ
digits_value acc [] = acc
digits_value acc (c ∷ cs) =
    let more = digits_value (acc * 10 + (c - b'0')) cs in if is_digit c then more else acc

unfoldable pub skip_spaces : Text → Text
skip_spaces [] = []
skip_spaces (c ∷ cs) = let rest = skip_spaces cs in if is_space c then rest else c ∷ cs

-- A value above 64 bits becomes the largest one; a sign negates modulo 2^64.
abbrev saturate : ℕ → ℕ
saturate n = min n (2 ^ 64 - 1)

abbrev negated : ℕ → ℕ
negated n = if ltb n (2 ^ 64) then (2 ^ 64 - n) % 2 ^ 64 else 2 ^ 64 - 1

unfoldable pub signed_value : Text → ℕ
unfolding digits_value
signed_value [] = 0
signed_value (c ∷ cs) =
    if c == b'-'
    then negated (digits_value 0 cs)
    else if c == b'+'
    then saturate (digits_value 0 cs)
    else saturate (digits_value 0 (c ∷ cs))

unfoldable pub strtoull : Text → ℕ
unfolding signed_value skip_spaces
strtoull text = signed_value (skip_spaces (c_str text))

-- The end of `CmdSetDataBudget`, by what `SetBudget` returned.
unfoldable pub budget_set : ℕ → ℕ → Bool × DataFactory → (ℕ × Text) × DataFactory
budget_set warn alarm (false, f) =
    ((1, codes "invalid budget (warn must be <= alarm and both > 0)"), f)
budget_set warn alarm (true, f) = (
  (
    0,
    codes "data budget -> warn="
        ++ (to_text warn ++ (codes "us alarm=" ++ (to_text alarm ++ codes "us"))),
  ),
  f,
)

unfoldable pub cmd_set_data_budget : DataFactory → List Text → (ℕ × Text) × DataFactory
unfolding strtoull budget_set set_budget
cmd_set_data_budget f (warn ∷ alarm ∷ more) =
    budget_set (strtoull warn) (strtoull alarm) (set_budget f (strtoull warn) (strtoull alarm))
cmd_set_data_budget f args = ((1, codes "usage: set_data_budget <warn_us> <alarm_us>"), f)
