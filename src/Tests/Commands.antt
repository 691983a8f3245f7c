-- ===== src/Tests/Commands.antt =====
-- The control commands of infrastructure/src/ctl.cpp; a function pointer is a number here, and its
-- call writes that number and its arguments.
use dts_framework.Common.{
  false, c_str, text_eq, ℕ, ◌+◌, ◌≡◌, refl, some, List, [], ◌∷◌, ◌++◌, Text, codes,
}
use dts_framework.Infra.Ctl.{
  run_command, tokens_from, execute_tokens, trim_start, trim_end, trim, find_command, Command,
  Registry, execute, split_line, register_command,
}
use dts_framework.Infra.Ctl.Tokens.{no_space, Words, line_of, split_line-line_of}
use dts_framework.Infra.Ctl.Lines.{
  no_page, all_callable, by_tokens, execute-by_tokens, execute_total,
}
use dts_framework.Infra.Ctl.Builtins.{register_builtins}

abbrev call : ℕ → List Text → Text → ℕ → (ℕ × Text) × ℕ
call f [] out s = ((0, out ++ codes "none"), s + f)
call f (a ∷ args) out s = ((0, out ++ a), s + f)

abbrev set_budget : Command ℕ
set_budget = record {
  name = some (codes "set_budget");
  usage = codes "set_budget <n>";
  fn = some 7;
}

abbrev registry : Registry ℕ
registry = set_budget ∷ []

abbrev words : List Text
words = codes "set_budget" ∷ codes "12" ∷ []

words-Words : Words words
unfolding no_space
words-Words = ((refl, refl), ((refl, refl), tt))

split_line-line_of_example : split_line (line_of words) ≡ words
split_line-line_of_example = split_line-line_of words words-Words

execute-by_tokens_example :
    execute call registry (codes "  set_budget 5 ") [] 0
    ≡ by_tokens call registry (codes "  set_budget 5 ") [] 0 (split_line (codes "  set_budget 5 "))
execute-by_tokens_example = execute-by_tokens call registry (codes "  set_budget 5 ") [] 0

execute_total_example :
    (res : (ℕ × Text) × ℕ) × (execute call registry (codes "nothing") [] 0 ≡ some res)
unfolding all_callable no_page
execute_total_example = execute_total call registry refl (codes "nothing") [] 0 refl

-- The names of `RegisterBuiltins` are free in an empty registry.
builtins_help :
    execute call (register_builtins 1 2 3 false []).1 (codes "set_log_level warn") [] 0
    ≡ some ((0, codes "warn"), 3)
unfolding register_builtins execute trim trim_end trim_start execute_tokens split_line tokens_from
    run_command find_command register_command text_eq c_str
builtins_help = refl
