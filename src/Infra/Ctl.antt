-- ===== src/Infra/Ctl.antt =====
-- infrastructure/include/ctl.h and src/ctl.cpp: the command registry and the command executor.
-- `F` is the type of the function pointers of the process and `S` its state; `call` is what a call
-- of one does: its result, what it leaves in `out`, and the new state.
pub mod Tokens
pub mod Lines
pub mod Builtins
use dts_framework.Common.{
  ℕ, Bool, true, false, ◌&&◌, ◌||◌, Option, none, some, List, [], ◌∷◌, ◌++◌, ◌==◌, if◌then◌else◌,
  Text, codes, text_eq, c_str, is_nil,
}

-- The characters of `" \t\r\n"`, and those that `>>` skips, which are two more.
abbrev pub is_blank : ℕ → Bool
is_blank c = (c == 32) || ((c == 9) || ((c == 13) || (c == 10)))

abbrev pub is_space : ℕ → Bool
is_space c = is_blank c || ((c == 11) || (c == 12))

-- A token that has begun is handed out, an empty one is not.
abbrev pub push_token : Text → List Text → List Text
push_token [] ts = ts
push_token (c ∷ cs) ts = (c ∷ cs) ∷ ts

unfoldable pub tokens_from : Text → Text → List Text
tokens_from cur [] = push_token cur []
tokens_from cur (c ∷ cs) =
    let rest = tokens_from (if is_space c then [] else cur ++ c ∷ []) cs in
    if is_space c then push_token cur rest else rest

unfoldable pub split_line : Text → List Text
split_line line = tokens_from [] line

unfoldable pub trim_start : Text → Text
trim_start [] = []
trim_start (c ∷ cs) = let rest = trim_start cs in if is_blank c then rest else c ∷ cs

unfoldable pub trim_end : Text → Text
trim_end [] = []
trim_end (c ∷ cs) = let rest = trim_end cs in if is_blank c && is_nil rest then [] else c ∷ rest

unfoldable pub trim : Text → Text
trim s = trim_end (trim_start s)

pub record Command (F : Type 0) : Type 0 where
  pub name : Option Text
  pub usage : Text
  pub fn : Option F

abbrev pub Registry : Type 0 → Type 0
Registry F = List (Command F)

-- `strcmp(c.name, name) == 0`; a registered command has a name.
abbrev pub is_named : {F : Type 0} → Command F → Text → Bool
is_named c name = elim c.name [ none ↦ false | some n ↦ text_eq n name ]

unfoldable pub find_command : {F : Type 0} → Registry F → Text → Option (Command F)
find_command [] name = none
find_command (c ∷ cs) name =
    let rest = find_command cs name in if is_named c name then some c else rest

-- The end of `Register`, by what the search for the name gave.
unfoldable pub add_unless :
    {F : Type 0} → Registry F → Command F → Option (Command F) → Bool × Registry F
add_unless r c (some old) = (false, r)
add_unless r c none = (true, r ++ c ∷ [])

unfoldable pub register_as :
    {F : Type 0} → Registry F → Command F → Option Text → Option F → Bool × Registry F
unfolding add_unless
register_as r c none fn = (false, r)
register_as r c (some name) none = (false, r)
register_as r c (some name) (some f) = add_unless r c (find_command r name)

-- `Register`: false for the source's -1.
unfoldable pub register_command : {F : Type 0} → Registry F → Command F → Bool × Registry F
unfolding register_as
register_command r c = register_as r c c.name c.fn

-- What a command writes through `ForEach`, entry by entry.
unfoldable pub for_each : {F : Type 0} → (Command F → Text) → Registry F → Text
for_each fn [] = []
for_each fn (c ∷ cs) = fn c ++ for_each fn cs

module _ {F S : Type 0} (call : F → List Text → Text → S → (ℕ × Text) × S) where
  -- The call of a command that was found; a registered one has a function.
  unfoldable pub run_command :
      Option (Command F) → Text → List Text → Text → S → Option ((ℕ × Text) × S)
  run_command none name args out s = some ((1, codes "not found: " ++ name), s)
  run_command (some c) name args out s = elim c.fn [
    | none ↦ none
    | some f ↦ some (call f args out s)
  ]

  -- `tokens[0]` of no tokens is outside the vector: there `none` stands for what C++ leaves
  -- undefined.
  unfoldable pub execute_tokens : Registry F → List Text → Text → S → Option ((ℕ × Text) × S)
  execute_tokens r [] out s = none
  execute_tokens r (name ∷ args) out s = run_command (find_command r (c_str name)) name args out s

  -- `Execute`: the result and `out`.
  unfoldable pub execute : Registry F → Text → Text → S → Option ((ℕ × Text) × S)
  execute r line out s =
      if is_nil (trim line)
      then some ((0, out), s)
      else execute_tokens r (split_line (trim line)) out s
