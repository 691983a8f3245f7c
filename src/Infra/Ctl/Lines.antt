-- ===== src/Infra/Ctl/Lines.antt =====
-- `Register`, `Find` and `Execute` of infrastructure/src/ctl.cpp.
use dts_framework.Common.{
  ℕ, ◌≡◌, refl, sym, ap, ◌∙◌, subst, Bool, true, false, ◌&&◌, ◌||◌, not, Option, none, some, List,
  [], ◌∷◌, ◌++◌, if◌then◌else◌, ◌==◌, Text, is_nil, c_str, Bool-cases, Option-cases, inl, inr,
  &&-true, not-true,
}
use dts_framework.Infra.Ctl.{
  is_blank, is_space, push_token, tokens_from, split_line, trim_start, trim_end, trim, Command,
  Registry, is_named, find_command, register_command, add_unless, register_as, run_command,
  execute_tokens, execute,
}
use dts_framework.Infra.Ctl.Tokens.{nil-of-is_nil, split_line-trim}

-- The characters on which `Trim` and `>>` differ.
unfoldable pub no_page : Text → Bool
no_page [] = true
no_page (c ∷ cs) = not ((c == 11) || (c == 12)) && no_page cs

push_begun : (d : ℕ) (cur : Text) (ts : List Text) → is_nil (push_token (cur ++ d ∷ []) ts) ≡ false
push_begun d [] ts = refl
push_begun d (c ∷ cur) ts = refl

begun_token : (d : ℕ) (cur cs : Text) → is_nil (tokens_from (cur ++ d ∷ []) cs) ≡ false
unfolding tokens_from
begun_token d cur [] = push_begun d cur []
begun_token d cur (c ∷ cs) = elim (Bool-cases (is_space c)) [
  | inl e ↦ rw e (push_begun d cur (tokens_from [] cs))
  | inr e ↦ rw e (begun_token c (cur ++ d ∷ []) cs)
]

-- A line of blanks only.
blank_line : (s : Text) → no_page s ≡ true → is_nil (tokens_from [] s) ≡ true → trim_start s ≡ []
unfolding tokens_from no_page trim_start
blank_line [] h e = refl
blank_line (c ∷ cs) h e =
    let page : Bool = (c == 11) || (c == 12) in
    let (plain, more) = &&-true (not page) (no_page cs) h in
    elim (Bool-cases (is_blank c)) [
      | inl b ↦ rw b (blank_line cs more (rw b at e))
      | inr b ↦
          let space : is_space c ≡ false = rw (b, not-true page plain) in
          let some_token : is_nil (tokens_from [] (c ∷ cs)) ≡ false =
            rw space (begun_token c [] cs) in
          absurd (cc)
    ]

module _ {F S : Type 0} (call : F → List Text → Text → S → (ℕ × Text) × S) (r : Registry F)
    (line out : Text) (s : S) where
  -- What a line does by its tokens.
  abbrev pub by_tokens : List Text → Option ((ℕ × Text) × S)
  by_tokens [] = if is_nil (trim line) then some ((0, out), s) else none
  by_tokens (name ∷ args) = run_command call (find_command r (c_str name)) name args out s

  by_tokens_if :
      (ts : List Text)
      → (is_nil (trim line) ≡ true → ts ≡ [])
      → (if is_nil (trim line) then some ((0, out), s) else execute_tokens call r ts out s)
        ≡ by_tokens ts
  unfolding execute_tokens
  by_tokens_if [] h = refl
  by_tokens_if (name ∷ args) h = elim (Bool-cases (is_nil (trim line))) [
    | inl e ↦ let bad : name ∷ args ≡ [] = h e in absurd (cc)
    | inr e ↦ rw e
  ]

  -- `Execute`, which trims the line before it splits it, does what the tokens of the untrimmed line
  -- say: the command of the first token with the other tokens, where there is one; without a token,
  -- nothing if the trimmed line is empty, and otherwise the undefined read of the first token.
  pub execute-by_tokens : execute call r line out s ≡ by_tokens (split_line line)
  unfolding execute
  execute-by_tokens =
      ap (λ ts. if is_nil (trim line) then some ((0, out), s) else execute_tokens call r ts out s)
        (split_line-trim line)
      ∙ by_tokens_if (split_line line) (λ e.
        sym (split_line-trim line)
        ∙ ap split_line (nil-of-is_nil (trim line) e)
        ∙ (unfold split_line tokens_from in refl))

abbrev can_call : {F : Type 0} → Option F → Bool
can_call none = false
can_call (some f) = true

-- Every entry has a function to call.
unfoldable pub all_callable : {F : Type 0} → Registry F → Bool
all_callable [] = true
all_callable (c ∷ cs) = can_call c.fn && all_callable cs

find_callable :
    {F : Type 0} (r : Registry F) (name : Text) (c : Command F)
    → all_callable r ≡ true
    → find_command r name ≡ some c
    → can_call c.fn ≡ true
unfolding all_callable find_command
find_callable [] name c h found = absurd (cc)
find_callable (d ∷ ds) name c h found =
    let (first, more) = &&-true (can_call d.fn) (all_callable ds) h in
    elim (Bool-cases (is_named d name)) [
      | inl e ↦
          let here : some d ≡ some c = rw e at found in
          let same : d ≡ c = cc in subst (λ k. can_call k.fn ≡ true) same first
      | inr e ↦ find_callable ds name c more (rw e at found)
    ]

callable-append :
    {F : Type 0} (r : Registry F) (c : Command F)
    → all_callable r ≡ true
    → can_call c.fn ≡ true
    → all_callable (r ++ c ∷ []) ≡ true
unfolding all_callable
callable-append [] c h e = rw e
callable-append (d ∷ ds) c h e =
    let (first, more) = &&-true (can_call d.fn) (all_callable ds) h in
    rw first (callable-append ds c more e)

added-callable :
    {F : Type 0} (r : Registry F) (c : Command F) (found : Option (Command F))
    → all_callable r ≡ true
    → can_call c.fn ≡ true
    → all_callable (add_unless r c found).1 ≡ true
unfolding add_unless
added-callable r c none h g = callable-append r c h g
added-callable r c (some old) h g = h

registered-callable :
    {F : Type 0} (r : Registry F) (c : Command F) (name : Option Text) (fn : Option F)
    → all_callable r ≡ true
    → c.fn ≡ fn
    → all_callable (register_as r c name fn).1 ≡ true
unfolding register_as
registered-callable r c none fn h g = h
registered-callable r c (some name) none h g = h
registered-callable r c (some name) (some f) h g =
    added-callable r c (find_command r name) h (ap can_call g)

-- `Register` lets no entry without a function in.
pub register-all_callable :
    {F : Type 0} (r : Registry F) (c : Command F)
    → all_callable r ≡ true
    → all_callable (register_command r c).1 ≡ true
unfolding register_command
register-all_callable r c h = registered-callable r c c.name c.fn h refl

module _ {F S : Type 0} (call : F → List Text → Text → S → (ℕ × Text) × S) (r : Registry F)
    (callable : all_callable r ≡ true) (line out : Text) (s : S) (plain : no_page line ≡ true) where
  run_callable :
      (found : Option (Command F)) (name : Text) (args : List Text)
      → find_command r (c_str name) ≡ found
      → (res : (ℕ × Text) × S) × (run_command call found name args out s ≡ some res)
  unfolding run_command
  run_callable none name args e = (_, refl)
  run_callable (some c) name args e = elim (Option-cases c.fn) [
    | inl none_there ↦
        let bad : can_call {F = F} none ≡ true =
          subst (λ o. can_call o ≡ true) none_there (find_callable r (c_str name) c callable e) in
        absurd (cc)
    | inr (f, there) ↦ (call f args out s, rw there)
  ]

  tokens_defined :
      (ts : List Text)
      → split_line line ≡ ts
      → (res : (ℕ × Text) × S) × (by_tokens call r line out s ts ≡ some res)
  unfolding split_line trim
  tokens_defined [] e =
      let nil : is_nil (tokens_from [] line) ≡ true = ap is_nil e in
      let gone : trim_end (trim_start line) ≡ [] =
        ap trim_end (blank_line line plain nil) ∙ (unfold trim_end in refl) in
      (((0, out), s), rw gone)
  tokens_defined (name ∷ args) e = run_callable (find_command r (c_str name)) name args refl

  -- `Execute` returns a result, and never reads a token that is not there, on every line without a
  -- vertical tab or a form feed, where each registered command has a function.
  pub execute_total : (res : (ℕ × Text) × S) × (execute call r line out s ≡ some res)
  execute_total =
      let (res, e) = tokens_defined (split_line line) refl in
      (res, execute-by_tokens call r line out s ∙ e)
