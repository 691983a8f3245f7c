-- ===== src/Infra/Ctl/Tokens.antt =====
-- `Trim` and `SplitLine` of infrastructure/src/ctl.cpp.
use dts_framework.Common.{
  ◌≡◌, refl, sym, ap, ◌∙◌, Bool, true, false, ◌&&◌, List, [], ◌∷◌, ◌++◌, if◌then◌else◌,
  append_assoc, append-nil, not, not-true, Text, is_nil, Bool-cases, inl, inr, &&-true,
}
use dts_framework.Infra.Ctl.{
  is_blank, is_space, push_token, tokens_from, split_line, trim_start, trim_end, trim,
}

tokens_from-trim_start : (s : Text) → tokens_from [] (trim_start s) ≡ tokens_from [] s
unfolding trim_start tokens_from
tokens_from-trim_start [] = refl
tokens_from-trim_start (c ∷ cs) = elim (Bool-cases (is_blank c)) [
  | inl e ↦ rw e (tokens_from-trim_start cs)
  | inr e ↦ let t : trim_start (c ∷ cs) ≡ c ∷ cs = rw e in ap (tokens_from []) t
]

pub nil-of-is_nil : (s : Text) → is_nil s ≡ true → s ≡ []
nil-of-is_nil [] h = refl
nil-of-is_nil (c ∷ cs) h = absurd (cc)

tokens_from-trim_end : (cur s : Text) → tokens_from cur (trim_end s) ≡ tokens_from cur s
unfolding trim_end tokens_from
tokens_from-trim_end cur [] = refl
tokens_from-trim_end cur (c ∷ cs) = elim (Bool-cases (is_blank c && is_nil (trim_end cs))) [
  | inl e ↦
      let (b, n) = &&-true (is_blank c) (is_nil (trim_end cs)) e in
      let rest : tokens_from [] cs ≡ [] =
        sym (tokens_from-trim_end [] cs) ∙ ap (tokens_from []) (nil-of-is_nil (trim_end cs) n) in
      rw (e, b, rest)
  | inr e ↦ rw (e, tokens_from-trim_end (if is_space c then [] else cur ++ c ∷ []) cs)
]

-- Trimming loses no token.
pub split_line-trim : (s : Text) → split_line (trim s) ≡ split_line s
unfolding split_line trim
split_line-trim s = tokens_from-trim_end [] (trim_start s) ∙ tokens_from-trim_start s

-- A word: not empty, and without a character that ends it.
unfoldable pub no_space : Text → Bool
no_space [] = true
no_space (c ∷ cs) = not (is_space c) && no_space cs

abbrev pub IsWord : Text → Type 0
IsWord t = (is_nil t ≡ false) × (no_space t ≡ true)

abbrev pub Words : List Text → Type 0
Words [] = Unit {0}
Words (t ∷ ts) = IsWord t × Words ts

-- A line with a blank behind each word.
abbrev pub line_of : List Text → Text
line_of [] = []
line_of (t ∷ ts) = t ++ 32 ∷ line_of ts

tokens_from-word :
    (cur t rest : Text)
    → no_space t ≡ true
    → tokens_from cur (t ++ 32 ∷ rest) ≡ push_token (cur ++ t) (tokens_from [] rest)
unfolding tokens_from no_space
tokens_from-word cur [] rest h = ap (λ k. push_token k (tokens_from [] rest)) (sym (append-nil cur))
tokens_from-word cur (c ∷ t) rest h =
    let (first, more) = &&-true (not (is_space c)) (no_space t) h in
    rw (not-true (is_space c) first) (
      tokens_from-word (cur ++ c ∷ []) t rest more
      ∙ ap (λ k. push_token k (tokens_from [] rest)) (append_assoc cur (c ∷ []) t))

push-IsWord : (t : Text) (ts : List Text) → is_nil t ≡ false → push_token t ts ≡ t ∷ ts
push-IsWord [] ts h = absurd (cc)
push-IsWord (c ∷ t) ts h = refl

-- Words, none of them empty and none with a white-space character, written with a blank behind each
-- are what `SplitLine` makes of the line.
pub split_line-line_of : (ts : List Text) → Words ts → split_line (line_of ts) ≡ ts
unfolding split_line
split_line-line_of [] h = unfold tokens_from in refl
split_line-line_of (t ∷ ts) ((full, plain), h) =
    tokens_from-word [] t (line_of ts) plain
    ∙ push-IsWord t (tokens_from [] (line_of ts)) full
    ∙ ap (◌∷◌ t) (split_line-line_of ts h)
