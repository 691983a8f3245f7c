-- ===== src/Infra/Console/Reader.antt =====
-- `ReadLine` of infrastructure/src/console.cpp.
use dts_framework.Common.{
  ◌≤◌, ◌≡◌, refl, sym, ap, ◌∙◌, Bool, true, false, ◌&&◌, ◌||◌, not, Option, none, some, List, [],
  ◌∷◌, ◌++◌, append_assoc, append-nil, arith, ltb, ltb-false, ◌==◌, if◌then◌else◌, length,
  length-append, Text, is_nil, Bool-cases, inl, inr, &&-true, not-true,
}
use dts_framework.Infra.Console.{
  max_line_len, before_newline, ReadEnd, read_step, read_from, read_line, push_job, Job, Control,
  session_job, session_round,
}

-- The bytes of the chunks in a row.
abbrev pub joined : List Text → Text
joined [] = []
joined (c ∷ cs) = c ++ joined cs

unfoldable pub no_newline : Text → Bool
no_newline [] = true
no_newline (c ∷ cs) = not (c == 10) && no_newline cs

no_newline-append : (x y : Text) → no_newline (x ++ y) ≡ (no_newline x && no_newline y)
unfolding no_newline
no_newline-append [] y = refl
no_newline-append (c ∷ x) y = elim (Bool-cases (c == 10)) [
  | inl e ↦ rw e
  | inr e ↦ rw e (no_newline-append x y)
]

before_newline-none : (x : Text) → no_newline x ≡ true → before_newline x ≡ none
unfolding no_newline before_newline
before_newline-none [] h = refl
before_newline-none (c ∷ x) h =
    let (first, more) = &&-true (not (c == 10)) (no_newline x) h in
    rw (not-true (c == 10) first, before_newline-none x more)

before_newline-append :
    (x y a : Text)
    → no_newline x ≡ true
    → before_newline y ≡ some a
    → before_newline (x ++ y) ≡ some (x ++ a)
unfolding no_newline before_newline
before_newline-append [] y a h e = e
before_newline-append (c ∷ x) y a h e =
    let (first, more) = &&-true (not (c == 10)) (no_newline x) h in
    rw (not-true (c == 10) first, before_newline-append x y a more e)

read_from_lem :
    (line : Text) (cs : List Text) (chunk : Text) (rest : List Text) (a : Text)
    → no_newline (line ++ joined cs) ≡ true
    → length (line ++ joined cs) ≤ max_line_len
    → before_newline chunk ≡ some a
    → read_from line false (cs ++ chunk ∷ rest)
      ≡ record { ok = true; line = (line ++ joined cs) ++ a; overflow = false; left = rest }
unfolding read_from
read_from_lem line [] chunk rest a h short e =
    let long : Bool = ltb max_line_len (length (line ++ chunk)) in
    ap
      (λ o.
        read_step o (read_from (if long then [] else line ++ chunk) (false || long) rest)
          (line ++ chunk) false rest)
      (before_newline-append line chunk a (rw append-nil at h) e)
    ∙ rw append-nil
read_from_lem line (c ∷ cs) chunk rest a h short e =
    let whole : (line ++ c) ++ joined cs ≡ line ++ (c ++ joined cs) =
      append_assoc line c (joined cs) in
    let plain : no_newline ((line ++ c) ++ joined cs) ≡ true = rw whole h in
    let (before, _) =
      &&-true (no_newline (line ++ c)) (no_newline (joined cs))
        (sym (no_newline-append (line ++ c) (joined cs)) ∙ plain) in
    let small : length ((line ++ c) ++ joined cs) ≤ max_line_len = rw whole short in
    let fits : ltb max_line_len (length (line ++ c)) ≡ false =
      ltb-false max_line_len (length (line ++ c))
        (omega (arith, small, length-append (line ++ c) (joined cs))) in
    rw (before_newline-none (line ++ c) before, fits)
      (read_from_lem (line ++ c) cs chunk rest a plain small e ∙ rw whole)

-- `ReadLine` on chunks of at most 4096 characters without a newline, followed by a chunk with one:
-- it delivers all before the newline, and what stands behind it in that chunk is gone.
pub read_line_at_newline :
    (cs : List Text) (chunk : Text) (rest : List Text) (a : Text)
    → no_newline (joined cs) ≡ true
    → length (joined cs) ≤ max_line_len
    → before_newline chunk ≡ some a
    → read_line (cs ++ chunk ∷ rest)
      ≡ record { ok = true; line = joined cs ++ a; overflow = false; left = rest }
unfolding read_line
read_line_at_newline cs chunk rest a h short e = read_from_lem [] cs chunk rest a h short e

step-overflow :
    (o : Option Text) (more : ReadEnd) (text : Text) (over : Bool) (cs : List Text)
    → (more.ok ≡ true → more.overflow ≡ false)
    → (read_step o more text over cs).ok ≡ true
    → (read_step o more text over cs).overflow ≡ false
step-overflow none more text over cs ih h = ih h
step-overflow (some a) more text true cs ih h = absurd (cc)
step-overflow (some a) more text false cs ih h = refl

read_from-overflow :
    (line : Text) (over : Bool) (cs : List Text)
    → (read_from line over cs).ok ≡ true
    → (read_from line over cs).overflow ≡ false
unfolding read_from
read_from-overflow line true [] h = absurd (cc)
read_from-overflow line false [] h = refl
read_from-overflow line over (chunk ∷ cs) h =
    let text = line ++ chunk in
    let long = ltb max_line_len (length text) in
    step-overflow (before_newline text) (read_from (if long then [] else text) (over || long) cs)
      text over cs (read_from-overflow (if long then [] else text) (over || long) cs) h

-- A round of a session that goes on has pushed the line it read: the answer to an overlong line is
-- never reached.
pub session_round-push :
    (m m' : Control) (chunks left : List Text)
    → session_round m chunks ≡ some (m', left)
    → m'
      ≡ push_job m (record { line = (read_line chunks).line; resp = []; done = false; dds = false })
unfolding session_round session_job
session_round-push m m' chunks left h =
    let r = read_line chunks in
    let job : Job = record { line = r.line; resp = []; done = false; dds = false } in
    elim (Bool-cases r.ok) [
      | inr e ↦ let bad : none ≡ some (m', left) = rw e at h in absurd (cc)
      | inl e ↦
          let short : r.overflow ≡ false =
            unfold read_line in read_from-overflow [] false chunks e in
          elim (Bool-cases (is_nil r.line)) [
            | inl n ↦ let bad : none ≡ some (m', left) = rw (e, n) at h in absurd (cc)
            | inr n ↦
                let done : some (push_job m job, r.left) ≡ some (m', left) =
                  rw (e, n, short) at h in
                cc
          ]
    ]
