-- ===== src/Agent/PingPong/Flip.antt =====
-- What the reader of agent/src/pingpong.cpp gets.
use dts_framework.Common.{
  ℕ, ◌+◌, ◌≤◌, ◌≡◌, refl, sym, ap, ◌∙◌, Bool, true, false, Option, none, some, List, [], ◌∷◌, ◌++◌,
  arith, ltb, ltb-false, if◌then◌else◌, length, length-append, take, take_all, is_nil, min,
  append_assoc, append-nil, Bool-cases, inl, inr, ◌%◌, ◌^◌,
}
use dts_framework.Agent.PingPong.{ping_pong_size, PingPongBuffer, face, set_face, write}

set_self : (b : PingPongBuffer) (c : Bool) → set_face b c (face b c) ≡ b
set_self b true = refl
set_self b false = refl

-- The face that was just written.
face_set :
    (b : PingPongBuffer) (c : Bool) (xs : List ℕ)
    → b.cur ≡ c
    → face (set_face b c xs) (set_face b c xs).cur ≡ xs
face_set b true xs e = rw e
face_set b false xs e = rw e

set_set :
    (b : PingPongBuffer) (c : Bool) (xs ys : List ℕ)
    → b.cur ≡ c
    → set_face (set_face b c xs) (set_face b c xs).cur ys ≡ set_face b c ys
set_set b true xs ys e = rw e
set_set b false xs ys e = rw e

-- A piece that is not empty and fits.
write_fits :
    (bytes : List ℕ) (b : PingPongBuffer)
    → is_nil bytes ≡ false
    → length (face b b.cur) + length bytes ≤ ping_pong_size
    → write bytes b ≡ some (true, set_face b b.cur (face b b.cur ++ bytes))
unfolding write
write_fits bytes b full h =
    let small : ltb ping_pong_size ((length (face b b.cur) + length bytes) % 2 ^ 32) ≡ false =
      ltb-false ping_pong_size ((length (face b b.cur) + length bytes) % 2 ^ 32) (omega arith) in
    rw (full, small, ltb-false ping_pong_size (length (face b b.cur) + length bytes) h)

-- Writes that all succeed.
unfoldable pub write_all : List (List ℕ) → PingPongBuffer → Option PingPongBuffer
write_all [] b = some b
write_all (bytes ∷ more) b = elim (write bytes b) [
  | none ↦ none
  | some (ok, b') ↦ if ok then write_all more b' else none
]

abbrev pub joined : List (List ℕ) → List ℕ
joined [] = []
joined (bytes ∷ more) = bytes ++ joined more

unfoldable pub all_full : List (List ℕ) → Bool
all_full [] = true
all_full (bytes ∷ more) = if is_nil bytes then false else all_full more

pub write_all_lem :
    (pieces : List (List ℕ)) (b : PingPongBuffer)
    → all_full pieces ≡ true
    → length (face b b.cur) + length (joined pieces) ≤ ping_pong_size
    → write_all pieces b ≡ some (set_face b b.cur (face b b.cur ++ joined pieces))
unfolding write_all all_full
write_all_lem [] b h fits =
    ap some (sym (ap (set_face b b.cur) (append-nil (face b b.cur)) ∙ set_self b b.cur))
write_all_lem (bytes ∷ more) b h fits = elim (Bool-cases (is_nil bytes)) [
  | inl e ↦ let bad : false ≡ true = rw e at h in absurd (cc)
  | inr e ↦
      let rest : all_full more ≡ true = rw e at h in
      let xs : List ℕ = face b b.cur ++ bytes in
      let at : face (set_face b b.cur xs) (set_face b b.cur xs).cur ≡ xs =
        face_set b b.cur xs refl in
      let whole : length (face b b.cur) + length (bytes ++ joined more) ≤ ping_pong_size = fits in
      rw (write_all, write_fits bytes b e (omega (arith, length-append bytes (joined more), whole)))
        (write_all_lem more (set_face b b.cur xs) rest (
            omega (
              arith,
              whole,
              length-append bytes (joined more),
              length-append (face b b.cur) bytes,
              ap length at,
            ))
          ∙ ap some (
              set_set b b.cur xs _ refl
              ∙ ap (set_face b b.cur) (
                  ap (λ ys. ys ++ joined more) at
                  ∙ append_assoc (face b b.cur) bytes (joined more))))
]

pub take-min : (xs : List ℕ) (cap : ℕ) → length xs ≤ cap → take (min (length xs) cap) xs ≡ xs
take-min xs cap h = take_all (min (length xs) cap) xs (omega arith)
