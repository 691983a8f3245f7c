-- ===== src/Data/Aggregator/Layout.antt =====
-- How `Flush` lays a report out in the buffer.
use dts_framework.Common.{
  ℕ, suc, ◌+◌, ◌≤◌, ◌≡◌, refl, sym, ap, ◌∙◌, List, [], ◌∷◌, ◌++◌, arith, length, take, drop, splice,
  to_le, length-append, splice_mid, splice_past, length-to_le, take-append-drop, drop-drop,
  length-take, length-drop,
}
use dts_framework.Data.Aggregator.{write_header}

-- The layout of a report: `ReportHeader` with its four bytes of padding, and what follows it.
abbrev pub layout : ℕ → List ℕ → ℕ → ℕ → ℕ → List ℕ → List ℕ
layout task_id pad timestamp_ms seq payload_len rest =
    to_le 4 task_id
    ++ (pad ++ (to_le 8 timestamp_ms ++ (to_le 4 seq ++ (to_le 4 payload_len ++ rest))))

-- A cut of an array.
abbrev pub cut : List ℕ → ℕ → ℕ → List ℕ
cut xs off n = take n (drop off xs)

pub length-cut : (xs : List ℕ) (off n : ℕ) → off + n ≤ length xs → length (cut xs off n) ≡ n
length-cut xs off n h = omega (arith, length-take n (drop off xs), length-drop off xs)

cut_next : (xs : List ℕ) (off n : ℕ) → drop off xs ≡ cut xs off n ++ drop (off + n) xs
cut_next xs off n =
    sym (take-append-drop n (drop off xs)) ∙ ap (◌++◌ (cut xs off n)) (drop-drop off n xs)

as_header :
    (buf : List ℕ)
    → buf
      ≡ cut buf 0 4
        ++ (cut buf 4 4 ++ (cut buf 8 8 ++ (cut buf 16 4 ++ (cut buf 20 4 ++ drop 24 buf))))
as_header buf =
    cut_next buf 0 4
    ∙ ap (◌++◌ (cut buf 0 4)) (
        cut_next buf 4 4
        ∙ ap (◌++◌ (cut buf 4 4)) (
            cut_next buf 8 8
            ∙ ap (◌++◌ (cut buf 8 8))
                (cut_next buf 16 4 ∙ ap (◌++◌ (cut buf 16 4)) (cut_next buf 20 4))))

-- A write behind a part of known length.
past :
    (k off n : ℕ) (pre xs new ys : List ℕ)
    → length pre ≡ n
    → off ≡ n + k
    → splice xs k new ≡ ys
    → splice (pre ++ xs) off new ≡ pre ++ ys
past k off n pre xs new ys l e h = splice_past k off pre xs new (omega arith) ∙ ap (◌++◌ pre) h

write_header_parts :
    (task_id ts seq payload : ℕ) (h₁ pad h₂ h₃ h₄ rest : List ℕ)
    → length h₁ ≡ 4
    → length pad ≡ 4
    → length h₂ ≡ 8
    → length h₃ ≡ 4
    → length h₄ ≡ 4
    → write_header (h₁ ++ (pad ++ (h₂ ++ (h₃ ++ (h₄ ++ rest))))) task_id ts seq payload
      ≡ layout task_id pad ts seq payload rest
unfolding write_header
write_header_parts task_id ts seq payload h₁ pad h₂ h₃ h₄ rest l₁ lp l₂ l₃ l₄ =
    let t = to_le 4 task_id in
    let s = to_le 8 ts in
    let q = to_le 4 seq in
    let p = to_le 4 payload in
    let lt : length t ≡ 4 = length-to_le 4 task_id in
    let ls : length s ≡ 8 = length-to_le 8 ts in
    let lq : length q ≡ 4 = length-to_le 4 seq in
    ap (λ b. splice (splice (splice b 8 s) 16 q) 20 p) (splice_mid 0 [] h₁ t _ refl (l₁ ∙ sym lt))
    ∙ ap (λ b. splice (splice b 16 q) 20 p)
        (past 4 8 4 t _ s _ lt refl
          (past 0 4 4 pad _ s _ lp refl (splice_mid 0 [] h₂ s _ refl (l₂ ∙ sym ls))))
    ∙ ap (λ b. splice b 20 p)
        (past 12 16 4 t _ q _ lt refl (
          past 8 12 4 pad _ q _ lp refl
            (past 0 8 8 s _ q _ ls refl (splice_mid 0 [] h₃ q _ refl (l₃ ∙ sym lq)))))
    ∙ past 16 20 4 t _ p _ lt refl (
        past 12 16 4 pad _ p _ lp refl (
          past 4 12 8 s _ p _ ls refl (
            past 0 4 4 q _ p _ lq refl
              (splice_mid 0 [] h₄ p _ refl (l₄ ∙ sym (length-to_le 4 payload))))))

pub write_header-eq-layout :
    (buf : List ℕ) (task_id ts seq payload : ℕ)
    → 24 ≤ length buf
    → write_header buf task_id ts seq payload
      ≡ layout task_id (cut buf 4 4) ts seq payload (drop 24 buf)
write_header-eq-layout buf task_id ts seq payload h =
    ap (λ b. write_header b task_id ts seq payload) (as_header buf)
    ∙ write_header_parts task_id ts seq payload _ _ _ _ _ _ (length-cut buf 0 4 (omega arith))
        (length-cut buf 4 4 (omega arith)) (length-cut buf 8 8 (omega arith))
        (length-cut buf 16 4 (omega arith)) (length-cut buf 20 4 (omega arith))

pub length-layout :
    (task_id ts seq payload : ℕ) (pad rest : List ℕ)
    → length pad ≡ 4
    → length (layout task_id pad ts seq payload rest) ≡ 24 + length rest
length-layout task_id ts seq payload pad rest h =
    rw (length-append, length-append, length-append, length-append, length-append)
      (omega (
        arith,
        length-to_le 4 task_id,
        length-to_le 8 ts,
        length-to_le 4 seq,
        length-to_le 4 payload,
      ))

take_past : (pre xs : List ℕ) (k : ℕ) → take (length pre + k) (pre ++ xs) ≡ pre ++ take k xs
take_past [] xs k = let e : 0 + k ≡ k = omega arith in rw e
take_past (x ∷ pre) xs k =
    let e : suc (length pre) + k ≡ suc (length pre + k) = omega arith in
    rw e (ap (◌∷◌ x) (take_past pre xs k))

take_next :
    (k n m : ℕ) (pre xs ys : List ℕ)
    → length pre ≡ m
    → n ≡ m + k
    → take k xs ≡ ys
    → take n (pre ++ xs) ≡ pre ++ ys
take_next k n m pre xs ys l e h =
    let f : n ≡ length pre + k = omega arith in rw f (take_past pre xs k ∙ ap (◌++◌ pre) h)

pub take-layout :
    (task_id ts seq payload k n : ℕ) (pad rest ys : List ℕ)
    → length pad ≡ 4
    → n ≡ 24 + k
    → take k rest ≡ ys
    → take n (layout task_id pad ts seq payload rest) ≡ layout task_id pad ts seq payload ys
take-layout task_id ts seq payload k n pad rest ys l e h =
    take_next (20 + k) n 4 (to_le 4 task_id) _ _ (length-to_le 4 task_id) (omega arith) (
      take_next (16 + k) (20 + k) 4 pad _ _ l (omega arith) (
        take_next (8 + k) (16 + k) 8 (to_le 8 ts) _ _ (length-to_le 8 ts) (omega arith) (
          take_next (4 + k) (8 + k) 4 (to_le 4 seq) _ _ (length-to_le 4 seq) (omega arith)
            (take_next k (4 + k) 4 (to_le 4 payload) _ _ (length-to_le 4 payload) refl h))))
