-- ===== src/Common/Lists.antt =====
-- Lists measured and indexed by native numbers, under the library's names.
use Prim.Native.Nat.{ℕ, zero, suc, ◌+◌, ◌-◌, ◌≤◌, ◌<◌, min}
use mathlib.Core.Path.{◌≡◌, refl, ap}
use mathlib.Core.Logic.{◌≢◌}
use mathlib.Core.List.{List, [], ◌∷◌, ◌++◌, append_assoc}
use mathlib.Core.Option.{Option, none, some}
use native.Mathlib.Omega.{arith}

module _ {ℓ} {A : Type ℓ} where
  abbrev pub length : List A → ℕ
  length [] = 0
  length (x ∷ xs) = suc (length xs)

  abbrev pub get_elem? : List A → ℕ → Option A
  get_elem? [] i = none
  get_elem? (x ∷ xs) zero = some x
  get_elem? (x ∷ xs) (suc i) = get_elem? xs i

  abbrev pub get_or : List A → ℕ → A → A
  get_or [] i d = d
  get_or (x ∷ xs) zero d = x
  get_or (x ∷ xs) (suc i) d = get_or xs i d

  -- A write out of bounds changes nothing.
  abbrev pub set : List A → ℕ → A → List A
  set [] i v = []
  set (x ∷ xs) zero v = v ∷ xs
  set (x ∷ xs) (suc i) v = x ∷ set xs i v

  abbrev pub take : ℕ → List A → List A
  take zero xs = []
  take (suc n) [] = []
  take (suc n) (x ∷ xs) = x ∷ take n xs

  abbrev pub drop : ℕ → List A → List A
  drop zero xs = xs
  drop (suc n) [] = []
  drop (suc n) (x ∷ xs) = drop n xs

  abbrev pub replicate : ℕ → A → List A
  replicate zero a = []
  replicate (suc n) a = a ∷ replicate n a

  -- `memcpy(buf + off, bytes, length bytes)` inside one array.
  abbrev pub splice : List A → ℕ → List A → List A
  splice buf off bytes = take off buf ++ (bytes ++ drop (off + length bytes) buf)

module _ {ℓ} {A : Type ℓ} where
  pub length-append : (xs ys : List A) → length (xs ++ ys) ≡ length xs + length ys
  length-append [] ys = omega arith
  length-append (x ∷ xs) ys = omega (arith, length-append xs ys)

  pub length-take : (n : ℕ) (xs : List A) → length (take n xs) ≡ min n (length xs)
  length-take zero xs = omega arith
  length-take (suc n) [] = omega arith
  length-take (suc n) (x ∷ xs) = omega (arith, length-take n xs)

  pub length-drop : (n : ℕ) (xs : List A) → length (drop n xs) ≡ length xs - n
  length-drop zero xs = omega arith
  length-drop (suc n) [] = omega arith
  length-drop (suc n) (x ∷ xs) = omega (arith, length-drop n xs)

  pub length-replicate : (n : ℕ) (a : A) → length (replicate n a) ≡ n
  length-replicate zero a = refl
  length-replicate (suc n) a = ap suc (length-replicate n a)

  pub length-set : (xs : List A) (i : ℕ) (v : A) → length (set xs i v) ≡ length xs
  length-set [] i v = refl
  length-set (x ∷ xs) zero v = refl
  length-set (x ∷ xs) (suc i) v = ap suc (length-set xs i v)

  pub get_or-set_self :
      (xs : List A) (i : ℕ) (v d : A) → i < length xs → get_or (set xs i v) i d ≡ v
  get_or-set_self [] i v d h = absurd (omega arith)
  get_or-set_self (x ∷ xs) zero v d h = refl
  get_or-set_self (x ∷ xs) (suc i) v d h = get_or-set_self xs i v d (omega arith)

  pub get_or-set_ne :
      (xs : List A) (i j : ℕ) (v d : A) → i ≢ j → get_or (set xs i v) j d ≡ get_or xs j d
  get_or-set_ne [] i j v d h = refl
  get_or-set_ne (x ∷ xs) zero zero v d h = absurd (h refl)
  get_or-set_ne (x ∷ xs) zero (suc j) v d h = refl
  get_or-set_ne (x ∷ xs) (suc i) zero v d h = refl
  get_or-set_ne (x ∷ xs) (suc i) (suc j) v d h = get_or-set_ne xs i j v d (λ e. h (ap suc e))

  pub take-append : (xs ys : List A) → take (length xs) (xs ++ ys) ≡ xs
  take-append [] ys = refl
  take-append (x ∷ xs) ys = ap (◌∷◌ x) (take-append xs ys)

  pub drop-append : (xs ys : List A) → drop (length xs) (xs ++ ys) ≡ ys
  drop-append [] ys = refl
  drop-append (x ∷ xs) ys = drop-append xs ys

  -- The two cuts at a length that is only known to be equal.
  pub take_at : (n : ℕ) (xs ys : List A) → n ≡ length xs → take n (xs ++ ys) ≡ xs
  take_at n xs ys e = rw e (take-append xs ys)

  pub drop_at : (n : ℕ) (xs ys : List A) → n ≡ length xs → drop n (xs ++ ys) ≡ ys
  drop_at n xs ys e = rw e (drop-append xs ys)

  drop-nil : (n : ℕ) → drop {A = A} n [] ≡ []
  drop-nil zero = refl
  drop-nil (suc n) = refl

  pub drop-drop : (m n : ℕ) (xs : List A) → drop n (drop m xs) ≡ drop (m + n) xs
  drop-drop zero n xs = let e : n ≡ zero + n = omega arith in ap (λ k. drop k xs) e
  drop-drop (suc m) n [] = rw (drop-nil n, drop-nil (suc m + n))
  drop-drop (suc m) n (x ∷ xs) =
      let e : suc (m + n) ≡ suc m + n = omega arith in rw (← e) (drop-drop m n xs)

  pub take_all : (n : ℕ) (xs : List A) → length xs ≤ n → take n xs ≡ xs
  take_all zero [] h = refl
  take_all zero (x ∷ xs) h = absurd (omega arith)
  take_all (suc n) [] h = refl
  take_all (suc n) (x ∷ xs) h = ap (◌∷◌ x) (take_all n xs (omega arith))

  pub length-splice :
      (buf : List A) (off : ℕ) (bytes : List A)
      → off + length bytes ≤ length buf
      → length (splice buf off bytes) ≡ length buf
  length-splice buf off bytes h =
      rw
        (
          length-append (take off buf) (bytes ++ drop (off + length bytes) buf),
          length-append bytes (drop (off + length bytes) buf),
          length-take off buf,
          length-drop (off + length bytes) buf,
        )
        (omega arith)

  -- What stands in front of a write, with the write itself.
  pub take-splice :
      (buf : List A) (off : ℕ) (bytes : List A)
      → off ≤ length buf
      → take (off + length bytes) (splice buf off bytes) ≡ take off buf ++ bytes
  take-splice buf off bytes h =
      rw (← append_assoc (take off buf) bytes (drop (off + length bytes) buf)) (
        take_at (off + length bytes) (take off buf ++ bytes) _
          (omega (arith, length-append (take off buf) bytes, length-take off buf)))

  pub take-append-drop : (n : ℕ) (xs : List A) → take n xs ++ drop n xs ≡ xs
  take-append-drop zero xs = refl
  take-append-drop (suc n) [] = refl
  take-append-drop (suc n) (x ∷ xs) = rw (take-append-drop n xs)

  -- A write over a part of known length.
  pub splice_mid :
      (off : ℕ) (pre old new post : List A)
      → off ≡ length pre
      → length old ≡ length new
      → splice (pre ++ (old ++ post)) off new ≡ pre ++ (new ++ post)
  splice_mid off pre old new post e f =
      let cut : off + length new ≡ length (pre ++ old) = omega (arith, length-append pre old) in
      rw (take_at off pre (old ++ post) e) (
        ap (λ k. pre ++ (new ++ k))
          (rw (← append_assoc pre old post) (drop_at (off + length new) (pre ++ old) post cut)))

  -- A write behind the first `d` elements.
  pub drop-splice :
      (d k off : ℕ) (buf bytes : List A)
      → off ≡ d + k
      → off ≤ length buf
      → drop d (splice buf off bytes) ≡ splice (drop d buf) k bytes
  drop-splice zero k off buf bytes e h = let f : off ≡ k = omega arith in rw f
  drop-splice (suc d) k zero buf bytes e h = absurd (omega arith)
  drop-splice (suc d) k (suc off) [] bytes e h = absurd (omega arith)
  drop-splice (suc d) k (suc off) (x ∷ xs) bytes e h =
      let f : suc off + length bytes ≡ suc (off + length bytes) = omega arith in
      rw f (drop-splice d k off xs bytes (omega arith) (omega arith))

  -- A write behind a prefix.
  pub splice_past :
      (k off : ℕ) (pre xs bytes : List A)
      → off ≡ length pre + k
      → splice (pre ++ xs) off bytes ≡ pre ++ splice xs k bytes
  splice_past k off [] xs bytes e = let f : off ≡ k = omega arith in rw f
  splice_past k zero (x ∷ pre) xs bytes e = absurd (omega arith)
  splice_past k (suc off) (x ∷ pre) xs bytes e =
      let f : suc off + length bytes ≡ suc (off + length bytes) = omega arith in
      rw f (ap (◌∷◌ x) (splice_past k off pre xs bytes (omega arith)))
