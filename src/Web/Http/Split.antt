-- ===== src/Web/Http/Split.antt =====
-- The search for a line end in a text that grows, as webserver/src/http_sse.cpp does it.
use dts_framework.Common.{
  ℕ, ◌≤◌, ◌≡◌, refl, sym, ◌∙◌, Bool, true, false, Option, none, some, [], ◌∷◌, ◌++◌, arith, length,
  Text, Bool-cases, inl, inr, starts_with, split_at_text, ◌==◌,
}
use dts_framework.Web.Http.{crlf}

starts_with-append :
    (p xs ys : Text) → length p ≤ length xs → starts_with p (xs ++ ys) ≡ starts_with p xs
unfolding starts_with
starts_with-append [] xs ys h = refl
starts_with-append (c ∷ p) [] ys h = absurd (omega arith)
starts_with-append (c ∷ p) (x ∷ xs) ys h = elim (Bool-cases (c == x)) [
  | inl e ↦ rw e (starts_with-append p xs ys (omega arith))
  | inr e ↦ rw e
]

starts_with-length : (p xs : Text) → starts_with p xs ≡ true → length p ≤ length xs
unfolding starts_with
starts_with-length [] xs h = omega arith
starts_with-length (c ∷ p) [] h = absurd (cc)
starts_with-length (c ∷ p) (x ∷ xs) h = elim (Bool-cases (c == x)) [
  | inl e ↦ omega (arith, starts_with-length p xs (rw e at h))
  | inr e ↦ let bad : false ≡ true = rw e at h in absurd (cc)
]

abbrev pub is_found : Option (Text × Text) → Bool
is_found none = false
is_found (some r) = true

abbrev pub extended : Text → Option (Text × Text) → Option (Text × Text)
extended ys none = none
extended ys (some r) = some (r.0, r.1 ++ ys)

abbrev behind : ℕ → Option (Text × Text) → Option (Text × Text)
behind c o = elim o [ none ↦ none | some (a, b) ↦ some (c ∷ a, b) ]

behind-found : (c : ℕ) (o : Option (Text × Text)) → is_found (behind c o) ≡ is_found o
behind-found c none = refl
behind-found c (some r) = refl

behind-extended :
    (c : ℕ) (ys : Text) (o : Option (Text × Text))
    → behind c (extended ys o) ≡ extended ys (behind c o)
behind-extended c ys none = refl
behind-extended c ys (some r) = refl

split-length :
    (c : ℕ) (p xs : Text) → is_found (split_at_text (c ∷ p) xs) ≡ true → length (c ∷ p) ≤ length xs
unfolding split_at_text
split-length c p [] h = absurd (cc)
split-length c p (x ∷ xs) h = elim (Bool-cases (starts_with (c ∷ p) (x ∷ xs))) [
  | inl e ↦ starts_with-length (c ∷ p) (x ∷ xs) e
  | inr e ↦
      let later : is_found (behind x (split_at_text (c ∷ p) xs)) ≡ true = rw e at h in
      omega (arith, split-length c p xs (sym (behind-found x (split_at_text (c ∷ p) xs)) ∙ later))
]

-- What was found stays found when more text follows.
pub split-append :
    (c : ℕ) (p xs ys : Text)
    → is_found (split_at_text (c ∷ p) xs) ≡ true
    → split_at_text (c ∷ p) (xs ++ ys) ≡ extended ys (split_at_text (c ∷ p) xs)
unfolding split_at_text
split-append c p [] ys h = absurd (cc)
split-append c p (x ∷ xs) ys h =
    let same = starts_with-append (c ∷ p) (x ∷ xs) ys (split-length c p (x ∷ xs) h) in
    elim (Bool-cases (starts_with (c ∷ p) (x ∷ xs))) [
      | inl e ↦ rw (same, e)
      | inr e ↦
          let later : is_found (behind x (split_at_text (c ∷ p) xs)) ≡ true = rw e at h in
          let rest =
            split-append c p xs ys (sym (behind-found x (split_at_text (c ∷ p) xs)) ∙ later) in
          rw (same, e, rest) (behind-extended x ys (split_at_text (c ∷ p) xs))
    ]

starts_with-shorter :
    (xs : Text) → starts_with (crlf ++ crlf) xs ≡ true → starts_with crlf xs ≡ true
unfolding starts_with
starts_with-shorter [] h = absurd (cc)
starts_with-shorter (x ∷ []) h = ground arith
starts_with-shorter (x ∷ y ∷ xs) h = ground arith

-- A text with an empty line has an end of line.
pub split-shorter :
    (xs : Text)
    → is_found (split_at_text (crlf ++ crlf) xs) ≡ true
    → is_found (split_at_text crlf xs) ≡ true
unfolding split_at_text
split-shorter [] h = absurd (cc)
split-shorter (x ∷ xs) h = elim (Bool-cases (starts_with (crlf ++ crlf) (x ∷ xs))) [
  | inl e ↦ rw (starts_with-shorter (x ∷ xs) e)
  | inr e ↦
      let later : is_found (behind x (split_at_text (crlf ++ crlf) xs)) ≡ true = rw e at h in
      let rest =
        split-shorter xs (sym (behind-found x (split_at_text (crlf ++ crlf) xs)) ∙ later) in
      elim (Bool-cases (starts_with crlf (x ∷ xs))) [
        | inl f ↦ rw f
        | inr f ↦ rw f (behind-found x (split_at_text crlf xs) ∙ rest)
      ]
]
