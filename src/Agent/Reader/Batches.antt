-- ===== src/Agent/Reader/Batches.antt =====
-- What the loop of agent/src/dts_agent_api.cpp publishes of what was written to the buffer.
use dts_framework.Common.{
  ℕ, ◌+◌, ◌≤◌, ◌≡◌, refl, ap, ◌∙◌, Bool, true, false, not, Option, none, some, List, [], ◌∷◌, ◌++◌,
  arith, ==_ne, length, min,
}
use dts_framework.Agent.PingPong.{ping_pong_size, PingPongBuffer, face, set_face, read_and_flip}
use dts_framework.Agent.PingPong.Flip.{write_all, joined, all_full, write_all_lem, take-min}
use dts_framework.Agent.Reader.{agent_buf_size, to_publish, reader_round}

abbrev pub empty_faces : Bool → PingPongBuffer
empty_faces cur = record { first = []; second = []; cur = cur }

-- A round after a batch: it publishes the batch, and leaves both faces empty.
reader_round_lem :
    (out_key : ℕ) (cur : Bool) (bytes : List ℕ)
    → length bytes ≤ agent_buf_size
    → reader_round true out_key (set_face (empty_faces cur) cur bytes)
      ≡ (to_publish true out_key bytes, empty_faces (not cur))
unfolding reader_round read_and_flip
reader_round_lem out_key true [] h = refl
reader_round_lem out_key false [] h = refl
reader_round_lem out_key true (b ∷ bs) h = rw (
  take-min (b ∷ bs) agent_buf_size h,
  ==_ne (min (length (b ∷ bs)) agent_buf_size) 0 (λ e. omega arith),
)
reader_round_lem out_key false (b ∷ bs) h = rw (
  take-min (b ∷ bs) agent_buf_size h,
  ==_ne (min (length (b ∷ bs)) agent_buf_size) 0 (λ e. omega arith),
)

abbrev pub prepend :
    Option (ℕ × List ℕ)
    → Option (List (ℕ × List ℕ) × PingPongBuffer)
    → Option (List (ℕ × List ℕ) × PingPongBuffer)
prepend msg none = none
prepend none (some (msgs, b)) = some (msgs, b)
prepend (some msg) (some (msgs, b)) = some (msg ∷ msgs, b)

-- Batches of writes, each followed by a round of the reader; `none` where a write fails.
unfoldable pub run_batches :
    ℕ → List (List (List ℕ)) → PingPongBuffer → Option (List (ℕ × List ℕ) × PingPongBuffer)
run_batches out_key [] b = some ([], b)
run_batches out_key (pieces ∷ more) b = elim (write_all pieces b) [
  | none ↦ none
  | some b' ↦ let r = reader_round true out_key b' in prepend r.0 (run_batches out_key more r.1)
]

-- The published bytes, and the written ones.
abbrev pub published : List (ℕ × List ℕ) → List ℕ
published [] = []
published ((out_key, bytes) ∷ msgs) = bytes ++ published msgs

abbrev pub written : List (List (List ℕ)) → List ℕ
written [] = []
written (pieces ∷ more) = joined pieces ++ written more

-- Every batch fits into a face, and has no empty piece.
abbrev pub Fitting : List (List (List ℕ)) → Type 0
Fitting [] = Unit {0}
Fitting (pieces ∷ more) =
    ((all_full pieces ≡ true) × (length (joined pieces) ≤ ping_pong_size)) × Fitting more

Sent : Option (List (ℕ × List ℕ) × PingPongBuffer) → List ℕ → Type 0
Sent r bytes =
    (msgs : List (ℕ × List ℕ)) × (b : PingPongBuffer) × (r ≡ some (msgs, b))
    × (published msgs ≡ bytes)

prepend-Sent :
    (out_key : ℕ) (bytes : List ℕ) (r : Option (List (ℕ × List ℕ) × PingPongBuffer)) (rest : List ℕ)
    → Sent r rest
    → Sent (prepend (to_publish true out_key bytes) r) (bytes ++ rest)
unfolding Sent to_publish
prepend-Sent out_key [] r rest (msgs, b, e, p) = (msgs, b, ap (prepend none) e, p)
prepend-Sent out_key (x ∷ xs) r rest (msgs, b, e, p) = (
  (out_key, x ∷ xs) ∷ msgs,
  b,
  ap (prepend (some (out_key, x ∷ xs))) e,
  ap (λ ys. (x ∷ xs) ++ ys) p,
)

face_empty : (cur : Bool) → face (empty_faces cur) cur ≡ []
face_empty true = refl
face_empty false = refl

batches-Sent :
    (out_key : ℕ) (batches : List (List (List ℕ))) (cur : Bool)
    → Fitting batches
    → Sent (run_batches out_key batches (empty_faces cur)) (written batches)
unfolding run_batches
batches-Sent out_key [] cur h = unfold Sent in ([], empty_faces cur, refl, refl)
batches-Sent out_key (pieces ∷ more) cur ((full, fits), h) =
    let empty = empty_faces cur in
    let small : length (face empty cur) + length (joined pieces) ≤ ping_pong_size =
      omega (arith, fits, ap length (face_empty cur)) in
    let done : write_all pieces empty ≡ some (set_face empty cur (joined pieces)) =
      write_all_lem pieces empty full small
      ∙ ap (λ ys. some (set_face empty cur (ys ++ joined pieces))) (face_empty cur) in
    rw (run_batches, done, reader_round_lem out_key cur (joined pieces) (omega (arith, fits)))
      (prepend-Sent out_key (joined pieces) (run_batches out_key more (empty_faces (not cur)))
        (written more) (batches-Sent out_key more (not cur) h))

-- From two empty faces, batches of writes, each with no empty piece and together no larger than a
-- face, each followed by a round of the agent with a publish callback: every write succeeds, and
-- what the agent publishes is all the bytes that were written, in order, each once.
pub run_batches-published :
    (out_key : ℕ) (batches : List (List (List ℕ))) (cur : Bool)
    → Fitting batches
    → (msgs : List (ℕ × List ℕ)) × (b : PingPongBuffer) × (run_batches out_key batches
          (empty_faces cur)
        ≡ some (msgs, b))
      × (published msgs ≡ written batches)
unfolding Sent
run_batches-published out_key batches cur h = batches-Sent out_key batches cur h
