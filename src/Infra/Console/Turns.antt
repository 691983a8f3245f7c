-- ===== src/Infra/Console/Turns.antt =====
-- How long a job waits in the queue of infrastructure/src/console.cpp.
use dts_framework.Common.{
  contains, contains-append, ℕ, suc, ◌+◌, ◌<◌, ◌≤◌, ◌≡◌, ◌⊎◌, refl, ap, ◌∙◌, true, false, ◌||◌,
  Option, List, [], ◌∷◌, ◌++◌, append_assoc, arith, ◌==◌, ==_refl, length, length-append,
  length-set, get_or, Text, Bool-cases, inl, inr,
}
use dts_framework.Infra.Console.{
  Job, Control, no_job, job_at, push_job, submit_dds, finish, control_stop, control_round, round_at,
}
use dts_framework.Infra.Console.Jobs.{
  get_or-append_left, finish-same, set-done, answer_all-done, length-answer_all, submit-cases,
  control_round_on, control_round_off,
}

-- A job is answered, or it waits behind `k - n` others for a thread that is in its loop.
data Turn (i k n : ℕ) (m : Control) : Type 0 where
  waiting :
      (pre post : List ℕ)
      → m.queue ≡ pre ++ i ∷ post
      → length pre + n ≡ k
      → m.exited ≡ false
      → i < length m.jobs
      → Turn i k n m
  answered : i < length m.jobs → (job_at m i).done ≡ true → Turn i k n m

push-Turn : (i k n : ℕ) (m : Control) (job : Job) → Turn i k n m → Turn i k n (push_job m job)
unfolding push_job
push-Turn i k n m job (waiting pre post q e on low) =
    waiting pre (post ++ length m.jobs ∷ [])
      (ap (λ is. is ++ length m.jobs ∷ []) q ∙ append_assoc pre (i ∷ post) (length m.jobs ∷ [])) e
      on (omega (arith, length-append m.jobs (job ∷ [])))
push-Turn i k n m job (answered low d) =
    answered (omega (arith, length-append m.jobs (job ∷ [])))
      (ap (λ j. j.done) (get_or-append_left m.jobs (job ∷ []) i no_job low) ∙ d)

in_middle : (pre post : List ℕ) (i : ℕ) → contains i (pre ++ i ∷ post) ≡ true
unfolding contains
in_middle pre post i = rw (contains-append i pre (i ∷ post), ==_refl i) (ground arith)

stop-Turn : (i k n : ℕ) (m : Control) → Turn i k n m → Turn i k n (control_stop m)
unfolding control_stop
stop-Turn i k n m (waiting pre post q e on low) =
    answered (omega (arith, length-answer_all m.queue m.jobs))
      (answer_all-done m.queue m.jobs i low (inl (ap (contains i) q ∙ in_middle pre post i)))
stop-Turn i k n m (answered low d) =
    answered (omega (arith, length-answer_all m.queue m.jobs))
      (answer_all-done m.queue m.jobs i low (inr d))

-- The answer to job `j`, and job `i`.
finish-answered :
    (m : Control) (i j : ℕ) (rest : List ℕ) (resp : Text)
    → i < length m.jobs
    → ((j == i) || (job_at m i).done) ≡ true
    → (i < length (finish m j rest resp).jobs) × ((job_at (finish m j rest resp) i).done ≡ true)
finish-answered m i j rest resp low h =
    let done : Job = record (job_at m j) { resp = resp; done = true } in
    let js = (finish-same m j rest resp).0 in
    (
      omega (arith, ap length js, length-set m.jobs j done),
      ap (λ js'. (get_or js' i no_job).done) js ∙ set-done m.jobs j i done refl low ∙ h,
    )

module _ {S : Type 0} (exec : Text → Text → S → Text × S) where
  front-Turn :
      (i k n : ℕ) (m : Control) (s : S) (pre post : List ℕ)
      → length pre + n ≡ k
      → m.exited ≡ false
      → i < length m.jobs
      → Turn i k (suc n) (round_at exec m s (pre ++ i ∷ post)).0
  unfolding round_at
  front-Turn i k n m s [] post e on low =
      let (low', d) =
        finish-answered m i i post (exec (job_at m i).line (job_at m i).resp s).0 low
          (rw (==_refl i)) in
      answered low' d
  front-Turn i k n m s (j ∷ pre) post e on low =
      let resp = (exec (job_at m j).line (job_at m j).resp s).0 in
      let (js, qs, _, ex) = finish-same m j (pre ++ i ∷ post) resp in
      waiting pre post qs (omega arith) (ex ∙ on) (
        omega (
          arith,
          ap length js,
          length-set m.jobs j (record (job_at m j) { resp = resp; done = true }),
        ))

  done-Turn :
      (i k n : ℕ) (m : Control) (s : S) (q : List ℕ)
      → i < length m.jobs
      → (job_at m i).done ≡ true
      → Turn i k n (round_at exec m s q).0
  unfolding round_at
  done-Turn i k n m s [] low d = answered low d
  done-Turn i k n m s (j ∷ rest) low d =
      let (low', d') =
        finish-answered m i j rest (exec (job_at m j).line (job_at m j).resp s).0 low
          (rw d (ground arith)) in
      answered low' d'

  round-Turn :
      (i k n : ℕ) (m : Control) (s : S) → Turn i k n m → Turn i k (suc n) (control_round exec m s).0
  round-Turn i k n m s (waiting pre post q e on low) =
      let step = control_round_on exec m s on ∙ ap (round_at exec m s) q in
      rw step (front-Turn i k n m s pre post e on low)
  round-Turn i k n m s (answered low d) = elim (Bool-cases m.exited) [
    | inl off ↦ rw (control_round_off exec m s off) (answered low d)
    | inr on ↦ rw (control_round_on exec m s on) (done-Turn i k (suc n) m s m.queue low d)
  ]

  -- What the threads do, with the number of rounds of the control thread; a round that starts after
  -- the end of its loop is none.
  pub data Run (c : Control × S) : ℕ → Control × S → Type 0 where
    here : Run c 0 c
    push_next :
        {n : ℕ} {m : Control} {s : S} (line : Text)
        → Run c n (m, s)
        → Run c n (push_job m (record { line = line; resp = []; done = false; dds = false }), s)
    submit_next :
        {n : ℕ} {m : Control} {s : S} (payload : Option (List ℕ))
        → Run c n (m, s)
        → Run c n ((submit_dds m payload).1, s)
    stop_next : {n : ℕ} {m : Control} {s : S} → Run c n (m, s) → Run c n (control_stop m, s)
    round_next :
        {n : ℕ} {m : Control} {s : S} → Run c n (m, s) → Run c (suc n) (control_round exec m s)

  Run-Turn :
      (i k : ℕ) {c : Control × S} {n : ℕ} {d : Control × S}
      → Run c n d
      → Turn i k 0 c.0
      → Turn i k n d.0
  Run-Turn i k here t = t
  Run-Turn i k (push_next {n} {m} line r) t = push-Turn i k n m _ (Run-Turn i k r t)
  Run-Turn i k (submit_next {n} {m} payload r) t =
      let now = Run-Turn i k r t in
      submit-cases m payload (Turn i k n) now (λ job fresh. push-Turn i k n m job now)
  Run-Turn i k (stop_next {n} {m} r) t = stop-Turn i k n m (Run-Turn i k r t)
  Run-Turn i k (round_next {n} {m} {s} r) t = round-Turn i k n m s (Run-Turn i k r t)

  -- A job in the queue, behind some others, while the control thread is in its loop: whatever
  -- sessions, the DDS channel and `control_stop` do between the rounds of that thread, the job is
  -- answered, or the thread is still in its loop and has taken at most as many rounds as jobs stood
  -- before it.
  pub queued-answered_in_turn :
      (m : Control) (s : S) (i : ℕ) (pre post : List ℕ) {n : ℕ} {d : Control × S}
      → m.exited ≡ false
      → i < length m.jobs
      → m.queue ≡ pre ++ i ∷ post
      → Run (m, s) n d
      → ((job_at d.0 i).done ≡ true) ⊎ ((d.0.exited ≡ false) × n ≤ length pre)
  queued-answered_in_turn m s i pre post {n} {d} on low q r =
      in_time (Run-Turn i (length pre) r (waiting pre post q (omega arith) on low))
    where
      in_time :
          Turn i (length pre) n d.0
          → ((job_at d.0 i).done ≡ true) ⊎ ((d.0.exited ≡ false) × n ≤ length pre)
      in_time (waiting pre' post' q' e on' low') = inr (on', omega arith)
      in_time (answered low' done) = inl done
