-- ===== src/Infra/Console/Threads.antt =====
-- The jobs of infrastructure/src/console.cpp under the steps of its threads.
use dts_framework.Common.{
  contains, ℕ, zero, suc, ◌<◌, ◌≡◌, refl, sym, ap, ◌∙◌, subst, true, false, Option, List, [], ◌∷◌,
  arith, length, length-append, Text, Bool-cases, inl, inr,
}
use dts_framework.Infra.Console.{
  Job, Control, no_job, job_at, push_job, submit_dds, finish, control_stop, control_round, round_at,
}
use dts_framework.Infra.Console.Jobs.{
  IsTracked, get_or-append_left, get_or_last, push-IsTracked, finish-same, answered-IsTracked,
  stop-IsTracked, control_round_on, control_round_off, submit-IsTracked, submit-stopped,
}

module _ {S : Type 0} (exec : Text → Text → S → Text × S) where
  round_at-IsTracked :
      (m : Control) (s : S) (q : List ℕ)
      → m.queue ≡ q
      → IsTracked m
      → IsTracked (round_at exec m s q).0
  unfolding round_at
  round_at-IsTracked m s [] e v = v
  round_at-IsTracked m s (i ∷ rest) e v =
      let resp : Text = (exec (job_at m i).line (job_at m i).resp s).0 in
      let (js, qs, _, _) = finish-same m i rest resp in
      answered-IsTracked m (finish m i rest resp) i rest resp e js qs v

  pub control_round-IsTracked :
      (m : Control) (s : S) → IsTracked m → IsTracked (control_round exec m s).0
  control_round-IsTracked m s v = elim (Bool-cases m.exited) [
    | inl off ↦ rw (control_round_off exec m s off) v
    | inr on ↦ rw (control_round_on exec m s on) (round_at-IsTracked m s m.queue refl v)
  ]

  -- What the threads do. `control_stop` is called once, when the process stops.
  pub data Step : Control × S → Control × S → Type 0 where
    push_step :
        (m : Control) (s : S) (line : Text)
        → Step (m, s) (push_job m (record { line = line; resp = []; done = false; dds = false }), s)
    submit_step :
        (m : Control) (s : S) (payload : Option (List ℕ))
        → Step (m, s) ((submit_dds m payload).1, s)
    control_step : (m : Control) (s : S) → m.exited ≡ false → Step (m, s) (control_round exec m s)
    stop_step : (m : Control) (s : S) → m.stop ≡ false → Step (m, s) (control_stop m, s)

  pub data Reach (c : Control × S) : Control × S → Type 0 where
    here : Reach c c
    next : {d e : Control × S} → Reach c d → Step d e → Reach c e

  Step-IsTracked : {c d : Control × S} → Step c d → IsTracked c.0 → IsTracked d.0
  unfolding control_round
  Step-IsTracked (push_step m s line) v = push-IsTracked m _ v
  Step-IsTracked (submit_step m s payload) v = submit-IsTracked m payload v
  Step-IsTracked (control_step m s on) v = control_round-IsTracked m s v
  Step-IsTracked (stop_step m s on) v = stop-IsTracked m v

  -- Whatever steps sessions, the DDS channel, the control thread and `control_stop` take, in any
  -- order, every job that is not answered stays in the queue, where this holds at the start.
  pub Reach-IsTracked : {c d : Control × S} → Reach c d → IsTracked c.0 → IsTracked d.0
  Reach-IsTracked here v = v
  Reach-IsTracked (next r st) v = Step-IsTracked st (Reach-IsTracked r v)

  -- `n` rounds of the control thread with no other thread between them.
  unfoldable pub rounds : ℕ → Control × S → Control × S
  rounds zero c = c
  rounds (suc n) c = rounds n (control_round exec c.0 c.1)

  pub drained :
      (q : List ℕ) (m : Control) (s : S)
      → m.queue ≡ q
      → m.exited ≡ false
      → IsTracked m
      → ((rounds (length q) (m, s)).0.queue ≡ []) × IsTracked (rounds (length q) (m, s)).0
  unfolding rounds control_round round_at
  drained [] m s e on v = (e, v)
  drained (i ∷ rest) m s e on v =
      let r : Text × S = exec (job_at m i).line (job_at m i).resp s in
      let m' : Control = finish m i rest r.0 in
      let (js, qs, _, ex) = finish-same m i rest r.0 in
      let step : control_round exec m s ≡ (m', r.1) =
        control_round_on exec m s on ∙ ap (round_at exec m s) e in
      subst (λ c. ((rounds (length rest) c).0.queue ≡ []) × IsTracked (rounds (length rest) c).0)
        (sym step) (drained rest m' r.1 qs (ex ∙ on) (answered-IsTracked m m' i rest r.0 e js qs v))

  -- From any state that the threads reach from a start where every unanswered job is in the queue, and
  -- in which the control thread has not left its loop, as many rounds of it as the queue is long answer
  -- every job.
  pub rounds_answer :
      {c : Control × S} (m : Control) (s : S) (i : ℕ)
      → IsTracked c.0
      → Reach c (m, s)
      → m.exited ≡ false
      → i < length (rounds (length m.queue) (m, s)).0.jobs
      → (job_at (rounds (length m.queue) (m, s)).0 i).done ≡ true
  unfolding contains
  rounds_answer m s i v r on low =
      let (empty, tracked) = drained m.queue m s refl on (Reach-IsTracked r v) in
      elim (Bool-cases (job_at (rounds (length m.queue) (m, s)).0 i).done) [
        | inl d ↦ d
        | inr d ↦
            let bad : contains i [] ≡ true = sym (ap (contains i) empty) ∙ tracked i low d in
            absurd (cc)
      ]

  -- A job that waits although the control thread is gone.
  Orphan : ℕ → Control → Type 0
  Orphan i m =
      (m.stop ≡ true) × (m.exited ≡ true) × (i < length m.jobs) × ((job_at m i).done ≡ false)

  push-Orphan : (i : ℕ) (m : Control) (job : Job) → Orphan i m → Orphan i (push_job m job)
  unfolding Orphan push_job
  push-Orphan i m job (st, ex, low, d) = (
    st,
    ex,
    omega (arith, length-append m.jobs (job ∷ [])),
    ap (λ j. j.done) (get_or-append_left m.jobs (job ∷ []) i no_job low) ∙ d,
  )

  Step-Orphan : (i : ℕ) {c d : Control × S} → Step c d → Orphan i c.0 → Orphan i d.0
  unfolding Orphan
  Step-Orphan i (push_step m s line) o = push-Orphan i m _ o
  Step-Orphan i (submit_step m s payload) o =
      subst (Orphan i) (sym (submit-stopped m payload o.0)) o
  Step-Orphan i (control_step m s on) o = let off : m.exited ≡ true = o.1 in absurd (cc)
  Step-Orphan i (stop_step m s on) o = let off : m.stop ≡ true = o.0 in absurd (cc)

  Reach-Orphan : (i : ℕ) {c d : Control × S} → Reach c d → Orphan i c.0 → Orphan i d.0
  Reach-Orphan i here o = o
  Reach-Orphan i (next r st) o = Step-Orphan i st (Reach-Orphan i r o)

  -- A job that is pushed after `control_stop` and the end of the control thread is never answered,
  -- whatever the threads do then.
  pub push_waits_forever :
      (m : Control) (s : S) (line : Text) {d : Control × S}
      → m.stop ≡ true
      → m.exited ≡ true
      → Reach (push_job m (record { line = line; resp = []; done = false; dds = false }), s) d
      → (job_at d.0 (length m.jobs)).done ≡ false
  unfolding Orphan push_job
  push_waits_forever m s line st ex r =
      let job : Job = record { line = line; resp = []; done = false; dds = false } in
      (Reach-Orphan (length m.jobs) r (
        st,
        ex,
        omega (arith, length-append m.jobs (job ∷ [])),
        ap (λ j. j.done) (get_or_last m.jobs job no_job),
      )).3
