-- ===== src/Infra/Console/Steps.antt =====
-- The threads of infrastructure/src/console.cpp between the locks: `control_stop` and new jobs may
-- come in while the control thread executes one.
use dts_framework.Common.{
  contains, ℕ, ◌<◌, ◌≡◌, ◌≢◌, refl, sym, ap, ◌∙◌, true, false, Option, none, some, List, [], ◌∷◌,
  arith, length, length-append, get_or, set, length-set, get_or-set_ne, Text, Bool-cases, inl, inr,
}
use dts_framework.Infra.Console.{
  Job, Control, no_job, job_at, push_job, submit_dds, finish, control_stop, take_at, take_job,
  answer_job, control_round, round_at,
}
use dts_framework.Infra.Console.Jobs.{
  submit-cases, take_job_on, take_job_off, control_round_on, control_round_off, get_or-append_left,
  finish-same, length-answer_all,
}
use dts_framework.Infra.Console.Places.{
  OnePlace, push-OnePlace, taken-OnePlace, answered-OnePlace, answer_all-other, stop-OnePlace,
}

-- The jobs, the job that the control thread executes, and what the commands work on.
pub record Threads (S : Type 0) : Type 0 where
  pub control : Control
  pub busy : Option ℕ
  pub state : S

-- What was answered stays as it is.
abbrev pub Stays : Control → Control → Type 0
Stays m m' =
    (i : ℕ)
    → i < length m.jobs
    → (job_at m i).done ≡ true
    → (i < length m'.jobs) × (job_at m' i ≡ job_at m i)

push-Stays : (m : Control) (job : Job) → Stays m (push_job m job)
unfolding push_job
push-Stays m job i low done = (
  omega (arith, length-append m.jobs (job ∷ [])),
  get_or-append_left m.jobs (job ∷ []) i no_job low,
)

take-OnePlace : (m : Control) → OnePlace m none → let t = take_job m in OnePlace t.1 t.0
unfolding take_job take_at
take-OnePlace m v = elim (Bool-cases m.exited) [
  | inl e ↦ rw (take_job_off m e) v
  | inr e ↦ rw (take_job_on m e) (take_at-OnePlace m m.queue refl v)
]
  where
    take_at-OnePlace :
        (m : Control) (q : List ℕ)
        → m.queue ≡ q
        → OnePlace m none
        → let t = take_at m q in OnePlace t.1 t.0
    take_at-OnePlace m [] e v = record {
      placed = v.placed;
      queued = v.queued;
      held = v.held;
      once = v.once;
    }
    take_at-OnePlace m (i ∷ rest) e v = taken-OnePlace m i rest e v

take-jobs : (m : Control) (q : List ℕ) → (take_at m q).1.jobs ≡ m.jobs
unfolding take_at
take-jobs m [] = refl
take-jobs m (i ∷ rest) = refl

answer-Stays :
    (m m' : Control) (i : ℕ) (job : Job)
    → m'.jobs ≡ set m.jobs i job
    → (job_at m i).done ≡ false
    → Stays m m'
answer-Stays m m' i job js open_job k low done = (
  omega (arith, ap length js, length-set m.jobs i job),
  ap (λ js'. get_or js' k no_job) js ∙ get_or-set_ne m.jobs i k job no_job other,
)
  where
    other : i ≢ k
    other e =
        let bad : (job_at m k).done ≡ false = ap (λ n. (job_at m n).done) (sym e) ∙ open_job in
        absurd (cc)

stop-Stays : (m : Control) (busy : Option ℕ) → OnePlace m busy → Stays m (control_stop m)
unfolding control_stop
stop-Stays m busy v i low done =
    (omega (arith, length-answer_all m.queue m.jobs), answer_all-other m.queue m.jobs i out)
  where
    out : contains i m.queue ≡ false
    out = elim (Bool-cases (contains i m.queue)) [
      | inr e ↦ e
      | inl e ↦ let (_, open_job) = v.queued i e in absurd (cc)
    ]

module _ {S : Type 0} (exec : Text → Text → S → Text × S) where
  abbrev pub in_parts : S → Option ℕ × Control → Control × S
  in_parts s t = elim t.0 as (λ _. Control × S) [
    | none ↦ (t.1, s)
    | some i ↦ answer_job exec t.1 s i
  ]

  round_at-parts :
      (m : Control) (s : S) (q : List ℕ) → round_at exec m s q ≡ in_parts s (take_at m q)
  unfolding round_at take_at answer_job finish
  round_at-parts m s [] = refl
  round_at-parts m s (i ∷ rest) = refl

  -- A round of the control thread that nothing comes between is its two parts.
  pub control_round-parts : (m : Control) (s : S) → control_round exec m s ≡ in_parts s (take_job m)
  control_round-parts m s = elim (Bool-cases m.exited) [
    | inl e ↦ control_round_off exec m s e ∙ ap (in_parts s) (sym (take_job_off m e))
    | inr e ↦
        control_round_on exec m s e
        ∙ round_at-parts m s m.queue
        ∙ ap (in_parts s) (sym (take_job_on m e))
  ]

  pub data Step : Threads S → Threads S → Type 0 where
    push_step :
        (m : Control) (busy : Option ℕ) (s : S) (line : Text)
        → Step
            (record { control = m; busy = busy; state = s })
            (record {
              control = push_job m (record { line = line; resp = []; done = false; dds = false });
              busy = busy;
              state = s;
            })
    submit_step :
        (m : Control) (busy : Option ℕ) (s : S) (payload : Option (List ℕ))
        → Step
            (record { control = m; busy = busy; state = s })
            (record { control = (submit_dds m payload).1; busy = busy; state = s })
    take_step :
        (m : Control) (s : S)
        → m.exited ≡ false
        → Step
            (record { control = m; busy = none; state = s })
            (record { control = (take_job m).1; busy = (take_job m).0; state = s })
    answer_step :
        (m : Control) (s : S) (i : ℕ)
        → Step
            (record { control = m; busy = some i; state = s })
            (record {
              control = (answer_job exec m s i).0;
              busy = none;
              state = (answer_job exec m s i).1;
            })
    stop_step :
        (m : Control) (busy : Option ℕ) (s : S)
        → Step
            (record { control = m; busy = busy; state = s })
            (record { control = control_stop m; busy = busy; state = s })

  pub data Reach (c : Threads S) : Threads S → Type 0 where
    here : Reach c c
    next : {d e : Threads S} → Reach c d → Step d e → Reach c e

  Step-kept :
      {c d : Threads S}
      → Step c d
      → OnePlace c.control c.busy
      → OnePlace d.control d.busy × Stays c.control d.control
  unfolding take_job answer_job
  Step-kept (push_step m busy s line) v = (push-OnePlace m busy _ refl v, push-Stays m _)
  Step-kept (submit_step m busy s payload) v =
      submit-cases m payload (λ m'. OnePlace m' busy × Stays m m') (v, λ i low done. (low, refl))
        (λ job fresh. (push-OnePlace m busy job fresh v, push-Stays m job))
  Step-kept (take_step m s on) v = (
    take-OnePlace m v,
    λ i low done.
        let js : (take_job m).1.jobs ≡ m.jobs =
          ap (λ t. t.1.jobs) (take_job_on m on) ∙ take-jobs m m.queue in
        (omega (arith, ap length js), ap (λ js'. get_or js' i no_job) js),
  )
  Step-kept (answer_step m s i) v =
      let resp = (exec (job_at m i).line (job_at m i).resp s).0 in
      let (js, qs, _, _) = finish-same m i m.queue resp in
      let (_, open_job, _) = v.held i refl in
      (
        answered-OnePlace m (finish m i m.queue resp) i resp js qs v,
        answer-Stays m (finish m i m.queue resp) i _ js open_job,
      )
  Step-kept (stop_step m busy s) v = (stop-OnePlace m busy v, stop-Stays m busy v)

  -- Whatever steps sessions, the DDS channel, the control thread (which takes a job under the lock
  -- and executes it without) and `control_stop` take, in any order: every unanswered job is in one
  -- place, once in the queue or with the control thread, where this holds at the start; and what was
  -- answered is never changed.
  pub Reach-OnePlace :
      {c d : Threads S}
      → Reach c d
      → OnePlace c.control c.busy
      → OnePlace d.control d.busy × Stays c.control d.control
  Reach-OnePlace here v = (v, λ i low done. (low, refl))
  Reach-OnePlace (next r st) v =
      let (w, stays) = Reach-OnePlace r v in
      let (w', stays') = Step-kept st w in
      (
        w',
        λ i low done.
            let (low', same) = stays i low done in
            let (low'', same') = stays' i low' (ap (λ j. j.done) same ∙ done) in
            (low'', same' ∙ same),
      )
