-- ===== src/Infra/Console/Waits.antt =====
-- How many jobs of infrastructure/src/console.cpp wait for an answer.
use dts_framework.Common.{
  contains, ℕ, zero, suc, ◌+◌, ◌<◌, ◌≤◌, ◌≡◌, refl, ap, ◌∙◌, Bool, true, false, Option, List, [],
  ◌∷◌, ◌++◌, arith, length, get_or, set, Text, Bool-cases, inl, inr,
}
use dts_framework.Infra.Console.{
  Job, Control, no_job, job_at, push_job, submit_dds, control_stop, control_round, round_at,
  answer_all,
}
use dts_framework.Infra.Console.Jobs.{
  IsTracked, finish-same, stop-IsTracked, control_round_on, control_round_off, submit-stopped,
}
use dts_framework.Infra.Console.Threads.{rounds, drained}

abbrev pub one_if_open : Bool → ℕ
one_if_open true = 0
one_if_open false = 1

abbrev pub waits : List Job → ℕ
waits [] = 0
waits (job ∷ jobs) = one_if_open job.done + waits jobs

waits-append : (xs ys : List Job) → waits (xs ++ ys) ≡ waits xs + waits ys
waits-append [] ys = omega arith
waits-append (x ∷ xs) ys = omega (arith, waits-append xs ys)

waits-set :
    (jobs : List Job) (i : ℕ) (job : Job) → job.done ≡ true → waits (set jobs i job) ≤ waits jobs
waits-set [] i job d = omega arith
waits-set (x ∷ xs) zero job d = let e : one_if_open job.done ≡ 0 = ap one_if_open d in omega arith
waits-set (x ∷ xs) (suc i) job d = omega (arith, waits-set xs i job d)

pub waits-none :
    (jobs : List Job)
    → ((i : ℕ) → i < length jobs → (get_or jobs i no_job).done ≡ true)
    → waits jobs ≡ 0
waits-none [] all = refl
waits-none (x ∷ xs) all =
    let e : one_if_open x.done ≡ 0 = ap one_if_open (all 0 (omega arith)) in
    omega (arith, waits-none xs (λ i low. all (suc i) (omega arith)))

pub waits-stop : (m : Control) → IsTracked m → waits (control_stop m).jobs ≡ 0
unfolding control_stop contains
waits-stop m v = waits-none (answer_all m.queue m.jobs) answered
  where
    answered :
        (i : ℕ)
        → i < length (answer_all m.queue m.jobs)
        → (get_or (answer_all m.queue m.jobs) i no_job).done ≡ true
    answered i low = elim (Bool-cases (get_or (answer_all m.queue m.jobs) i no_job).done) [
      | inl d ↦ d
      | inr d ↦ let bad : false ≡ true = stop-IsTracked m v i low d in absurd (cc)
    ]

-- After `control_stop`, with at most `n` jobs that wait.
pub record AtMost (n : ℕ) (m : Control) : Type 0 where
  pub stopped : m.stop ≡ true
  pub few : waits m.jobs ≤ n

pub push-AtMost : (n : ℕ) (m : Control) (job : Job) → AtMost n m → AtMost (suc n) (push_job m job)
unfolding push_job
push-AtMost n m job v = record {
  stopped = v.stopped;
  few = omega (arith, waits-append m.jobs (job ∷ []), one job.done, v.few);
}
  where
    one : (b : Bool) → one_if_open b ≤ 1
    one true = omega arith
    one false = omega arith

pub submit-AtMost :
    (n : ℕ) (m : Control) (payload : Option (List ℕ))
    → AtMost n m
    → AtMost n (submit_dds m payload).1
submit-AtMost n m payload v = rw (submit-stopped m payload v.stopped) v

module _ {S : Type 0} (exec : Text → Text → S → Text × S) where
  round_at-AtMost :
      (n : ℕ) (m : Control) (s : S) (q : List ℕ) → AtMost n m → AtMost n (round_at exec m s q).0
  unfolding round_at
  round_at-AtMost n m s [] v = record { stopped = v.stopped; few = v.few }
  round_at-AtMost n m s (i ∷ rest) v =
      let resp = (exec (job_at m i).line (job_at m i).resp s).0 in
      let (js, _, st, _) = finish-same m i rest resp in
      record {
        stopped = st ∙ v.stopped;
        few = omega (
          arith,
          ap waits js,
          waits-set m.jobs i (record (job_at m i) { resp = resp; done = true }) refl,
          v.few,
        );
      }

  pub round-AtMost :
      (n : ℕ) (m : Control) (s : S) → AtMost n m → AtMost n (control_round exec m s).0
  round-AtMost n m s v = elim (Bool-cases m.exited) [
    | inl off ↦ rw (control_round_off exec m s off) v
    | inr on ↦ rw (control_round_on exec m s on) (round_at-AtMost n m s m.queue v)
  ]

  pub rounds-AtMost :
      (n k : ℕ) (m : Control) (s : S) → AtMost n m → AtMost n (rounds exec k (m, s)).0
  unfolding rounds
  rounds-AtMost n zero m s v = v
  rounds-AtMost n (suc k) m s v =
      let r = control_round exec m s in rounds-AtMost n k r.0 r.1 (round-AtMost n m s v)

  rounds_off :
      (k : ℕ) (m : Control) (s : S) → m.exited ≡ true → (rounds exec k (m, s)).0.exited ≡ true
  unfolding rounds
  rounds_off zero m s off = off
  rounds_off (suc k) m s off =
      ap (λ c. (rounds exec k c).0.exited) (control_round_off exec m s off) ∙ rounds_off k m s off

  round_last :
      (m : Control) (s : S)
      → m.queue ≡ []
      → m.stop ≡ true
      → (control_round exec m s).0.exited ≡ true
  unfolding round_at
  round_last m s e st = elim (Bool-cases m.exited) [
    | inl off ↦ ap (λ r. r.0.exited) (control_round_off exec m s off) ∙ off
    | inr on ↦ ap (λ r. r.0.exited) (control_round_on exec m s on ∙ ap (round_at exec m s) e) ∙ st
  ]

  -- After `control_stop`, the control thread leaves its loop when it has taken what is in the queue.
  pub rounds-exited :
      (n : ℕ) (m : Control) (s : S)
      → IsTracked m
      → AtMost n m
      → let left = rounds exec (length m.queue) (m, s) in
        (control_round exec left.0 left.1).0.exited ≡ true
  rounds-exited n m s t v =
      let left = rounds exec (length m.queue) (m, s) in
      elim (Bool-cases m.exited) [
        | inl off ↦
            let gone = rounds_off (length m.queue) m s off in
            ap (λ r. r.0.exited) (control_round_off exec left.0 left.1 gone) ∙ gone
        | inr on ↦
            let (empty, _) = drained exec m.queue m s refl on t in
            round_last left.0 left.1 empty (rounds-AtMost n (length m.queue) m s v).stopped
      ]
