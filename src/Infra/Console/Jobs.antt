-- ===== src/Infra/Console/Jobs.antt =====
-- Jobs and queue of infrastructure/src/console.cpp, under each of the operations on them.
use dts_framework.Common.{
  if◌then◌else◌, contains, contains-append, contains-last, ℕ, zero, suc, ◌<◌, ◌≡◌, ◌⊎◌, refl, sym,
  ap, ◌∙◌, Bool, true, false, ◌||◌, Option, none, some, List, [], ◌∷◌, ◌++◌, arith, ltb, ◌==◌,
  ==_refl, ==_ne, length, length-append, get_or, set, length-set, get_or-set_self, get_or-set_ne,
  Text, codes, is_nil, Bool-cases, inl, inr,
}
use native.Mathlib.Decide.{dec_lt, ℕ_discrete}
use dts_framework.Infra.Console.{
  max_line_len, Job, Control, no_job, job_at, push_job, submit_dds, publish_resp, finish,
  answer_all, control_stop, control_round, round_at, take_job, take_at,
}

-- Every job that is not answered is in the queue.
abbrev pub IsTracked : Control → Type 0
IsTracked m = (i : ℕ) → i < length m.jobs → (job_at m i).done ≡ false → contains i m.queue ≡ true

pub get_or-append_left :
    (xs ys : List Job) (i : ℕ) (d : Job) → i < length xs → get_or (xs ++ ys) i d ≡ get_or xs i d
get_or-append_left [] ys i d h = absurd (omega arith)
get_or-append_left (x ∷ xs) ys zero d h = refl
get_or-append_left (x ∷ xs) ys (suc i) d h = get_or-append_left xs ys i d (omega arith)

pub get_or_last : (xs : List Job) (x d : Job) → get_or (xs ++ x ∷ []) (length xs) d ≡ x
get_or_last [] x d = refl
get_or_last (y ∷ xs) x d = get_or_last xs x d

pub push-IsTracked : (m : Control) (job : Job) → IsTracked m → IsTracked (push_job m job)
unfolding push_job
push-IsTracked m job v i low open_job = elim (dec_lt i (length m.jobs)) [
  | yes old ↦
      let at : (job_at m i).done ≡ false =
        rw (get_or-append_left m.jobs (job ∷ []) i no_job old) at open_job in
      rw (contains-append i m.queue (length m.jobs ∷ []), v i old at)
  | no new ↦
      let e : i ≡ length m.jobs = omega (arith, length-append m.jobs (job ∷ [])) in
      rw e (contains-last m.queue (length m.jobs))
]

publish-same :
    (m : Control) (line out : Text)
    → ((publish_resp m line out).jobs ≡ m.jobs) × ((publish_resp m line out).queue ≡ m.queue)
unfolding publish_resp
publish-same m line out = ground arith

pub finish-same :
    (m : Control) (i : ℕ) (rest : List ℕ) (resp : Text)
    → ((finish m i rest resp).jobs
        ≡ set m.jobs i (record (job_at m i) { resp = resp; done = true }))
      × ((finish m i rest resp).queue ≡ rest)
      × ((finish m i rest resp).stop ≡ m.stop)
      × ((finish m i rest resp).exited ≡ m.exited)
unfolding finish publish_resp
finish-same m i rest resp = ground arith

-- A write of an answered job to place `i`.
pub set-done :
    (jobs : List Job) (i k : ℕ) (job : Job)
    → job.done ≡ true
    → k < length jobs
    → (get_or (set jobs i job) k no_job).done ≡ ((i == k) || (get_or jobs k no_job).done)
set-done jobs i k job d low = elim (ℕ_discrete i k) [
  | yes e ↦ rw (e, ==_refl k) (ap (λ j. j.done) (get_or-set_self jobs k job no_job low) ∙ d)
  | no ne ↦ rw (==_ne i k ne) (ap (λ j. j.done) (get_or-set_ne jobs i k job no_job ne))
]

pub ||-false : (a b : Bool) → (a || b) ≡ false → (a ≡ false) × (b ≡ false)
||-false true b h = absurd (cc)
||-false false b h = (refl, h)

pub answered-IsTracked :
    (m m' : Control) (i : ℕ) (rest : List ℕ) (resp : Text)
    → m.queue ≡ i ∷ rest
    → m'.jobs ≡ set m.jobs i (record (job_at m i) { resp = resp; done = true })
    → m'.queue ≡ rest
    → IsTracked m
    → IsTracked m'
unfolding contains
answered-IsTracked m m' i rest resp q js qs v k low open_job =
    let done : Job = record (job_at m i) { resp = resp; done = true } in
    let low' : k < length m.jobs = omega (arith, ap length js, length-set m.jobs i done, low) in
    let still : (get_or (set m.jobs i done) k no_job).done ≡ false =
      ap (λ js'. (get_or js' k no_job).done) (sym js) ∙ open_job in
    let (other, before) =
      ||-false (i == k) (job_at m k).done (sym (set-done m.jobs i k done refl low') ∙ still) in
    let queued : contains k (i ∷ rest) ≡ true = sym (ap (contains k) q) ∙ v k low' before in
    ap (contains k) qs ∙ rw other at queued

-- The jobs that `control_stop` answers.
pub answer_all-done :
    (q : List ℕ) (jobs : List Job) (k : ℕ)
    → k < length jobs
    → (contains k q ≡ true) ⊎ ((get_or jobs k no_job).done ≡ true)
    → (get_or (answer_all q jobs) k no_job).done ≡ true
unfolding answer_all contains
answer_all-done [] jobs k low (inl h) = absurd (cc)
answer_all-done [] jobs k low (inr h) = h
answer_all-done (i ∷ is) jobs k low h =
    let job : Job = record (get_or jobs i no_job) { resp = codes "control stopped"; done = true } in
    let low' : k < length (set jobs i job) = omega (arith, length-set jobs i job, low) in
    let here : (get_or (set jobs i job) k no_job).done ≡ ((i == k) || (get_or jobs k no_job).done) =
      set-done jobs i k job refl low in
    elim (Bool-cases (i == k)) [
      | inl e ↦ answer_all-done is (set jobs i job) k low' (inr (here ∙ rw e))
      | inr e ↦ elim h [
        | inl q ↦ answer_all-done is (set jobs i job) k low' (inl (rw e at q))
        | inr d ↦ answer_all-done is (set jobs i job) k low' (inr (here ∙ rw (e, d)))
      ]
    ]

pub length-answer_all : (q : List ℕ) (jobs : List Job) → length (answer_all q jobs) ≡ length jobs
unfolding answer_all
length-answer_all [] jobs = refl
length-answer_all (i ∷ is) jobs =
    length-answer_all is
      (set jobs i (record (get_or jobs i no_job) { resp = codes "control stopped"; done = true }))
    ∙ length-set jobs i _

pub stop-IsTracked : (m : Control) → IsTracked m → IsTracked (control_stop m)
unfolding control_stop
stop-IsTracked m v i low open_job =
    let low' : i < length m.jobs = omega (arith, length-answer_all m.queue m.jobs, low) in
    let settled : (contains i m.queue ≡ true) ⊎ ((job_at m i).done ≡ true) =
      elim (Bool-cases (job_at m i).done) [ inl d ↦ inr d | inr d ↦ inl (v i low' d) ] in
    let done : (get_or (answer_all m.queue m.jobs) i no_job).done ≡ true =
      answer_all-done m.queue m.jobs i low' settled in
    absurd (cc)

pub submit-IsTracked :
    (m : Control) (payload : Option (List ℕ)) → IsTracked m → IsTracked (submit_dds m payload).1
unfolding submit_dds
submit-IsTracked m none v = v
submit-IsTracked m (some bytes) v =
    elim (Bool-cases (is_nil bytes || ltb max_line_len (length bytes) || m.stop)) [
      | inl e ↦ rw e v
      | inr e ↦ rw e (push-IsTracked m _ v)
    ]

pub submit-stopped :
    (m : Control) (payload : Option (List ℕ)) → m.stop ≡ true → (submit_dds m payload).1 ≡ m
unfolding submit_dds
submit-stopped m none st = refl
submit-stopped m (some bytes) st =
    elim (Bool-cases (is_nil bytes || ltb max_line_len (length bytes))) [
      | inl e ↦ rw e
      | inr e ↦ rw (e, st)
    ]

pub submit-cases :
    (m : Control) (payload : Option (List ℕ)) (P : Control → Type 0)
    → P m
    → ((job : Job) → job.done ≡ false → P (push_job m job))
    → P (submit_dds m payload).1
unfolding submit_dds
submit-cases m none P kept pushed = kept
submit-cases m (some bytes) P kept pushed =
    elim (Bool-cases (is_nil bytes || ltb max_line_len (length bytes) || m.stop)) [
      | inl e ↦ rw e kept
      | inr e ↦ rw e (pushed _ refl)
    ]

module _ {S : Type 0} (exec : Text → Text → S → Text × S) (m : Control) (s : S) where
  pub control_round_on : m.exited ≡ false → control_round exec m s ≡ round_at exec m s m.queue
  unfolding control_round
  control_round_on on = ap (λ b. if b then (m, s) else round_at exec m s m.queue) on

  pub control_round_off : m.exited ≡ true → control_round exec m s ≡ (m, s)
  unfolding control_round
  control_round_off off = ap (λ b. if b then (m, s) else round_at exec m s m.queue) off

pub take_job_on : (m : Control) → m.exited ≡ false → take_job m ≡ take_at m m.queue
unfolding take_job
take_job_on m on = ap (λ b. if b then (none, m) else take_at m m.queue) on

pub take_job_off : (m : Control) → m.exited ≡ true → take_job m ≡ (none, m)
unfolding take_job
take_job_off m off = ap (λ b. if b then (none, m) else take_at m m.queue) off
