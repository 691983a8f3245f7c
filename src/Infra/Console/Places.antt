-- ===== src/Infra/Console/Places.antt =====
-- Where the jobs of infrastructure/src/console.cpp are, while the control thread executes one.
use dts_framework.Common.{
  contains, contains-append, contains-last, ℕ, ◌<◌, ◌≡◌, ◌≢◌, ◌⊎◌, refl, sym, ap, ◌∙◌, Bool, true,
  false, ◌||◌, Option, none, some, List, [], ◌∷◌, ◌++◌, arith, ◌==◌, ==_refl, ==_ne, ==_iff, length,
  length-append, get_or, set, length-set, get_or-set_ne, Text, Bool-cases, inl, inr,
}
use native.Mathlib.Decide.{dec_lt}
use dts_framework.Infra.Console.{Job, Control, no_job, job_at, push_job, answer_all, control_stop}
use dts_framework.Infra.Console.Jobs.{
  get_or-append_left, get_or_last, answer_all-done, length-answer_all, set-done, ||-false,
}

abbrev pub NoRepeat : List ℕ → Type 0
NoRepeat [] = Unit {0}
NoRepeat (i ∷ is) = (contains i is ≡ false) × NoRepeat is

-- Each unanswered job is in one place: once in the queue, or with the control thread.
pub record OnePlace (m : Control) (busy : Option ℕ) : Type 0 where
  pub placed :
      (i : ℕ)
      → i < length m.jobs
      → (job_at m i).done ≡ false
      → (contains i m.queue ≡ true) ⊎ (busy ≡ some i)
  pub queued :
      (i : ℕ) → contains i m.queue ≡ true → (i < length m.jobs) × ((job_at m i).done ≡ false)
  pub held :
      (i : ℕ)
      → busy ≡ some i
      → (i < length m.jobs) × ((job_at m i).done ≡ false) × (contains i m.queue ≡ false)
  pub once : NoRepeat m.queue

not_last : (i x : ℕ) → (x == i) ≡ false → contains x (i ∷ []) ≡ false
unfolding contains
not_last i x e = ground arith

NoRepeat-append :
    (xs : List ℕ) (i : ℕ) → contains i xs ≡ false → NoRepeat xs → NoRepeat (xs ++ i ∷ [])
unfolding contains
NoRepeat-append [] i h v = (refl, tt)
NoRepeat-append (x ∷ xs) i h (here, v) =
    let (other, rest) = ||-false (x == i) (contains i xs) h in
    (rw (contains-append x xs (i ∷ []), here) (not_last i x other), NoRepeat-append xs i rest v)

last_only : (i n : ℕ) → contains i (n ∷ []) ≡ true → i ≡ n
unfolding contains
last_only i n h = ground arith

pub push-OnePlace :
    (m : Control) (busy : Option ℕ) (job : Job)
    → job.done ≡ false
    → OnePlace m busy
    → OnePlace (push_job m job) busy
unfolding push_job
push-OnePlace m busy job fresh v = record {
  placed = λ i low open_job. elim (dec_lt i (length m.jobs)) [
    | no new ↦
        let e : i ≡ length m.jobs = omega (arith, length-append m.jobs (job ∷ [])) in
        inl (rw e (contains-last m.queue (length m.jobs)))
    | yes old ↦
        elim (v.placed i old (rw (get_or-append_left m.jobs (job ∷ []) i no_job old) at open_job)) [
          | inl q ↦ inl (rw (contains-append i m.queue (length m.jobs ∷ []), q))
          | inr b ↦ inr b
        ]
  ];
  queued = λ i h. elim (Bool-cases (contains i m.queue)) [
    | inl q ↦ grown i (v.queued i q)
    | inr q ↦
        newest i (
          last_only i (length m.jobs) (rw (contains-append i m.queue (length m.jobs ∷ []), q) at h))
  ];
  held = λ i b.
      let (low, open_job, out) = v.held i b in
      let (low', open') = grown i (low, open_job) in
      (
        low',
        open',
        rw (contains-append i m.queue (length m.jobs ∷ []), out)
            (not_last (length m.jobs) i (==_ne i (length m.jobs) (omega arith))),
      );
  once = NoRepeat-append m.queue (length m.jobs) unused v.once;
}
  where
    grown :
        (i : ℕ)
        → (i < length m.jobs) × ((job_at m i).done ≡ false)
        → (i < length (m.jobs ++ job ∷ [])) × ((get_or (m.jobs ++ job ∷ []) i no_job).done ≡ false)
    grown i (low, open_job) = (
      omega (arith, length-append m.jobs (job ∷ [])),
      rw (get_or-append_left m.jobs (job ∷ []) i no_job low) open_job,
    )

    newest :
        (i : ℕ)
        → i ≡ length m.jobs
        → (i < length (m.jobs ++ job ∷ [])) × ((get_or (m.jobs ++ job ∷ []) i no_job).done ≡ false)
    newest i e = (
      omega (arith, length-append m.jobs (job ∷ [])),
      rw (e, get_or_last m.jobs job no_job) fresh,
    )

    unused : contains (length m.jobs) m.queue ≡ false
    unused = elim (Bool-cases (contains (length m.jobs) m.queue)) [
      | inr e ↦ e
      | inl e ↦ let (low, _) = v.queued (length m.jobs) e in absurd (omega (arith, low))
    ]

pub taken-OnePlace :
    (m : Control) (i : ℕ) (rest : List ℕ)
    → m.queue ≡ i ∷ rest
    → OnePlace m none
    → OnePlace (record m { queue = rest }) (some i)
unfolding contains
taken-OnePlace m i rest q v = record {
  placed = λ k low open_job. elim (v.placed k low open_job) [
    | inr b ↦ absurd (cc)
    | inl h ↦ elim (Bool-cases (i == k)) [
      | inl e ↦ inr (ap some ((==_iff i k).0 e))
      | inr e ↦ inl (rw (q, e) at h)
    ]
  ];
  queued = λ k h. v.queued k (rw q (later i k rest h));
  held = λ k b.
      let e : i ≡ k = cc in
      let (low, open_job) = v.queued i (rw (q, ==_refl i)) in
      rw (← e) (low, open_job, (rw q at v.once).0);
  once = (rw q at v.once).1;
}
  where
    later : (a b : ℕ) (xs : List ℕ) → contains b xs ≡ true → ((a == b) || contains b xs) ≡ true
    later a b xs h = ground arith

pub answered-OnePlace :
    (m m' : Control) (i : ℕ) (resp : Text)
    → m'.jobs ≡ set m.jobs i (record (job_at m i) { resp = resp; done = true })
    → m'.queue ≡ m.queue
    → OnePlace m (some i)
    → OnePlace m' none
answered-OnePlace m m' i resp js qs v = record {
  placed = λ k low open_job.
      let low' = size k low in
      let (other, before) =
        ||-false (i == k) (job_at m k).done
          (sym (set-done m.jobs i k done refl low') ∙ at k ∙ open_job) in
      elim (v.placed k low' before) [
        | inl h ↦ inl (ap (contains k) qs ∙ h)
        | inr b ↦ let bad : (i == k) ≡ true = same_key i k b in absurd (cc)
      ];
  queued = λ k h.
      let h' : contains k m.queue ≡ true = sym (ap (contains k) qs) ∙ h in
      let (low, open_job) = v.queued k h' in
      (
        omega (arith, ap length js, length-set m.jobs i done, low),
        sym (at k)
            ∙ ap (λ j. j.done) (get_or-set_ne m.jobs i k done no_job (λ e. out k h' e))
            ∙ open_job,
      );
  held = λ k b. absurd (cc);
  once = rw qs v.once;
}
  where
    done : Job
    done = record (job_at m i) { resp = resp; done = true }

    size : (k : ℕ) → k < length m'.jobs → k < length m.jobs
    size k low = omega (arith, ap length js, length-set m.jobs i done)

    at : (k : ℕ) → (get_or (set m.jobs i done) k no_job).done ≡ (job_at m' k).done
    at k = ap (λ js'. (get_or js' k no_job).done) (sym js)

    same_key : (a b : ℕ) → some a ≡ some b → (a == b) ≡ true
    same_key a b e = let f : a ≡ b = cc in rw f (==_refl b)

    out : (k : ℕ) → contains k m.queue ≡ true → i ≡ k → ⊥
    out k h e =
        let (_, _, free) = v.held i refl in
        let bad : contains k m.queue ≡ false = ap (λ n. contains n m.queue) (sym e) ∙ free in
        absurd (cc)

pub answer_all-other :
    (q : List ℕ) (jobs : List Job) (k : ℕ)
    → contains k q ≡ false
    → get_or (answer_all q jobs) k no_job ≡ get_or jobs k no_job
unfolding answer_all contains
answer_all-other [] jobs k h = refl
answer_all-other (i ∷ is) jobs k h =
    let (other, rest) = ||-false (i == k) (contains k is) h in
    answer_all-other is _ k rest ∙ get_or-set_ne jobs i k _ no_job (λ e. differ i k other e)
  where
    differ : (a b : ℕ) → (a == b) ≡ false → a ≢ b
    differ a b e h = ground arith

pub stop-OnePlace :
    (m : Control) (busy : Option ℕ) → OnePlace m busy → OnePlace (control_stop m) busy
unfolding control_stop contains
stop-OnePlace m busy v = record {
  placed = λ i low open_job. elim (Bool-cases (contains i m.queue || (job_at m i).done)) [
    | inl settled ↦
        let done : (get_or (answer_all m.queue m.jobs) i no_job).done ≡ true =
          answer_all-done m.queue m.jobs i (size i low) (either _ _ settled) in
        absurd (cc)
    | inr other ↦
        let (out, before) = ||-false (contains i m.queue) (job_at m i).done other in
        elim (v.placed i (size i low) before) [ inl q ↦ absurd (cc) | inr b ↦ inr b ]
  ];
  queued = λ i h. absurd (cc);
  held = λ i b.
      let (low, open_job, out) = v.held i b in
      (
        omega (arith, length-answer_all m.queue m.jobs, low),
        ap (λ j. j.done) (answer_all-other m.queue m.jobs i out) ∙ open_job,
        refl,
      );
  once = tt;
}
  where
    size : (i : ℕ) → i < length (answer_all m.queue m.jobs) → i < length m.jobs
    size i low = omega (arith, length-answer_all m.queue m.jobs)

    either : (a b : Bool) → (a || b) ≡ true → (a ≡ true) ⊎ (b ≡ true)
    either true b h = inl refl
    either false b h = inr h
