-- ===== src/Boot/Events.antt =====
-- What the other threads leave alone while bootstrap/src/run.cpp waits or stops.
use dts_framework.Common.{
  ℕ, suc, ◌+◌, ◌≡◌, ◌⊎◌, refl, sym, ap, ◌∙◌, subst, Bool, true, false, List, [], ◌∷◌, arith, length,
  Text, Bool-cases, inl, inr, if◌then◌else◌,
}
use dts_framework.Data.Factory.{World}
use dts_framework.Infra.Console.{Job, Control, control_round, push_job}
use dts_framework.Infra.Console.Jobs.{
  IsTracked, push-IsTracked, submit-IsTracked, submit-cases, control_round_off,
}
use dts_framework.Infra.Console.Threads.{rounds, control_round-IsTracked}
use dts_framework.Infra.Console.Waits.{
  AtMost, push-AtMost, submit-AtMost, round-AtMost, rounds-AtMost, rounds-exited,
}
use dts_framework.Infra.Console.Server.{IsIdle, console_stop}
use dts_framework.Boot.{Process}
use dts_framework.Boot.Run.{
  Event, enter_event, line_event, leave_event, route_event, worker_event, control_event, stop_event,
  on_event, on_events, join_control,
}

-- The lines that sessions deliver.
abbrev pub lines : List Event → ℕ
lines [] = 0
lines (line_event line ∷ es) = suc (lines es)
lines (enter_event fd ∷ es) = lines es
lines (leave_event fd ∷ es) = lines es
lines (route_event payload ∷ es) = lines es
lines (worker_event w ∷ es) = lines es
lines (control_event ∷ es) = lines es
lines (stop_event ∷ es) = lines es

-- Whether a stop is requested.
abbrev pub asks : List Event → Bool
asks [] = false
asks (stop_event ∷ es) = true
asks (line_event line ∷ es) = asks es
asks (enter_event fd ∷ es) = asks es
asks (leave_event fd ∷ es) = asks es
asks (route_event payload ∷ es) = asks es
asks (worker_event w ∷ es) = asks es
asks (control_event ∷ es) = asks es

-- The parts of a process that only the main thread changes.
pub record Same (p q : Process) : Type 0 where
  pub task : q.task ≡ p.task
  pub data_ctx : q.data_ctx ≡ p.data_ctx
  pub log : q.log ≡ p.log
  pub server : IsIdle (console_stop p.server).1 → IsIdle (console_stop q.server).1

pub Same-trans : {p q r : Process} → Same p q → Same q r → Same p r
Same-trans a b = record {
  task = b.task ∙ a.task;
  data_ctx = b.data_ctx ∙ a.data_ctx;
  log = b.log ∙ a.log;
  server = λ h. b.server (a.server h);
}

-- The control thread is there, or has ended.
abbrev pub Joinable : Process → Type 0
Joinable p = (p.control_h ≡ true) ⊎ (p.control.exited ≡ true)

-- The end of the control thread.
pub record Joined (n : ℕ) (p q : Process) : Type 0 where
  pub same : Same p q
  pub gone : q.control_h ≡ false
  pub exited : q.control.exited ≡ true
  pub few : AtMost n q.control

module _ (exec : Text → Text → World → Text × World) where
  same_with : (p : Process) (m : Control) (w : World) → Same p (record p { control = m; world = w })
  same_with p m w = record { task = refl; data_ctx = refl; log = refl; server = λ h. h }

  event-Same : (e : Event) (p : Process) → Same p (on_event exec e p)
  unfolding on_event console_stop
  event-Same (enter_event fd) p = record {
    task = refl;
    data_ctx = refl;
    log = refl;
    server = λ h. h;
  }
  event-Same (line_event line) p = same_with p _ p.world
  event-Same (leave_event fd) p = record {
    task = refl;
    data_ctx = refl;
    log = refl;
    server = λ h. h;
  }
  event-Same (route_event payload) p = same_with p _ p.world
  event-Same (worker_event w) p = same_with p p.control w
  event-Same control_event p = same_with p _ _
  event-Same stop_event p = record { task = refl; data_ctx = refl; log = refl; server = λ h. h }

  pub events-Same : (es : List Event) (p : Process) → Same p (on_events exec es p)
  unfolding on_events
  events-Same [] p = record { task = refl; data_ctx = refl; log = refl; server = λ h. h }
  events-Same (e ∷ es) p = Same-trans (event-Same e p) (events-Same es (on_event exec e p))

  stopped_stays :
      (es : List Event) (p : Process) → p.stop ≡ true → (on_events exec es p).stop ≡ true
  unfolding on_events on_event
  stopped_stays [] p h = h
  stopped_stays (stop_event ∷ es) p h = stopped_stays es _ refl
  stopped_stays (line_event line ∷ es) p h = stopped_stays es _ h
  stopped_stays (enter_event fd ∷ es) p h = stopped_stays es _ h
  stopped_stays (leave_event fd ∷ es) p h = stopped_stays es _ h
  stopped_stays (route_event payload ∷ es) p h = stopped_stays es _ h
  stopped_stays (worker_event w ∷ es) p h = stopped_stays es _ h
  stopped_stays (control_event ∷ es) p h = stopped_stays es _ h

  -- A requested stop ends the wait.
  pub asked_stop :
      (es : List Event) (p : Process) → asks es ≡ true → (on_events exec es p).stop ≡ true
  unfolding on_events on_event
  asked_stop [] p h = absurd (cc)
  asked_stop (stop_event ∷ es) p h = stopped_stays es _ refl
  asked_stop (line_event line ∷ es) p h = asked_stop es _ h
  asked_stop (enter_event fd ∷ es) p h = asked_stop es _ h
  asked_stop (leave_event fd ∷ es) p h = asked_stop es _ h
  asked_stop (route_event payload ∷ es) p h = asked_stop es _ h
  asked_stop (worker_event w ∷ es) p h = asked_stop es _ h
  asked_stop (control_event ∷ es) p h = asked_stop es _ h

  event-IsTracked :
      (e : Event) (p : Process) → IsTracked p.control → IsTracked (on_event exec e p).control
  unfolding on_event
  event-IsTracked (enter_event fd) p v = v
  event-IsTracked (line_event line) p v = push-IsTracked p.control _ v
  event-IsTracked (leave_event fd) p v = v
  event-IsTracked (route_event payload) p v = submit-IsTracked p.control payload v
  event-IsTracked (worker_event w) p v = v
  event-IsTracked control_event p v = control_round-IsTracked exec p.control p.world v
  event-IsTracked stop_event p v = v

  pub events-IsTracked :
      (es : List Event) (p : Process)
      → IsTracked p.control
      → IsTracked (on_events exec es p).control
  unfolding on_events
  events-IsTracked [] p v = v
  events-IsTracked (e ∷ es) p v = events-IsTracked es (on_event exec e p) (event-IsTracked e p v)

  event-AtMost :
      (n : ℕ) (e : Event) (p : Process)
      → AtMost n p.control
      → AtMost (n + lines (e ∷ [])) (on_event exec e p).control
  unfolding on_event
  event-AtMost n (line_event line) p v =
      let one : suc n ≡ n + 1 = omega arith in
      let job : Job = record { line = line; resp = []; done = false; dds = false } in
      subst (λ k. AtMost k (push_job p.control job)) one (push-AtMost n p.control job v)
  event-AtMost n (enter_event fd) p v = let e : n + 0 ≡ n = omega arith in rw e v
  event-AtMost n (leave_event fd) p v = let e : n + 0 ≡ n = omega arith in rw e v
  event-AtMost n (route_event payload) p v =
      let e : n + 0 ≡ n = omega arith in rw e (submit-AtMost n p.control payload v)
  event-AtMost n (worker_event w) p v = let e : n + 0 ≡ n = omega arith in rw e v
  event-AtMost n control_event p v =
      let e : n + 0 ≡ n = omega arith in rw e (round-AtMost exec n p.control p.world v)
  event-AtMost n stop_event p v = let e : n + 0 ≡ n = omega arith in rw e v

  lines-cons :
      (n : ℕ) (e : Event) (es : List Event) → n + lines (e ∷ []) + lines es ≡ n + lines (e ∷ es)
  lines-cons n (line_event line) es = omega arith
  lines-cons n (enter_event fd) es = omega arith
  lines-cons n (leave_event fd) es = omega arith
  lines-cons n (route_event payload) es = omega arith
  lines-cons n (worker_event w) es = omega arith
  lines-cons n control_event es = omega arith
  lines-cons n stop_event es = omega arith

  pub events-AtMost :
      (n : ℕ) (es : List Event) (p : Process)
      → AtMost n p.control
      → AtMost (n + lines es) (on_events exec es p).control
  unfolding on_events
  events-AtMost n [] p v = let e : n + 0 ≡ n = omega arith in rw e v
  events-AtMost n (e ∷ es) p v =
      subst (λ k. AtMost k (on_events exec es (on_event exec e p)).control) (lines-cons n e es)
        (events-AtMost (n + lines (e ∷ [])) es (on_event exec e p) (event-AtMost n e p v))

  -- What has ended stays ended, and the handle of the control thread stays.
  event-exited :
      (e : Event) (p : Process)
      → ((on_event exec e p).control_h ≡ p.control_h)
        × (p.control.exited ≡ true → (on_event exec e p).control.exited ≡ true)
  unfolding on_event push_job
  event-exited (enter_event fd) p = (refl, λ h. h)
  event-exited (line_event line) p = (refl, λ h. h)
  event-exited (leave_event fd) p = (refl, λ h. h)
  event-exited (route_event payload) p =
      (refl, λ h. submit-cases p.control payload (λ m. m.exited ≡ true) h (λ job fresh. h))
  event-exited (worker_event w) p = (refl, λ h. h)
  event-exited control_event p =
      (refl, λ h. ap (λ r. r.0.exited) (control_round_off exec p.control p.world h) ∙ h)
  event-exited stop_event p = (refl, λ h. h)

  pub events-exited :
      (es : List Event) (p : Process)
      → ((on_events exec es p).control_h ≡ p.control_h)
        × (p.control.exited ≡ true → (on_events exec es p).control.exited ≡ true)
  unfolding on_events
  events-exited [] p = (refl, λ h. h)
  events-exited (e ∷ es) p =
      let (same, ended) = event-exited e p in
      let (same', ended') = events-exited es (on_event exec e p) in
      (same' ∙ same, λ h. ended' (ended h))

  pub events-Joinable :
      (es : List Event) (p : Process) → Joinable p → Joinable (on_events exec es p)
  events-Joinable es p h =
      let (same, ended) = events-exited es p in
      elim h [ inl made ↦ inl (same ∙ made) | inr gone ↦ inr (ended gone) ]

  -- The process after the join of a control thread that was made.
  abbrev joined : Process → Process
  joined p =
      let left = rounds exec (length p.control.queue) (p.control, p.world) in
      let r = control_round exec left.0 left.1 in
      record p { control = r.0; world = r.1; control_h = false }

  join_made : (p : Process) → p.control_h ≡ true → join_control exec p ≡ joined p
  unfolding join_control
  join_made p made = ap (λ b. if b then joined p else p) made

  join_none : (p : Process) → p.control_h ≡ false → join_control exec p ≡ p
  unfolding join_control
  join_none p none_made = ap (λ b. if b then joined p else p) none_made

  pub join-Joined :
      (n : ℕ) (p : Process)
      → IsTracked p.control
      → AtMost n p.control
      → Joinable p
      → Joined n p (join_control exec p)
  join-Joined n p t v h = elim (Bool-cases p.control_h) [
    | inl made ↦
        let k = length p.control.queue in
        let left = rounds exec k (p.control, p.world) in
        let rest = rounds-AtMost exec n k p.control p.world v in
        subst (Joined n p) (sym (join_made p made)) (record {
          same = record { task = refl; data_ctx = refl; log = refl; server = λ h. h };
          gone = refl;
          exited = rounds-exited exec n p.control p.world t v;
          few = round-AtMost exec n left.0 left.1 rest;
        })
    | inr none_made ↦ subst (Joined n p) (sym (join_none p none_made)) (record {
      same = same_with p p.control p.world;
      gone = none_made;
      exited = ended p h none_made;
      few = v;
    })
  ]
    where
      ended : (p : Process) → Joinable p → p.control_h ≡ false → p.control.exited ≡ true
      ended p (inl made) none_made = absurd (cc)
      ended p (inr gone) none_made = gone
