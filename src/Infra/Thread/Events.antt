-- ===== src/Infra/Thread/Events.antt =====
-- What the loop of infrastructure/src/dts_thread.cpp does with the messages that it takes.
use dts_framework.Common.{
  ℕ, ◌-◌, ◌≤◌, ◌≡◌, refl, sym, ap, ◌∙◌, Bool, true, false, Option, none, some, List, [], ◌∷◌, ◌++◌,
  append-nil, arith, length, leb, Bool-cases, inl, inr,
}
use dts_framework.Infra.Thread.{
  MailMsg, EntryFn, ThreadCtx, Turn, msg_id_timer, call_entry, tick_round, status_after, data_of,
  len_of, handle_msg, try_pop, live_round, round_if, listed, run_round, run_rounds,
}
use dts_framework.Infra.Thread.Order.{
  all_arrivals, run_rounds_order, tick_round-mailbox, handle_msg-mailbox,
}

-- What reaches the entry function of a thread.
pub data Event : Type 0 where
  timer : Event
  mail : MailMsg → Event

-- One call of the entry function, with the status byte that it sees.
abbrev pub on_event : {S : Type 0} → Option (EntryFn S) → ℕ × S → Event → ℕ × S
on_event entry (status, s) timer = (status, call_entry entry status none msg_id_timer none 0 s)
on_event entry (status, s) (mail m) =
    let now = status_after status m.msg_id m.payload in
    (now, call_entry entry now m.session_inst m.msg_id (data_of m.payload) (len_of m.payload) s)

abbrev pub on_events : {S : Type 0} → Option (EntryFn S) → ℕ × S → List Event → ℕ × S
on_events entry st [] = st
on_events entry st (e ∷ es) = on_events entry (on_event entry st e) es

abbrev pub mails : List Event → List MailMsg
mails [] = []
mails (timer ∷ es) = mails es
mails (mail m ∷ es) = m ∷ mails es

-- What rounds took, as the events of one queue.
pub record Played {S : Type 0} (c : ThreadCtx S) (s : S) (r : List MailMsg × ThreadCtx S × S)
    : Type 0 where
  pub events : List Event
  pub all : mails events ≡ r.0
  pub entry : r.1.entry ≡ c.entry
  pub result : on_events c.entry (c.status, s) events ≡ (r.1.status, r.2)

mails-append : (es fs : List Event) → mails (es ++ fs) ≡ mails es ++ mails fs
mails-append [] fs = refl
mails-append (timer ∷ es) fs = mails-append es fs
mails-append (mail m ∷ es) fs = ap (◌∷◌ m) (mails-append es fs)

module _ {S : Type 0} where
  on_events-append :
      (entry : Option (EntryFn S)) (st : ℕ × S) (es fs : List Event)
      → on_events entry st (es ++ fs) ≡ on_events entry (on_events entry st es) fs
  on_events-append entry st [] fs = refl
  on_events-append entry st (e ∷ es) fs = on_events-append entry (on_event entry st e) es fs

  ticked :
      (c : ThreadCtx S) (t : Turn) (s : S) → let u = tick_round c t s in Played c s ([], u.0, u.1)
  unfolding tick_round
  ticked c t s = elim (Bool-cases (leb c.next_tick t.now)) [
    | inl e ↦ rw e (record { events = timer ∷ []; all = refl; entry = refl; result = refl })
    | inr e ↦ rw e (record { events = []; all = refl; entry = refl; result = refl })
  ]

  handled :
      (c : ThreadCtx S) (m : Option MailMsg) (s : S)
      → let u = handle_msg c m s in Played c s (listed m, u.0, u.1)
  unfolding handle_msg
  handled c none s = record { events = []; all = refl; entry = refl; result = refl }
  handled c (some m) s = record { events = mail m ∷ []; all = refl; entry = refl; result = refl }

  both :
      (c d : ThreadCtx S) (s₀ s : S) (r : List MailMsg × ThreadCtx S × S) (ms : List MailMsg)
      → Played c s₀ (ms, d, s)
      → Played d s r
      → Played c s₀ (ms ++ r.0, r.1, r.2)
  both c d s₀ s r ms v w = record {
    events = v.events ++ w.events;
    all =
        mails-append v.events w.events
        ∙ ap (λ xs. xs ++ mails w.events) v.all
        ∙ ap (λ xs. ms ++ xs) w.all;
    entry = w.entry ∙ v.entry;
    result =
        on_events-append c.entry (c.status, s₀) v.events w.events
        ∙ ap (λ st. on_events c.entry st w.events) v.result
        ∙ ap (λ e. on_events e (d.status, s) w.events) (sym v.entry)
        ∙ w.result;
  }

  round_if-Played :
      (b : Bool) (c : ThreadCtx S) (t : Turn) (s : S)
      → let r = round_if b c t s in Played c s (listed r.0, r.1, r.2)
  unfolding round_if live_round
  round_if-Played true c t s = record { events = []; all = refl; entry = refl; result = refl }
  round_if-Played false c t s =
      let u = tick_round c t s in
      let popped = try_pop (u.0.mailbox ++ t.arrivals) in
      let d = record (u.0) { mailbox = popped.1; stop = t.stop } in
      let h = handled d popped.0 u.1 in
      both c u.0 s u.1 _ [] (ticked c t s)
        (record { events = h.events; all = h.all; entry = h.entry; result = h.result })

  -- The loop of a thread is a fold of its entry function over one sequence of events, timer messages
  -- and the messages that the rounds took, each once and in order: the status byte and the state
  -- after any number of rounds are those of the fold.
  pub run_rounds-Played :
      (c : ThreadCtx S) (ts : List Turn) (s : S) → Played c s (run_rounds c ts s)
  unfolding run_rounds run_round
  run_rounds-Played c [] s = record { events = []; all = refl; entry = refl; result = refl }
  run_rounds-Played c (t ∷ ts) s =
      let r = run_round c t s in
      both c r.1 s r.2 _ (listed r.0) (round_if-Played c.stop c t s) (run_rounds-Played r.1 ts r.2)

length-nil : (ms : List MailMsg) → length ms ≡ 0 → ms ≡ []
length-nil [] h = refl
length-nil (m ∷ ms) h = absurd (omega arith)

-- Rounds in which no message comes in and no stop is asked for.
abbrev pub Undisturbed : List Turn → Type 0
Undisturbed [] = Unit {0}
Undisturbed (t ∷ ts) = (t.arrivals ≡ []) × (t.stop ≡ false) × Undisturbed ts

no_arrivals : (ts : List Turn) → Undisturbed ts → all_arrivals ts ≡ []
no_arrivals [] quiet = refl
no_arrivals (t ∷ ts) (none_come, go, quiet) = rw (none_come, no_arrivals ts quiet)

length-try_pop : (ms : List MailMsg) → length (try_pop ms).1 ≡ length ms - 1
unfolding try_pop
length-try_pop [] = omega arith
length-try_pop (m ∷ ms) = omega arith

module _ {S : Type 0} where
  handle_msg-stop :
      (c : ThreadCtx S) (m : Option MailMsg) (s : S) → (handle_msg c m s).0.stop ≡ c.stop
  unfolding handle_msg
  handle_msg-stop c none s = refl
  handle_msg-stop c (some m) s = refl

  quiet_round :
      (b : Bool) (c : ThreadCtx S) (t : Turn) (s : S)
      → b ≡ false
      → t.arrivals ≡ []
      → t.stop ≡ false
      → let r = round_if b c t s in (r.1.stop ≡ false) × (length r.1.mailbox ≡ length c.mailbox - 1)
  unfolding round_if live_round
  quiet_round true c t s on none_come go = absurd (cc)
  quiet_round false c t s on none_come go =
      let u = tick_round c t s in
      let popped = try_pop (u.0.mailbox ++ t.arrivals) in
      let d = record (u.0) { mailbox = popped.1; stop = t.stop } in
      let same =
        ap (λ ms. u.0.mailbox ++ ms) none_come
        ∙ append-nil u.0.mailbox
        ∙ tick_round-mailbox c t s in
      (
        handle_msg-stop d popped.0 u.1 ∙ go,
        ap length (handle_msg-mailbox d popped.0 u.1)
            ∙ ap (λ ms. length (try_pop ms).1) same
            ∙ length-try_pop c.mailbox,
      )

  emptied :
      (c : ThreadCtx S) (ts : List Turn) (s : S)
      → c.stop ≡ false
      → Undisturbed ts
      → length c.mailbox ≤ length ts
      → length (run_rounds c ts s).1.mailbox ≡ 0
  unfolding run_rounds run_round
  emptied c [] s on quiet enough = omega arith
  emptied c (t ∷ ts) s on (none_come, go, quiet) enough =
      let r = run_round c t s in
      let (still, one_less) = quiet_round c.stop c t s on none_come go in
      emptied r.1 ts r.2 still quiet (omega (arith, one_less))

  -- A thread that is not stopped, over rounds in which no message comes in and no stop is asked for,
  -- at least as many as its mailbox is long, takes every message of the mailbox, in order, and leaves
  -- it empty.
  pub run_rounds_drained :
      (c : ThreadCtx S) (ts : List Turn) (s : S)
      → c.stop ≡ false
      → Undisturbed ts
      → length c.mailbox ≤ length ts
      → let r = run_rounds c ts s in (r.0 ≡ c.mailbox) × (r.1.mailbox ≡ [])
  run_rounds_drained c ts s on quiet enough =
      let r = run_rounds c ts s in
      let empty = length-nil r.1.mailbox (emptied c ts s on quiet enough) in
      (
        sym (append-nil r.0)
            ∙ ap (λ ms. r.0 ++ ms) (sym empty)
            ∙ run_rounds_order c ts s
            ∙ ap (λ ms. c.mailbox ++ ms) (no_arrivals ts quiet)
            ∙ append-nil c.mailbox,
        empty,
      )
