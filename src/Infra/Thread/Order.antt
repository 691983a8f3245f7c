-- ===== src/Infra/Thread/Order.antt =====
-- What the loop of infrastructure/src/dts_thread.cpp takes out of the mailbox.
use dts_framework.Common.{
  ◌≡◌, refl, sym, ap, ◌∙◌, Bool, true, false, Option, none, some, List, [], ◌∷◌, ◌++◌, append_assoc,
  append-nil, leb, Bool-cases, inl, inr,
}
use dts_framework.Infra.Thread.{
  MailMsg, try_pop, ThreadCtx, Turn, tick_round, handle_msg, live_round, round_if, listed,
  run_round, run_rounds,
}

abbrev pub all_arrivals : List Turn → List MailMsg
all_arrivals [] = []
all_arrivals (t ∷ ts) = t.arrivals ++ all_arrivals ts

pub tick_round-mailbox :
    {S : Type 0} (c : ThreadCtx S) (t : Turn) (s : S) → (tick_round c t s).0.mailbox ≡ c.mailbox
unfolding tick_round
tick_round-mailbox c t s = elim (Bool-cases (leb c.next_tick t.now)) [ inl e ↦ rw e | inr e ↦ rw e ]

pub handle_msg-mailbox :
    {S : Type 0} (c : ThreadCtx S) (m : Option MailMsg) (s : S)
    → (handle_msg c m s).0.mailbox ≡ c.mailbox
unfolding handle_msg
handle_msg-mailbox c none s = refl
handle_msg-mailbox c (some m) s = refl

listed-try_pop : (ms : List MailMsg) → listed (try_pop ms).0 ++ (try_pop ms).1 ≡ ms
unfolding try_pop
listed-try_pop [] = refl
listed-try_pop (m ∷ ms) = refl

live_round_order :
    {S : Type 0} (cs : ThreadCtx S × S) (t : Turn)
    → let r = live_round cs t in listed r.0 ++ r.1.mailbox ≡ cs.0.mailbox ++ t.arrivals
unfolding live_round
live_round_order (c, s) t =
    let popped = try_pop (c.mailbox ++ t.arrivals) in
    let taken = record c { mailbox = popped.1; stop = t.stop } in
    ap (λ ms. listed popped.0 ++ ms) (handle_msg-mailbox taken popped.0 s)
    ∙ listed-try_pop (c.mailbox ++ t.arrivals)

round_if_order :
    {S : Type 0} (b : Bool) (c : ThreadCtx S) (t : Turn) (s : S)
    → let r = round_if b c t s in listed r.0 ++ r.1.mailbox ≡ c.mailbox ++ t.arrivals
unfolding round_if
round_if_order true c t s = refl
round_if_order false c t s =
    live_round_order (tick_round c t s) t ∙ ap (λ ms. ms ++ t.arrivals) (tick_round-mailbox c t s)

-- The mailbox and the loop of a thread are a queue: after any number of rounds, whatever arrives in
-- them, the messages that the rounds took, in that order, followed by the mailbox are the first
-- mailbox followed by all that arrived, in order.
pub run_rounds_order :
    {S : Type 0} (c : ThreadCtx S) (ts : List Turn) (s : S)
    → let r = run_rounds c ts s in r.0 ++ r.1.mailbox ≡ c.mailbox ++ all_arrivals ts
unfolding run_rounds run_round
run_rounds_order c [] s = sym (append-nil c.mailbox)
run_rounds_order c (t ∷ ts) s =
    let r = run_round c t s in
    let rest = run_rounds r.1 ts r.2 in
    append_assoc (listed r.0) rest.0 rest.1.mailbox
    ∙ ap (λ ms. listed r.0 ++ ms) (run_rounds_order r.1 ts r.2)
    ∙ sym (append_assoc (listed r.0) r.1.mailbox (all_arrivals ts))
    ∙ ap (λ ms. ms ++ all_arrivals ts) (round_if_order c.stop c t s)
    ∙ append_assoc c.mailbox t.arrivals (all_arrivals ts)
