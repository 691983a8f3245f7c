-- ===== src/Infra/Thread.antt =====
-- infrastructure/include/mailbox.h, dts_thread.h and src/dts_thread.cpp: the mailbox of a thread
-- and the loop that empties it. `S` is the state that the thread's entry works on. What the other
-- threads and the clock do in a round is its `Turn`; the clock is read in milliseconds, and not
-- again while the loop skips the periods that it has missed.
pub mod Order
pub mod Ticks
pub mod Events
use dts_framework.Common.{
  ℕ, zero, suc, ◌+◌, Bool, true, false, ◌&&◌, Option, none, some, List, [], ◌∷◌, ◌++◌, leb, ◌==◌,
  if◌then◌else◌, length, Text,
}

-- MSG_ID_STATUS and MSG_ID_TIMER
abbrev pub msg_id_status : ℕ
msg_id_status = 0

abbrev pub msg_id_timer : ℕ
msg_id_timer = 9

pub record MailMsg : Type 0 where
  pub msg_id : ℕ
  pub session_inst : Option Text
  pub payload : Option (List ℕ)

-- `Send` of an owned payload, and of a copy: there a null pointer and a length of 0 become an empty
-- payload.
unfoldable pub send : List MailMsg → ℕ → Option (List ℕ) → Option Text → List MailMsg
send mailbox msg_id payload session_inst =
    mailbox ++ record { msg_id = msg_id; session_inst = session_inst; payload = payload } ∷ []

unfoldable pub send_copy : List MailMsg → ℕ → Option (List ℕ) → Option Text → List MailMsg
unfolding send
send_copy mailbox msg_id none session_inst = send mailbox msg_id (some []) session_inst
send_copy mailbox msg_id (some bytes) session_inst = send mailbox msg_id (some bytes) session_inst

-- `TryPopLocked`
unfoldable pub try_pop : List MailMsg → Option MailMsg × List MailMsg
try_pop [] = (none, [])
try_pop (m ∷ ms) = (some m, ms)

-- The status byte, the instance, the message id, the payload and its length.
abbrev pub EntryFn : Type 0 → Type 0
EntryFn S = ℕ → Option Text → ℕ → Option (List ℕ) → ℕ → S → S

pub record ThreadCtx (S : Type 0) : Type 0 where
  pub status : ℕ
  pub stop : Bool
  pub mailbox : List MailMsg
  pub entry : Option (EntryFn S)
  pub next_tick : ℕ

-- `Init`, without the name that only log lines show, and `RequestStop`.
unfoldable pub init_ctx : {S : Type 0} → Option (EntryFn S) → ThreadCtx S → ThreadCtx S
init_ctx entry c = record c { entry = entry }

unfoldable pub request_stop : {S : Type 0} → ThreadCtx S → ThreadCtx S
request_stop c = record c { stop = true }

-- `now` is the clock at the start of the round, `later` the clock after the timer message; what
-- arrives until the wait ends, and whether `RequestStop` was called by then.
pub record Turn : Type 0 where
  pub now : ℕ
  pub later : ℕ
  pub arrivals : List MailMsg
  pub stop : Bool

-- The `do` loop of the missed periods, with the rounds left.
unfoldable pub catch_up : ℕ → ℕ → ℕ → ℕ
catch_up zero next later = next
catch_up (suc left) next later =
    let more = catch_up left (next + 100) later in
    if leb (next + 100) later then more else next + 100

unfoldable pub call_entry :
    {S : Type 0} → Option (EntryFn S) → ℕ → Option Text → ℕ → Option (List ℕ) → ℕ → S → S
call_entry none status session_inst msg_id payload len s = s
call_entry (some entry) status session_inst msg_id payload len s =
    entry status session_inst msg_id payload len s

-- Step 1: the timer message, when it is due.
unfoldable pub tick_round : {S : Type 0} → ThreadCtx S → Turn → S → ThreadCtx S × S
unfolding catch_up call_entry
tick_round c t s =
    if leb c.next_tick t.now
    then (
      record c { next_tick = catch_up (suc t.later) c.next_tick t.later },
      call_entry c.entry c.status none msg_id_timer none 0 s,
    )
    else (c, s)

-- Step 3: `sizeof(StatusMsg)` is 4, the status its first byte.
unfoldable pub status_after : ℕ → ℕ → Option (List ℕ) → ℕ
status_after status msg_id none = status
status_after status msg_id (some []) = status
status_after status msg_id (some (b ∷ bs)) =
    if (msg_id == msg_id_status) && leb 4 (length (b ∷ bs)) then b else status

-- The pointer and the length that the entry gets.
abbrev pub data_of : Option (List ℕ) → Option (List ℕ)
data_of none = none
data_of (some []) = none
data_of (some (b ∷ bs)) = some (b ∷ bs)

abbrev pub len_of : Option (List ℕ) → ℕ
len_of none = 0
len_of (some bs) = length bs

-- Steps 3 and 4.
unfoldable pub handle_msg : {S : Type 0} → ThreadCtx S → Option MailMsg → S → ThreadCtx S × S
unfolding status_after call_entry
handle_msg c none s = (c, s)
handle_msg c (some m) s =
    let status = status_after c.status m.msg_id m.payload in
    (
      record c { status = status },
      call_entry c.entry status m.session_inst m.msg_id (data_of m.payload) (len_of m.payload) s,
    )

-- Steps 1 to 4 of a round, with the message that it took.
unfoldable pub live_round : {S : Type 0} → ThreadCtx S × S → Turn → Option MailMsg × ThreadCtx S × S
unfolding handle_msg try_pop
live_round (c, s) t =
    let popped = try_pop (c.mailbox ++ t.arrivals) in
    let handled = handle_msg (record c { mailbox = popped.1; stop = t.stop }) popped.0 s in
    (popped.0, handled.0, handled.1)

-- A round of `ThreadRun` that finds `stop` as given: after a stop only the mailbox fills.
unfoldable pub round_if :
    {S : Type 0} → Bool → ThreadCtx S → Turn → S → Option MailMsg × ThreadCtx S × S
unfolding tick_round live_round
round_if true c t s = (none, record c { mailbox = c.mailbox ++ t.arrivals }, s)
round_if false c t s = live_round (tick_round c t s) t

unfoldable pub run_round : {S : Type 0} → ThreadCtx S → Turn → S → Option MailMsg × ThreadCtx S × S
unfolding round_if
run_round c t s = round_if c.stop c t s

abbrev pub listed : Option MailMsg → List MailMsg
listed none = []
listed (some m) = m ∷ []

-- The messages that `turns` rounds take, in order.
unfoldable pub run_rounds :
    {S : Type 0} → ThreadCtx S → List Turn → S → List MailMsg × ThreadCtx S × S
unfolding run_round
run_rounds c [] s = ([], c, s)
run_rounds c (t ∷ ts) s =
    let r = run_round c t s in
    let rest = run_rounds r.1 ts r.2 in (listed r.0 ++ rest.0, rest.1, rest.2)
