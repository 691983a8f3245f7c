-- ===== src/Tests/Mailboxes.antt =====
-- The thread loop of infrastructure/src/dts_thread.cpp; its entry counts its calls.
use dts_framework.Common.{
  ℕ, suc, ◌+◌, ◌*◌, ◌≤◌, ◌<◌, ◌≡◌, refl, false, none, some, List, [], ◌∷◌, ◌++◌, arith,
}
use dts_framework.Infra.Thread.{MailMsg, ThreadCtx, Turn, EntryFn, run_rounds, catch_up}
use dts_framework.Infra.Thread.Order.{all_arrivals, run_rounds_order}
use dts_framework.Infra.Thread.Events.{Played, run_rounds-Played, run_rounds_drained}
use dts_framework.Infra.Thread.Ticks.{catch_up-due}

abbrev count_calls : EntryFn ℕ
count_calls status session_inst msg_id payload len s = suc s

abbrev status_msg : MailMsg
status_msg = record { msg_id = 0; session_inst = none; payload = some (2 ∷ 0 ∷ 0 ∷ 0 ∷ []) }

abbrev data_msg : MailMsg
data_msg = record { msg_id = 5; session_inst = none; payload = some (1 ∷ []) }

abbrev worker : ThreadCtx ℕ
worker = record {
  status = 0;
  stop = false;
  mailbox = data_msg ∷ [];
  entry = some count_calls;
  next_tick = 100;
}

abbrev turns : List Turn
turns =
    record { now = 50; later = 50; arrivals = status_msg ∷ data_msg ∷ []; stop = false }
    ∷ record { now = 120; later = 330; arrivals = []; stop = false }
    ∷ []

-- Two messages and one timer message; three periods are skipped at once.
two_rounds :
    let r = run_rounds worker turns 0 in
    (r.0 ≡ data_msg ∷ status_msg ∷ []) × (r.1.next_tick ≡ 400) × (r.1.status ≡ 2) × (r.2 ≡ 3)
unfolding run_rounds
two_rounds = (refl, refl, refl, refl)

run_rounds_order_example :
    let r = run_rounds worker turns 0 in r.0 ++ r.1.mailbox ≡ worker.mailbox ++ all_arrivals turns
run_rounds_order_example = run_rounds_order worker turns 0

catch_up-due_example :
    let due = catch_up 331 100 330 in
    (k : ℕ) × (due ≡ 100 + 100 * (k + 1)) × (330 < due) × (due ≤ 330 + 100)
catch_up-due_example = catch_up-due 100 330 (omega arith)

run_rounds-Played_example : Played worker 0 (run_rounds worker turns 0)
run_rounds-Played_example = run_rounds-Played worker turns 0

abbrev quiet_turns : List Turn
quiet_turns =
    record { now = 120; later = 120; arrivals = []; stop = false }
    ∷ record { now = 330; later = 330; arrivals = []; stop = false }
    ∷ []

run_rounds_drained_example :
    let r = run_rounds worker quiet_turns 0 in (r.0 ≡ data_msg ∷ []) × (r.1.mailbox ≡ [])
run_rounds_drained_example =
    run_rounds_drained worker quiet_turns 0 refl (refl, refl, (refl, refl, tt)) (omega arith)
