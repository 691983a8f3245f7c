-- ===== src/Tests/Sessions.antt =====
-- The console of infrastructure/src/console.cpp at short lines.
use dts_framework.Common.{
  length, ◌⊎◌, ◌≤◌, contains, none, ℕ, suc, ◌≡◌, refl, true, false, [], ◌∷◌, ◌++◌, arith, Text,
  codes,
}
use dts_framework.Infra.Console.{
  read_from, before_newline, read_line, Job, Control, job_at, push_job, control_round,
  session_round, control_stop, take_job,
}
use dts_framework.Infra.Console.Reader.{no_newline, read_line_at_newline, session_round-push}
use dts_framework.Infra.Console.Jobs.{IsTracked}
use dts_framework.Infra.Console.Steps
use dts_framework.Infra.Console.Turns
use dts_framework.Infra.Console.Places.{OnePlace}
use dts_framework.Infra.Console.Threads.{Reach, here, next, push_step, push_waits_forever}

-- What stands behind the newline in the chunk is lost.
read_line_at_newline_example :
    read_line (codes "he" ∷ (codes "lp" ++ 10 ∷ codes "quit") ∷ [])
    ≡ record { ok = true; line = codes "help"; overflow = false; left = [] }
unfolding no_newline before_newline
read_line_at_newline_example =
    read_line_at_newline (codes "he" ∷ []) (codes "lp" ++ 10 ∷ codes "quit") [] (codes "lp") refl
      (omega arith) refl

abbrev idle : Control
idle = record { jobs = []; queue = []; stop = false; exited = false; mw_up = true; published = [] }

abbrev help_job : Job
help_job = record { line = codes "help"; resp = []; done = false; dds = false }

session_pushes :
    push_job idle help_job
    ≡ push_job idle (record {
      line = (read_line ((codes "help" ++ 10 ∷ []) ∷ [])).line;
      resp = [];
      done = false;
      dds = false;
    })
unfolding session_round read_line read_from before_newline
session_pushes =
    session_round-push idle (push_job idle help_job) ((codes "help" ++ 10 ∷ []) ∷ []) [] refl

abbrev exec : Text → Text → ℕ → Text × ℕ
exec line out s = (out ++ line, suc s)

idle-IsTracked : IsTracked idle
idle-IsTracked i low open_job = absurd (omega arith)

abbrev pushed : Control
pushed = push_job idle help_job

pushed-Reach : Reach exec (idle, 0) (pushed, 0)
pushed-Reach = next here (push_step idle 0 (codes "help"))

-- The control thread takes the job, then `control_stop` comes in.
taken_then_stopped :
    Steps.Reach exec
      (record { control = idle; busy = none; state = 0 })
      (record { control = control_stop (take_job pushed).1; busy = (take_job pushed).0; state = 0 })
unfolding push_job
taken_then_stopped =
    Steps.next
      (Steps.next (Steps.next Steps.here (Steps.push_step idle none 0 (codes "help")))
        (Steps.take_step pushed 0 refl))
      (Steps.stop_step (take_job pushed).1 (take_job pushed).0 0)

idle-OnePlace : OnePlace idle none
unfolding contains
idle-OnePlace = record {
  placed = λ i low open_job. absurd (omega arith);
  queued = λ i h. absurd (cc);
  held = λ i b. absurd (cc);
  once = tt;
}

Reach-OnePlace_example :
    OnePlace (control_stop (take_job pushed).1) (take_job pushed).0
    × Steps.Stays idle (control_stop (take_job pushed).1)
Reach-OnePlace_example = Steps.Reach-OnePlace exec taken_then_stopped idle-OnePlace

-- Another line comes in before the control thread takes its round.
abbrev pushed_again : Control
pushed_again = push_job pushed help_job

taken_in_turn : Turns.Run exec (pushed, 0) 1 (control_round exec pushed_again 0)
taken_in_turn = Turns.round_next (Turns.push_next (codes "help") Turns.here)

pushed_queue : pushed.queue ≡ 0 ∷ []
unfolding push_job
pushed_queue = refl

pushed_on : (pushed.exited ≡ false) × (length pushed.jobs ≡ 1)
unfolding push_job
pushed_on = (refl, refl)

queued-answered_in_turn_example :
    ((job_at (control_round exec pushed_again 0).0 0).done ≡ true)
    ⊎ (((control_round exec pushed_again 0).0.exited ≡ false) × (1 ≤ 0))
queued-answered_in_turn_example =
    Turns.queued-answered_in_turn exec pushed 0 0 [] [] pushed_on.0 (omega (arith, pushed_on.1))
      pushed_queue taken_in_turn

abbrev gone : Control
gone = record idle { stop = true; exited = true }

push_waits_forever_example : (job_at (push_job (push_job gone help_job) help_job) 0).done ≡ false
push_waits_forever_example =
    push_waits_forever exec gone 0 (codes "help") refl refl
      (next here (push_step (push_job gone help_job) 0 (codes "help")))
