-- ===== src/Infra/Console.antt =====
-- infrastructure/src/console.cpp: the line reader of a session, and the commands on their way from
-- the sessions and the DDS channel to the control thread. Sockets, polling and thread creation are
-- left out; what `recv` returns is a list of chunks, which ends where it returns 0 or less.
pub mod Reader
pub mod Jobs
pub mod Threads
pub mod Places
pub mod Steps
pub mod Turns
pub mod Waits
pub mod Server
use dts_framework.Common.{
  ℕ, Bool, true, false, ◌||◌, not, Option, none, some, List, [], ◌∷◌, ◌++◌, ltb, ◌==◌,
  if◌then◌else◌, length, get_or, set, Text, codes, is_nil, to_text,
}

abbrev pub max_line_len : ℕ
max_line_len = 4096

-- The text before the first newline.
unfoldable pub before_newline : Text → Option Text
before_newline [] = none
before_newline (c ∷ cs) =
    let rest = before_newline cs in
    if c == 10 then some [] else elim rest [ none ↦ none | some a ↦ some (c ∷ a) ]

-- How `ReadLine` ends: what it returns, its two results, and what the socket still has.
pub record ReadEnd : Type 0 where
  pub ok : Bool
  pub line : Text
  pub overflow : Bool
  pub left : List Text

-- The end of a round of `ReadLine` at a newline; `text` is the line with the last chunk.
abbrev pub at_newline : Text → Bool → List Text → Text → ReadEnd
at_newline text true cs before = record { ok = false; line = text; overflow = true; left = cs }
at_newline text false cs before = record { ok = true; line = before; overflow = false; left = cs }

abbrev pub read_step : Option Text → ReadEnd → Text → Bool → List Text → ReadEnd
read_step none more text overflow cs = more
read_step (some before) more text overflow cs = at_newline text overflow cs before

unfoldable pub read_from : Text → Bool → List Text → ReadEnd
read_from line overflow [] = record {
  ok = if overflow then false else not (is_nil line);
  line = line;
  overflow = overflow;
  left = [];
}
read_from line overflow (chunk ∷ cs) =
    let text = line ++ chunk in
    let long = ltb max_line_len (length text) in
    let more = read_from (if long then [] else text) (overflow || long) cs in
    read_step (before_newline text) more text overflow cs

unfoldable pub read_line : List Text → ReadEnd
read_line chunks = read_from [] false chunks

pub record Job : Type 0 where
  pub line : Text
  pub resp : Text
  pub done : Bool
  pub dds : Bool

-- The queue holds the numbers of the jobs. `exited` is whether the control thread has left its
-- loop, `published` what went out through the middleware, while there is one.
pub record Control : Type 0 where
  pub jobs : List Job
  pub queue : List ℕ
  pub stop : Bool
  pub exited : Bool
  pub mw_up : Bool
  pub published : List Text

abbrev pub no_job : Job
no_job = record { line = []; resp = []; done = true; dds = false }

abbrev pub job_at : Control → ℕ → Job
job_at m i = get_or m.jobs i no_job

-- `PushJob`
unfoldable pub push_job : Control → Job → Control
push_job m job = record m { jobs = m.jobs ++ job ∷ []; queue = m.queue ++ length m.jobs ∷ [] }

-- What `SessionLoop` makes of a line that `ReadLine` delivered.
unfoldable pub session_job : Control → ReadEnd → Control
unfolding push_job
session_job m r =
    if r.overflow
    then record m {
      jobs =
          m.jobs
          ++ record {
            line = [];
            resp = codes "ERR: line too long (max " ++ (to_text max_line_len ++ codes ")");
            done = true;
            dds = false;
          }
            ∷ [];
    }
    else push_job m (record { line = r.line; resp = []; done = false; dds = false })

-- A round of `SessionLoop` up to the wait: `none` where it leaves the loop.
unfoldable pub session_round : Control → List Text → Option (Control × List Text)
unfolding session_job
session_round m chunks =
    let r = read_line chunks in
    if not r.ok || is_nil r.line then none else some (session_job m r, r.left)

-- `control_submit_dds`: false for the source's -1.
unfoldable pub submit_dds : Control → Option (List ℕ) → Bool × Control
unfolding push_job
submit_dds m none = (false, m)
submit_dds m (some payload) =
    if is_nil payload || ltb max_line_len (length payload) || m.stop
    then (false, m)
    else (true, push_job m (record { line = payload; resp = []; done = false; dds = true }))

-- `PublishCtlResp`
unfoldable pub publish_resp : Control → Text → Text → Control
publish_resp m line out =
    if m.mw_up
    then record m { published = m.published ++ (codes "cmd=" ++ (line ++ 10 ∷ out)) ∷ [] }
    else m

-- The answer of a job that was executed.
unfoldable pub finish : Control → ℕ → List ℕ → Text → Control
unfolding publish_resp
finish m i rest resp =
    let job = job_at m i in
    let m' = record m {
      queue = rest;
      jobs = set m.jobs i (record job { resp = resp; done = true });
    } in
    if job.dds then publish_resp m' job.line resp else m'

-- `control_stop`, up to the end of the thread: the pending jobs are answered and dropped.
unfoldable pub answer_all : List ℕ → List Job → List Job
answer_all [] jobs = jobs
answer_all (i ∷ is) jobs =
    answer_all is
      (set jobs i (record (get_or jobs i no_job) { resp = codes "control stopped"; done = true }))

unfoldable pub control_stop : Control → Control
control_stop m = record m { stop = true; jobs = answer_all m.queue m.jobs; queue = [] }

-- `control_start`: false where the thread was not made.
unfoldable pub control_start : Control → Bool → Bool × Control
control_start m made = (made, record m { stop = false; exited = not made })

module _ {S : Type 0} (exec : Text → Text → S → Text × S) where
  -- A round of `ControlLoop`; a wait that is not over changes nothing, and after its end there is none.
  unfoldable pub round_at : Control → S → List ℕ → Control × S
  round_at m s [] = (record m { exited = m.stop }, s)
  round_at m s (i ∷ rest) =
      let r = exec (job_at m i).line (job_at m i).resp s in (finish m i rest r.0, r.1)

  unfoldable pub control_round : Control → S → Control × S
  control_round m s = if m.exited then (m, s) else round_at m s m.queue

-- A round of `ControlLoop` in two parts: under the lock it takes a job, or leaves after a stop; then,
-- with the lock released, it executes the job and answers it.
unfoldable pub take_at : Control → List ℕ → Option ℕ × Control
take_at m [] = (none, record m { exited = m.stop })
take_at m (i ∷ rest) = (some i, record m { queue = rest })

unfoldable pub take_job : Control → Option ℕ × Control
unfolding take_at
take_job m = if m.exited then (none, m) else take_at m m.queue

unfoldable pub answer_job :
    {S : Type 0} → (Text → Text → S → Text × S) → Control → S → ℕ → Control × S
unfolding finish
answer_job exec m s i =
    let r = exec (job_at m i).line (job_at m i).resp s in (finish m i m.queue r.0, r.1)
