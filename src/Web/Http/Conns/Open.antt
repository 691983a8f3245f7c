-- ===== src/Web/Http/Conns/Open.antt =====
-- The descriptors that the pushes of webserver/src/http_sse.cpp touch.
use dts_framework.Common.{
  ℕ, Bool, true, false, ◌&&◌, not, List, [], ◌∷◌, ◌≡◌, ◌==◌, ==_iff, contains, contains-add_member,
  arith, Bool-cases, inl, inr, sym, ap, ◌∙◌,
}
use dts_framework.Web.Http
use dts_framework.Web.Http.{HttpSseServer, without, send_all, broadcast, enter_stream, leave_stream}
use dts_framework.Web.Http.Conns.{
  Site, begin_stream, end_stream, Step, accept_step, stream_step, leave_step, close_step,
  broadcast_step, stop_step, Reach, here, next,
}

abbrev pub In : ℕ → List ℕ → Type 0
In fd fds = contains fd fds ≡ true

-- A thread that waits has an open connection, and a stream that is pushed to has such a thread.
pub record IsOpen (t : Site) : Type 0 where
  pub waits : (fd : ℕ) → In fd t.waiting → In fd t.open_fds
  pub pushed : (fd : ℕ) → In fd t.server.streams → In fd t.waiting

contains-without :
    (fd k : ℕ) (fds : List ℕ) → contains k (without fd fds) ≡ (not (fd == k) && contains k fds)
unfolding contains without
contains-without fd k [] = ground arith
contains-without fd k (g ∷ gs) = ground (arith, contains-without fd k gs)

In-cons : (fd k : ℕ) (fds : List ℕ) → In k fds → In k (fd ∷ fds)
unfolding contains
In-cons fd k fds h = ground arith

In-without : (fd k : ℕ) (fds : List ℕ) → In k (without fd fds) → In k fds
In-without fd k fds h = ground (arith, contains-without fd k fds)

kept : (fd k : ℕ) (xs ys : List ℕ) → In k (fd ∷ xs) → (In k xs → In k ys) → In k (fd ∷ ys)
unfolding contains
kept fd k xs ys h more = elim (Bool-cases (fd == k)) [
  | inl e ↦ rw e
  | inr e ↦ rw e (more (rw e at h))
]

send_all-In : (sent : ℕ → Bool) (fds : List ℕ) (k : ℕ) → In k (send_all sent fds).0 → In k fds
unfolding send_all contains
send_all-In sent [] k h = h
send_all-In sent (fd ∷ fds) k h = elim (Bool-cases (sent fd)) [
  | inl e ↦ kept fd k (send_all sent fds).0 fds (rw e at h) (send_all-In sent fds k)
  | inr e ↦ In-cons fd k fds (send_all-In sent fds k (rw e at h))
]

-- What is in use is not what was closed.
without_other :
    (fd k : ℕ) (fds waiting : List ℕ)
    → contains fd waiting ≡ false
    → In k waiting
    → In k fds
    → In k (without fd fds)
without_other fd k fds waiting free h there = elim (Bool-cases (fd == k)) [
  | inl e ↦
      let bad : contains k waiting ≡ false =
        ap (λ n. contains n waiting) (sym ((==_iff fd k).0 e)) ∙ free in
      absurd (cc)
  | inr e ↦ rw (contains-without fd k fds, e) there
]

begin-IsOpen :
    (sent : Bool) (fd : ℕ) (t : Site)
    → In fd t.open_fds
    → contains fd t.waiting ≡ false
    → IsOpen t
    → IsOpen (begin_stream sent fd t)
unfolding begin_stream enter_stream contains
begin-IsOpen true fd t opened free v = record {
  waits = λ k h. elim (Bool-cases (fd == k)) [
    | inl e ↦ ap (λ n. contains n t.open_fds) (sym ((==_iff fd k).0 e)) ∙ opened
    | inr e ↦ v.waits k (rw e at h)
  ];
  pushed = λ k h. elim (Bool-cases (fd == k)) [
    | inl e ↦ rw e
    | inr e ↦ rw e (v.pushed k (rw (contains-add_member fd k t.server.streams, e) at h))
  ];
}
begin-IsOpen false fd t opened free v = record {
  waits = λ k h. without_other fd k t.open_fds t.waiting free h (v.waits k h);
  pushed = v.pushed;
}

end-IsOpen : (fd : ℕ) (t : Site) → IsOpen t → IsOpen (end_stream fd t)
unfolding end_stream leave_stream
end-IsOpen fd t v = record {
  waits = λ k h. v.waits k (In-without fd k t.waiting h);
  pushed = λ k h. elim (Bool-cases (fd == k)) [
    | inl e ↦
        let bad : false ≡ true = rw (contains-without fd k t.server.streams, e) at h in absurd (cc)
    | inr e ↦
        rw (contains-without fd k t.waiting, e) (v.pushed k (In-without fd k t.server.streams h))
  ];
}

stop-streams : (v : HttpSseServer) → (Http.stop v).1.streams ≡ v.streams
unfolding Http.stop
stop-streams v = elim (Bool-cases v.running) [ inl e ↦ rw e | inr e ↦ rw e ]

Step-IsOpen : {t u : Site} → Step t u → IsOpen t → IsOpen u
unfolding broadcast
Step-IsOpen (accept_step t ready fd on free) v = record {
  waits = λ k h. In-cons fd k t.open_fds (v.waits k h);
  pushed = v.pushed;
}
Step-IsOpen (stream_step t sent fd opened free) v = begin-IsOpen sent fd t opened free v
Step-IsOpen (leave_step t got fd there over) v = end-IsOpen fd t v
Step-IsOpen (close_step t fd opened free) v = record {
  waits = λ k h. without_other fd k t.open_fds t.waiting free h (v.waits k h);
  pushed = v.pushed;
}
Step-IsOpen (broadcast_step t sent) v = record {
  waits = v.waits;
  pushed = λ k h. v.pushed k (send_all-In sent t.server.streams k h);
}
Step-IsOpen (stop_step t) v = record {
  waits = v.waits;
  pushed = λ k h. v.pushed k (ap (contains k) (sym (stop-streams t.server)) ∙ h);
}

-- Whatever the accept loop, the threads of the connections, the pushes and `Stop` do, in any order:
-- a thread that waits in `ServeStream` has an open connection, and every descriptor in the set of
-- streams has such a thread, so no push touches a closed descriptor; where this holds at the start.
pub Reach-IsOpen : {s t : Site} → Reach s t → IsOpen s → IsOpen t
Reach-IsOpen here v = v
Reach-IsOpen (next r st) v = Step-IsOpen st (Reach-IsOpen r v)
