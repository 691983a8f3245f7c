-- ===== src/Data/Handlers/Messages.antt =====
-- The data thread of contexts/data/application/src/data_msg_handler.cpp over any messages.
use mathlib.Core.List.{Permᴰ}
use dts_framework.Common.{
  ℕ, ◌^◌, ◌<◌, ◌≡◌, refl, ap, ◌∙◌, not, Option, none, some, List, [], ◌∷◌, map, arith, length, ltb,
  ◌==◌, read_le, from_le, Text, Bool-cases, inl, inr, codes,
}
use dts_framework.Infra.MsgTable.{chars_eq}
use dts_framework.Data.Region.{RegionDesc, evict, evict_slot, slot_at, Slot}
use dts_framework.Data.Region.Evict.{slot_at-evict, evict-IsSized}
use dts_framework.Data.Mem.Room.{Room}
use dts_framework.Data.Mem.Layout.{with_slots-Packed}
use dts_framework.Data.Mem.{evict_expired}
use dts_framework.Data.Ids.{data_id_count}
use dts_framework.Data.Registry.{Table}
use dts_framework.Data.Factory.{bypass_full, World, on_tick, on_task}
use dts_framework.Data.Factory.Running.{IsRunning, process-IsRunning}
use dts_framework.Data.Handlers.{
  DataThread, on_task_active, on_agent_data, on_oam_stats_req, tick_factory, data_dispatch,
}
use dts_framework.Data.Handlers.Routing.{by_session, data_dispatch-by_session}

evict_slot-body : (r : RegionDesc) (now : ℕ) (s : Slot) → (evict_slot r now s).body ≡ s.body
unfolding evict_slot
evict_slot-body r now s = ground arith

evict-Room : (r : RegionDesc) (now : ℕ) → Room r → Room (evict r now)
unfolding evict
evict-Room r now v = record {
  packed = with_slots-Packed data_id_count r (map (evict_slot r now) r.slots) v.packed;
  sized = evict-IsSized r now v.sized;
  bodies = λ idx h.
      ap (λ s. length s.body) (slot_at-evict r now idx)
      ∙ ap length (evict_slot-body r now (slot_at r idx))
      ∙ v.bodies idx h;
}

on_tick-IsRunning : (w : World) → IsRunning w → IsRunning (on_tick w)
unfolding on_tick evict_expired
on_tick-IsRunning w c = rw c.mem (record {
  sink = c.sink;
  report_sink = c.report_sink;
  buf = c.buf;
  narrow = c.narrow;
  table = c.table;
  region = evict c.region _;
  mem = refl;
  room = evict-Room c.region _ c.room;
})

on_task-IsRunning :
    (w : World) (task_id : ℕ)
    → task_id < 2 ^ 32
    → IsRunning w
    → IsRunning (record w { factory = on_task w.factory task_id })
unfolding on_task
on_task-IsRunning w task_id narrow c = record {
  sink = c.sink;
  report_sink = c.report_sink;
  buf = c.buf;
  narrow = narrow;
  table = c.table;
  region = c.region;
  mem = c.mem;
  room = c.room;
}

-- A message as the mailbox holds it; a payload is made of bytes.
pub record Message : Type 0 where
  pub status : ℕ
  pub session_inst : Option Text
  pub msg_id : ℕ
  pub payload : Option (List ℕ)
  pub len : ℕ

abbrev pub Bytes : List ℕ → Type 0
Bytes [] = Unit {0}
Bytes (b ∷ bs) = (b < 256) × Bytes bs

abbrev pub HasBytes : Option (List ℕ) → Type 0
HasBytes none = Unit {0}
HasBytes (some payload) = Bytes payload

abbrev pub AllBytes : List Message → Type 0
AllBytes [] = Unit {0}
AllBytes (m ∷ ms) = HasBytes m.payload × AllBytes ms

pub read_le_four-lt : (xs : List ℕ) → Bytes xs → read_le xs 0 4 < 2 ^ 32
unfolding read_le from_le
read_le_four-lt [] h = omega arith
read_le_four-lt (a ∷ []) (ha, h) = omega arith
read_le_four-lt (a ∷ b ∷ []) (ha, (hb, h)) = omega arith
read_le_four-lt (a ∷ b ∷ c ∷ []) (ha, (hb, (hc, h))) = omega arith
read_le_four-lt (a ∷ b ∷ c ∷ d ∷ xs) (ha, (hb, (hc, (hd, h)))) = omega arith

on_task_active-IsRunning :
    (payload : Option (List ℕ)) (d : DataThread)
    → HasBytes payload
    → IsRunning d.world
    → IsRunning (on_task_active payload d).world
unfolding on_task_active
on_task_active-IsRunning none d bytes c = c
on_task_active-IsRunning (some payload) d bytes c = elim (Bool-cases (ltb (length payload) 8)) [
  | inl e ↦ rw e c
  | inr e ↦ rw e (elim (Bool-cases (not (read_le payload 4 4 == 1))) [
    | inl f ↦ rw f c
    | inr f ↦
        rw f (on_task-IsRunning d.world (read_le payload 0 4) (read_le_four-lt payload bytes) c)
  ])
]

module _ (order : Table → Table) (us : ℕ) where
  abbrev pub on_message : Message → DataThread → DataThread
  on_message m d =
      data_dispatch bypass_full order us m.status m.session_inst m.msg_id m.payload m.len d

  abbrev pub on_messages : List Message → DataThread → DataThread
  on_messages [] d = d
  on_messages (m ∷ ms) d = on_messages ms (on_message m d)

module _ (order : Table → Table) (us : ℕ) (any_order : (t : Table) → Permᴰ (order t) t) where
  on_agent_data-IsRunning :
      (payload : Option (List ℕ)) (d : DataThread)
      → IsRunning d.world
      → IsRunning (on_agent_data bypass_full order us payload d).world
  unfolding on_agent_data
  on_agent_data-IsRunning none d c = c
  on_agent_data-IsRunning (some payload) d c = elim (Bool-cases (ltb (length payload) 2)) [
    | inl e ↦ rw e c
    | inr e ↦ rw e (process-IsRunning order any_order d.world payload (read_le payload 0 2) us c)
  ]

  by_session-IsRunning :
      (inst : Option Text) (msg_id : ℕ) (payload : Option (List ℕ)) (d : DataThread)
      → HasBytes payload
      → IsRunning d.world
      → IsRunning (by_session bypass_full order us inst msg_id payload d).world
  unfolding on_oam_stats_req
  by_session-IsRunning none msg_id payload d bytes c = c
  by_session-IsRunning (some inst) msg_id payload d bytes c =
      elim (Bool-cases (chars_eq (codes "data") inst)) [
        | inl e ↦ rw e (elim (Bool-cases (2 == msg_id)) [
          | inl f ↦ rw f (on_task_active-IsRunning payload d bytes c)
          | inr f ↦ rw f (elim (Bool-cases (3 == msg_id)) [
            | inl g ↦ rw g (on_agent_data-IsRunning payload d c)
            | inr g ↦ rw g c
          ])
        ])
        | inr e ↦ rw e (elim (Bool-cases (chars_eq (codes "oam") inst)) [
          | inl f ↦ rw f (elim (Bool-cases (10 == msg_id)) [ inl g ↦ rw g c | inr g ↦ rw g c ])
          | inr f ↦ rw f c
        ])
      ]

  on_message-IsRunning :
      (m : Message) (d : DataThread)
      → HasBytes m.payload
      → IsRunning d.world
      → IsRunning (on_message order us m d).world
  unfolding tick_factory
  on_message-IsRunning m d bytes c =
      rw
        (data_dispatch-by_session bypass_full order us m.status m.session_inst m.msg_id m.payload
          m.len d)
        (elim (Bool-cases (m.msg_id == 9)) [
          | inl e ↦ rw e (on_tick-IsRunning d.world c)
          | inr e ↦ rw e (by_session-IsRunning m.session_inst m.msg_id m.payload d bytes c)
        ])

  -- In the full mode a running data thread is running after any messages whose payloads are bytes:
  -- frames of any type and length, ticks, task messages and requests for the statistics, in any order
  -- and of any session, whatever the order in which the table is visited.
  pub on_messages-IsRunning :
      (ms : List Message) (d : DataThread)
      → AllBytes ms
      → IsRunning d.world
      → IsRunning (on_messages order us ms d).world
  on_messages-IsRunning [] d bytes c = c
  on_messages-IsRunning (m ∷ ms) d (here, bytes) c =
      on_messages-IsRunning ms (on_message order us m d) bytes (on_message-IsRunning m d here c)
