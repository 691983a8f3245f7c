-- ===== src/Agent/Reader.antt =====
-- agent/src/dts_agent_api.cpp: the loop of the agent, which reads a face of the buffer and publishes
-- it.
pub mod Batches
use dts_framework.Common.{ℕ, Bool, Option, none, some, List, [], ◌∷◌, if◌then◌else◌}
use dts_framework.Agent.PingPong.{PingPongBuffer, read_and_flip}

-- `kAgentBufSize`
abbrev pub agent_buf_size : ℕ
agent_buf_size = 65536

-- What is handed to the publish callback, where there is one.
unfoldable pub to_publish : Bool → ℕ → List ℕ → Option (ℕ × List ℕ)
to_publish publish out_key [] = none
to_publish publish out_key (b ∷ bs) = if publish then some (out_key, b ∷ bs) else none

-- A round of `agentReaderLoop`.
unfoldable pub reader_round : Bool → ℕ → PingPongBuffer → Option (ℕ × List ℕ) × PingPongBuffer
unfolding to_publish read_and_flip
reader_round publish out_key b =
    let r = read_and_flip agent_buf_size b in (to_publish publish out_key r.0, r.1)
