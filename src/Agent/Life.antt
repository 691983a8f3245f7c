-- ===== src/Agent/Life.antt =====
-- agent/src/dts_agent_api.cpp: the thread of the agent, from its creation to its end.
use dts_framework.Common.{
  ℕ, Bool, true, false, Option, none, some, List, [], ◌∷◌, ◌++◌, ◌≡◌, refl, ap,
}
use dts_framework.Agent.PingPong.{PingPongBuffer}
use dts_framework.Agent.Reader.{reader_round}

-- The agent and its configuration: whether a callback is set, the key, and the thread.
pub record AgentImpl : Type 0 where
  pub publish : Bool
  pub out_key : ℕ
  pub stop : Bool
  pub reading : Bool

-- `dts_agent_create`
unfoldable pub dts_agent_create : Bool → ℕ → AgentImpl
dts_agent_create publish out_key = record {
  publish = publish;
  out_key = out_key;
  stop = false;
  reading = true;
}

-- `dts_agent_destroy` up to the `delete`: the thread is joined.
unfoldable pub dts_agent_destroy : Option AgentImpl → Option AgentImpl
dts_agent_destroy none = none
dts_agent_destroy (some self) = some (record self { stop = true; reading = false })

abbrev pub published : Option (ℕ × List ℕ) → List (ℕ × List ℕ)
published none = []
published (some msg) = msg ∷ []

-- `agentReaderLoop`, by what each test of `stop` finds, and what the other side does to the buffer
-- during the sleep that follows.
unfoldable pub reader_loop :
    AgentImpl
    → List (Bool × (PingPongBuffer → PingPongBuffer))
    → PingPongBuffer
    → List (ℕ × List ℕ) × PingPongBuffer
unfolding reader_round
reader_loop self [] b = ([], b)
reader_loop self ((true, writes) ∷ turns) b = ([], b)
reader_loop self ((false, writes) ∷ turns) b =
    let r = reader_round self.publish self.out_key (writes b) in
    let rest = reader_loop self turns r.1 in (published r.0 ++ rest.0, rest.1)

-- The turns before a stop is seen.
abbrev pub before_stop :
    List (Bool × (PingPongBuffer → PingPongBuffer))
    → List (Bool × (PingPongBuffer → PingPongBuffer))
before_stop [] = []
before_stop ((true, writes) ∷ turns) = []
before_stop ((false, writes) ∷ turns) = (false, writes) ∷ before_stop turns

-- What comes after the first test that finds a stop does not matter: nothing of it is read or
-- published.
pub reader_loop-before_stop :
    (self : AgentImpl) (turns : List (Bool × (PingPongBuffer → PingPongBuffer)))
    (b : PingPongBuffer)
    → reader_loop self turns b ≡ reader_loop self (before_stop turns) b
unfolding reader_loop
reader_loop-before_stop self [] b = refl
reader_loop-before_stop self ((true, writes) ∷ turns) b = refl
reader_loop-before_stop self ((false, writes) ∷ turns) b =
    let r = reader_round self.publish self.out_key (writes b) in
    ap (λ rest. (published r.0 ++ rest.0, rest.1)) (reader_loop-before_stop self turns r.1)
