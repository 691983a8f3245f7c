-- ===== src/Agent/PingPong.antt =====
-- agent/src/pingpong.cpp: the buffer with two faces between the writer of raw data and the agent. A
-- face is the bytes before its offset; one thread writes and one reads, and the flip is one step.
pub mod Flip
use dts_framework.Common.{
  ℕ, ◌+◌, ◌%◌, ◌^◌, Bool, true, false, ◌||◌, not, Option, none, some, List, [], ◌++◌, ltb, ◌==◌,
  if◌then◌else◌, length, take, is_nil, min,
}

-- `kPingPongSize`
abbrev pub ping_pong_size : ℕ
ping_pong_size = 32768

-- `cur` is whether the second face is the one that is written.
pub record PingPongBuffer : Type 0 where
  pub first : List ℕ
  pub second : List ℕ
  pub cur : Bool

abbrev pub face : PingPongBuffer → Bool → List ℕ
face b true = b.second
face b false = b.first

abbrev pub set_face : PingPongBuffer → Bool → List ℕ → PingPongBuffer
set_face b true bytes = record b { second = bytes }
set_face b false bytes = record b { first = bytes }

-- `Write`; `none` where `memcpy` writes behind the face, since `off + len` wraps at 32 bits.
unfoldable pub write : List ℕ → PingPongBuffer → Option (Bool × PingPongBuffer)
write bytes b =
    let off = length (face b b.cur) in
    if is_nil bytes || ltb ping_pong_size ((off + length bytes) % 2 ^ 32)
    then some (false, b)
    else if ltb ping_pong_size (off + length bytes)
    then none
    else some (true, set_face b b.cur (face b b.cur ++ bytes))

-- `ReadAndFlip` into a buffer of `cap` bytes: what it copies.
unfoldable pub read_and_flip : ℕ → PingPongBuffer → List ℕ × PingPongBuffer
read_and_flip cap b =
    let flipped = record b { cur = not b.cur } in
    let n = min (length (face b b.cur)) cap in
    (take n (face b b.cur), if n == 0 then flipped else set_face flipped b.cur [])
