-- ===== src/Net/Connection.antt =====
-- efnfw/net/ef_connection.cpp, receiving: `Connection::handleRead`, built without READ_ALL. The
-- virtual functions `checkPackLen` and `handlePacket` are parameters; the second works on the
-- state of the derived class and says whether its result was not negative.
pub mod Stream
pub mod Delivery
pub mod Receive
pub mod Send
pub mod Sent
pub mod Order
pub mod Wire
mod Tests
mod SendTests
use gpush.Prelude.{
  ℕ, zero, suc, ◌+◌, ◌*◌, List, [], ◌∷◌, Option, none, some, Bool, true, false, if◌then◌else◌, ◌==◌,
  length,
}
use gpush.Base.LoopBuf.{LoopBuf, read, grow, store_free, extend, free_frame_len, is_empty}
use gpush.Proto.{PackLen, bad, wait, pack}

-- How a handler leaves the connection: open, or to be recycled; `spinning` is a loop that has not
-- ended in the rounds allowed, or a fault.
pub data Outcome (S : Type 0) : Type 0 where
  open_at : LoopBuf → S → Outcome S
  closed : S → Outcome S
  spinning : Outcome S

-- What `tcpNbReceive` gives: an error, or the bytes that came.
pub data Received : Type 0 where
  failed : Received
  came : List ℕ → Received

-- The buffer with room to receive into.
pub with_room : LoopBuf → LoopBuf
with_room b = if free_frame_len b == 0 then extend b (16 * 1024) else b

module _ {S : Type 0} (check : LoopBuf → PackLen) (handle : S → List ℕ → S × Bool) where
  -- The loop that takes whole packets off the receive buffer.
  pub packet_loop : ℕ → LoopBuf → S → Outcome S
  packet_loop zero b s = spinning
  packet_loop (suc rounds) b s = elim (check b) [
    | bad ↦ closed s
    | wait ↦ open_at b s
    | pack len ↦ elim (read (suc (suc (length b.chain.done))) b len) [
      | none ↦ spinning
      | some (req, b') ↦ elim (handle s req).1 [
        | true ↦ packet_loop rounds b' (handle s req).0
        | false ↦ closed (handle s req).0
      ]
    ]
  ]

  pub handle_read : ℕ → LoopBuf → S → Received → Outcome S
  handle_read rounds b s failed = closed s
  handle_read rounds b s (came bytes) =
      let after : Outcome S = elim (grow (store_free (with_room b) bytes) (length bytes)) [
        | none ↦ spinning
        | some (_, b') ↦ packet_loop rounds b' s
      ] in
      if is_empty bytes then closed s else after
