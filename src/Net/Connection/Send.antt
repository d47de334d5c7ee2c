-- ===== src/Net/Connection/Send.antt =====
-- efnfw/net/ef_connection.cpp, sending: `sendMessage`, `doSend`, `handleWrite` and `safeClose`. What
-- the kernel answers to the calls of `send` is a list; a handler is `none` when it is used up. Calls
-- that register a socket's events are taken to succeed.
use gpush.Prelude.{
  ℕ, zero, suc, ◌+◌, List, [], ◌∷◌, ◌++◌, Option, none, some, Bool, true, false, if◌then◌else◌,
  ◌==◌, ◌||◌, ltb, leb, min, length, take, drop,
}
use gpush.Base.LoopBuf.{LoopBuf, read, auto_resize_write, first_frame_len, first_frame_data}

pub data Errno : Type 0 where
  eintr eagain other : Errno

-- How many bytes a call of `send` would take, and what it leaves in `errno`. It takes no more than it
-- is given, so it returns 0 for no bytes.
pub record Answer : Type 0 where
  pub taken : ℕ
  pub errno : Errno

pub data SendRet : Type 0 where
  sent : ℕ → SendRet
  refused : SendRet

-- The sending half of a connection: the bytes waiting, those that the kernel took, its answers to
-- come, whether `WRITE_EVENT` is registered and whether `m_flag` is `FLAG_SAFE_CLOSE`.
pub record Sender : Type 0 where
  pub send_buf : LoopBuf
  pub wire : List ℕ
  pub answers : List Answer
  pub write_event : Bool
  pub safe_close : Bool

-- `send_`: a call is made again while it is interrupted.
unfoldable pub send_bytes : List Answer → List ℕ → Option (SendRet × List Answer)
send_bytes [] bytes = none
send_bytes (a ∷ answers) bytes =
    let n = min a.taken (length bytes) in
    let again = send_bytes answers bytes in
    if ltb 0 n then some (sent n, answers) else elim a.errno [
      | eintr ↦ again
      | eagain ↦ some (sent 0, answers)
      | other ↦ some (refused, answers)
    ]

-- The loop of `doSend`, with the number of bytes sent so far.
unfoldable pub send_loop : ℕ → Sender → ℕ → Option (SendRet × Sender)
send_loop zero s total = none
send_loop (suc rounds) s total =
    let bytes = first_frame_data s.send_buf in
    let len = first_frame_len s.send_buf in
    elim (send_bytes s.answers bytes) [
      | none ↦ none
      | some (refused, answers) ↦ some (refused, record s { answers = answers })
      | some (sent n, answers) ↦
          elim (read (suc (suc (length s.send_buf.chain.done))) s.send_buf n) [
            | none ↦ none
            | some (_, b) ↦
                let s' : Sender = record s {
                  send_buf = b;
                  wire = s.wire ++ take n bytes;
                  answers = answers;
                } in
                elim (ltb n len || (n == 0)) [
                  | true ↦ some (sent (total + n), s')
                  | false ↦ send_loop rounds s' (total + n)
                ]
          ]
    ]

unfoldable pub do_send : ℕ → Sender → Option (SendRet × Sender)
do_send rounds s =
    if first_frame_len s.send_buf == 0 then some (sent 0, s) else send_loop rounds s 0

-- A message is sent at once, as far as the kernel takes it.
unfoldable pub send_now : List ℕ → Sender → Option (SendRet × Sender)
send_now msg s = elim (send_bytes s.answers msg) [
  | none ↦ none
  | some (refused, answers) ↦ some (refused, record s { answers = answers })
  | some (sent n, answers) ↦
      let s' : Sender = record s { wire = s.wire ++ take n msg; answers = answers } in
      let rest : Sender = record s' {
        send_buf = (auto_resize_write s.send_buf (drop n msg)).1;
        write_event = true;
      } in
      some (sent n, if leb (length msg) n then s' else rest)
]

-- Or it waits behind those that wait for the socket to be writable.
unfoldable pub send_message : List ℕ → Sender → Option (SendRet × Sender)
unfolding send_now
send_message msg s =
    let queued : Sender = record s { send_buf = (auto_resize_write s.send_buf msg).1 } in
    if s.write_event then some (sent 0, queued) else send_now msg s

-- The end of `handleWrite`; -2, as any failure, lets the connection be recycled.
unfoldable pub after_send : Option (SendRet × Sender) → Option (SendRet × Sender)
after_send none = none
after_send (some (refused, s)) = some (refused, s)
after_send (some (sent n, s)) =
    if s.send_buf.size == 0
    then (if s.safe_close
        then some (refused, s)
        else some (sent n, record s { write_event = false }))
    else some (sent n, s)

unfoldable pub handle_write : ℕ → Sender → Option (SendRet × Sender)
unfolding after_send
handle_write rounds s = after_send (do_send rounds s)

-- `safeClose` of a connection on an event loop; `none` in place of a state: it is recycled.
pub safe_close_send : ℕ → Sender → Option (SendRet × Option Sender)
safe_close_send rounds s =
    let closing : Sender = record s { write_event = true; safe_close = true } in
    if s.send_buf.size == 0
    then some (sent 0, none)
    else elim (do_send rounds closing) [ none ↦ none | some (ret, s') ↦ some (ret, some s') ]
